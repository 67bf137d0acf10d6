-- ===== src/Container/Laws.antt =====
-- How `container_start` fails, its restrictions, and `container_wait`.
use docker.Base.{
  ℕ, ◌+◌, ◌≡◌, ℤ, pos, minus_one, is_neg, not, false, [], ◌∷◌, length, some, none, arith,
  Bool-cases, inl, inr, ◌⊎◌, get_or, ◌%◌, ◌<◌, ◌*◌,
}
use docker.Sys.{Kernel, Trace, Call, steps}
use docker.User.{user_namespace_init}
use docker.Sec.{sec_set_caps}
use docker.Sec.Laws.{sec_set_caps_sign, sec_set_seccomp_sign}
use docker.Container.{
  ContainerConfig, container_start, prepare, restrict, execute, fail, container_wait,
}

-- Whether the capabilities are dropped and the filter is loaded does not matter to `container_start`:
-- the restrictions count as done exactly when the user namespace was entered, since both functions
-- report a failure by 1 and the tests are `< 0`.
pub restrict-eq-namespace :
    (config : ContainerConfig) (k : Kernel) (t : Trace)
    → (restrict config k t).0 ≡ not (is_neg (user_namespace_init config.uid config.fd k t).0)
unfolding restrict steps
restrict-eq-namespace config k t = ground (
  arith,
  sec_set_caps_sign k (user_namespace_init config.uid config.fd k t).1,
  sec_set_seccomp_sign k (sec_set_caps k (user_namespace_init config.uid config.fd k t).1).1,
)

-- How a failed start ends: the parent's socket was closed by the last call, or the last call was an
-- `execve` and the socket had been closed by the one before.
abbrev pub Released : ContainerConfig → Trace → Type 0
Released config t =
    (rest : Trace) × ((t ≡ Call.close config.fd ∷ rest)
      ⊎ (t
          ≡ Call.execve config.cmd (some config.cmd ∷ config.arg ∷ none ∷ [])
            ∷ Call.close config.fd
            ∷ rest))

execute-Released :
    (config : ContainerConfig) (k : Kernel) (t : Trace)
    → is_neg config.fd ≡ false
    → (execute config k t).0 ≡ minus_one
    → Released config (execute config k t).1
unfolding execute fail steps
execute-Released config k t h e =
    elim (Bool-cases (is_neg (k (length t) (Call.close config.fd)).ret)) [
      | inl bad ↦ (Call.close config.fd ∷ t, ground arith)
      | inr good ↦ (t, ground arith)
    ]

-- If the socket is not negative and `container_start` returns -1, its last call closed the socket,
-- or was an `execve` and the call before it closed the socket.
pub container_start-Released :
    (config : ContainerConfig) (k : Kernel) (t : Trace)
    → is_neg config.fd ≡ false
    → (container_start config k t).0 ≡ minus_one
    → Released config (container_start config k t).1
unfolding container_start fail steps
container_start-Released config k t h e = elim (Bool-cases (prepare config k t).0) [
  | inr unprepared ↦ ((prepare config k t).1, ground arith)
  | inl prepared ↦ elim (Bool-cases (restrict config k (prepare config k t).1).0) [
    | inr unrestricted ↦ ((restrict config k (prepare config k t).1).1, ground arith)
    | inl restricted ↦
        ground (arith, execute-Released config k (restrict config k (prepare config k t).1).1 h)
  ]
]

-- If `waitpid` succeeds and stores 256 times a code below 256, `container_wait` returns the code.
pub container_wait_exited :
    (pid : ℤ) (k : Kernel) (t : Trace) (code : ℕ)
    → code < 256
    → is_neg (k (length t) (Call.waitpid pid)).ret ≡ false
    → get_or (k (length t) (Call.waitpid pid)).out 0 0 ≡ code * 256
    → (container_wait pid k t).0 ≡ pos code
unfolding container_wait steps
container_wait_exited pid k t code b h e = ground arith

-- If `waitpid` succeeds and stores a status whose low seven bits are a signal from 1 to 126,
-- `container_wait` returns 128 and the signal.
pub container_wait_signaled :
    (pid : ℤ) (k : Kernel) (t : Trace) (signal : ℕ)
    → 0 < signal
    → signal < 127
    → is_neg (k (length t) (Call.waitpid pid)).ret ≡ false
    → get_or (k (length t) (Call.waitpid pid)).out 0 0 % 128 ≡ signal
    → (container_wait pid k t).0 ≡ pos (128 + signal)
unfolding container_wait steps
container_wait_signaled pid k t signal a b h e = ground arith
