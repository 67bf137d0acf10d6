-- ===== src/Container/Privileges.antt =====
-- The capabilities that are left to the command of `container_start`.
use docker.Base.{
  ◌≡◌, refl, is_neg, pos, true, false, Bool-cases, inl, inr, ◌∷◌, arith, List, Option, Bytes,
}
use docker.Sys.{Kernel, Trace, Call, Capability, steps}
use docker.Sys.Alphabet.{Only, only_rules, admits}
use docker.User.{user_namespace_init}
use docker.Sec.{sec_set_caps, sec_set_seccomp, seccomp_calls, rules}
use docker.Sec.Laws.{sec_set_caps_sign}
use docker.Sec.Capabilities.{
  Credentials, process, is_neutral, process_neutral, sec_set_caps-permits_none,
}
use docker.Container.{ContainerConfig, container_start, prepare, restrict, execute, fail}
use docker.Container.Calls.{all_done-Only}
use docker.Container.Order.{container_start_order}

seccomp_calls_neutral : admits is_neutral (seccomp_calls rules) ≡ true
unfolding seccomp_calls rules
seccomp_calls_neutral = refl

sec_set_seccomp_neutral : Only is_neutral sec_set_seccomp
unfolding sec_set_seccomp
sec_set_seccomp_neutral = search (only_rules, all_done-Only, seccomp_calls_neutral) depth 40

restrict_trace :
    (config : ContainerConfig) (k : Kernel) (t : Trace)
    → is_neg (user_namespace_init config.uid config.fd k t).0 ≡ false
    → (restrict config k t).1
      ≡ (sec_set_seccomp k (sec_set_caps k (user_namespace_init config.uid config.fd k t).1).1).1
unfolding restrict steps
restrict_trace config k t entered =
    ground (arith, sec_set_caps_sign k (user_namespace_init config.uid config.fd k t).1)

-- What has been called when the command is run.
start_rest :
    (config : ContainerConfig) (k : Kernel) (t : Trace) (path : Bytes) (argv : List (Option Bytes))
    (rest : Trace)
    → is_neg config.fd ≡ false
    → (container_start config k t).1 ≡ Call.execve path argv ∷ rest
    → rest ≡ Call.close config.fd ∷ (restrict config k (prepare config k t).1).1
unfolding container_start execute fail steps
start_rest config k t path argv rest h e = elim (Bool-cases (prepare config k t).0) [
  | inr unprepared ↦ ground arith
  | inl prepared ↦ elim (Bool-cases (restrict config k (prepare config k t).1).0) [
    | inr unrestricted ↦ ground arith
    | inl restricted ↦ ground arith
  ]
]

-- Whatever the process held before and whatever a new user namespace gives it: if the socket of the
-- container is not negative, the last call of `container_start` is an `execve`, and `sec_set_caps`
-- returned 0 behind `user_namespace_init`, then the command is permitted none of the 20 capabilities that
-- sec.c drops, when of the calls before it those that report success have their effect. Of the other
-- capabilities of Linux nothing is said.
pub command_permits_none :
    (kernel : Credentials) (c : Capability) (s : kernel.State) (config : ContainerConfig)
    (k : Kernel) (t : Trace) (path : Bytes) (argv : List (Option Bytes)) (rest : Trace)
    → is_neg config.fd ≡ false
    → (container_start config k t).1 ≡ Call.execve path argv ∷ rest
    → let u = (user_namespace_init config.uid config.fd k (prepare config k t).1).1 in
      (sec_set_caps k u).0 ≡ pos 0
      → kernel.permitted_after_exec c (process kernel k s rest).0 ≡ false
command_permits_none kernel c s config k t path argv rest h e dropped =
    let (mounted, connected, prepared, entered) =
      container_start_order config k t path argv rest h e in
    let u = (user_namespace_init config.uid config.fd k (prepare config k t).1).1 in
    let filtered =
      process_neutral kernel s sec_set_seccomp k (sec_set_caps k u).1 sec_set_seccomp_neutral in
    rw
      (
        start_rest config k t path argv rest h e,
        restrict_trace config k (prepare config k t).1 entered,
        filtered,
      )
      (sec_set_caps-permits_none kernel c s k u dropped)
