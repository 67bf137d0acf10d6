-- ===== src/Container/Process.antt =====
-- The container seen from the parent: `container_init`, `container_wait`, `container_stop`.
use docker.Base.{
  ℕ, ◌+◌, ◌/◌, ◌%◌, ℤ, pos, minus_one, is_neg, not, ◌&&◌, ◌==◌, Bool, [], ◌∷◌, get_or,
  if◌then◌else◌,
}
use docker.Sys.{M, Call, CloneFlag, pure, sys, sys_ret, ◌>>=◌, ◌>>◌}
use docker.Container.Defs.{ContainerConfig}

-- The pid, and the configuration with its descriptor closed.
unfoldable pub container_init : ContainerConfig → M (ℤ × ContainerConfig)
container_init config = do
  pid ← sys_ret (
      Call.clone (
        CloneFlag.newns ∷ CloneFlag.newcgroup ∷ CloneFlag.newpid ∷ CloneFlag.newipc
        ∷ CloneFlag.newnet ∷ CloneFlag.newuts ∷ CloneFlag.sigchld ∷ []))
  if is_neg pid
      then pure (minus_one, config)
      else if is_neg config.fd
      then pure (pid, config)
      else do sys_ret (Call.close config.fd); pure (pid, record config { fd = minus_one })

-- The macros of sys/wait.h on a wait status.
abbrev pub wifexited : ℕ → Bool
wifexited status = status % 128 == 0

abbrev pub wexitstatus : ℕ → ℕ
wexitstatus status = status / 256 % 256

abbrev pub wtermsig : ℕ → ℕ
wtermsig status = status % 128

abbrev pub wifsignaled : ℕ → Bool
wifsignaled status = not (wtermsig status == 0) && not (wtermsig status == 127)

unfoldable pub container_wait : ℤ → M ℤ
container_wait container_pid = do
  r ← sys (Call.waitpid container_pid)
  let status = get_or r.out 0 0
  if is_neg r.ret
      then pure minus_one
      else if wifexited status
      then pure (pos (wexitstatus status))
      else if wifsignaled status
      then pure (pos (128 + wtermsig status))
      else pure minus_one

-- SIGKILL is 9.
unfoldable pub container_stop : ℤ → M (Unit {0})
container_stop container_pid = do
  r ← sys_ret (Call.kill container_pid 9)
  if is_neg r then pure tt else do sys_ret (Call.waitpid container_pid); pure tt
