-- ===== src/Container/Start.antt =====
-- `container_start`, which `clone` runs in the new process.
use docker.Base.{
  ℤ, pos, minus_one, is_neg, not, ◌&&◌, Bool, true, false, Bytes, Option, none, some, [], ◌∷◌,
  codes, if◌then◌else◌,
}
use docker.Sys.{M, Call, MountFlag, pure, sys_ret, ◌>>=◌, ◌>>◌}
use docker.Mount.{mount_set}
use docker.User.{user_namespace_init}
use docker.Sec.{sec_set_caps, sec_set_seccomp}
use docker.Container.Defs.{ContainerConfig}
use docker.Container.Network.{enable_ping_dgram, setup_dns, configure_network}

-- Not called by the program.
unfoldable pub mount_pseudo_fs : M ℤ
mount_pseudo_fs = do
  sys_ret (
      Call.mount (some (codes "proc")) (codes "/proc") (some (codes "proc"))
        (MountFlag.ms_nodev ∷ MountFlag.ms_noexec ∷ MountFlag.ms_nosuid ∷ []))
  sys_ret (
      Call.mount (some (codes "sysfs")) (codes "/sys") (some (codes "sysfs"))
        (MountFlag.ms_nodev ∷ MountFlag.ms_noexec ∷ MountFlag.ms_nosuid ∷ MountFlag.ms_rdonly ∷ []))
  pure (pos 0)

-- The label `fail`.
unfoldable pub fail : Bool → ContainerConfig → M ℤ
fail fd_closed config =
    if not fd_closed && not (is_neg config.fd)
    then (do sys_ret (Call.close config.fd); pure minus_one)
    else pure minus_one

unfoldable pub set_hostname : Option Bytes → M Bool
set_hostname none = pure true
set_hostname (some hostname) = do r ← sys_ret (Call.sethostname hostname); pure (not (is_neg r))

-- Stages 1 and 2, to the end of what needs privileges.
unfoldable pub prepare : ContainerConfig → M Bool
unfolding set_hostname
prepare config = do
  named ← set_hostname config.hostname
  if not named then pure false else do
    mounted ← mount_set config.mnt
    if is_neg mounted then pure false else do
      connected ← configure_network config
      if not connected
          then pure false
          else do setup_dns config.dns_server; enable_ping_dgram; pure true

-- The user namespace and stage 3. The tests are those of the source, `< 0`.
unfoldable pub restrict : ContainerConfig → M Bool
restrict config = do
  entered ← user_namespace_init config.uid config.fd
  if is_neg entered then pure false else do
    caps ← sec_set_caps
    if is_neg caps then pure false else do filtered ← sec_set_seccomp; pure (not (is_neg filtered))

-- Stage 4. `execve` returns only when it fails.
unfoldable pub execute : ContainerConfig → M ℤ
unfolding fail
execute config = do
  closed ← sys_ret (Call.close config.fd)
  if is_neg closed then fail false config else do
    r ← sys_ret (Call.execve config.cmd (some config.cmd ∷ config.arg ∷ none ∷ []))
    if is_neg r then fail true config else pure (pos 0)

unfoldable pub container_start : ContainerConfig → M ℤ
container_start config = do
  prepared ← prepare config
  if not prepared then fail false config else do
    restricted ← restrict config
    if not restricted then fail false config else execute config
