-- ===== src/Barco/Run.antt =====
-- `main` around the container process: its parts 7 to 10.
use docker.Base.{
  ℕ, zero, suc, ◌+◌, ℤ, pos, minus_one, is_neg, nonzero, ◌&&◌, ◌==◌, ◌==ℤ◌, Bytes, codes, snprintf,
  get_or, if◌then◌else◌,
}
use docker.Sys.{M, Call, OpenMode, pure, sys, sys_ret, ◌>>=◌, ◌>>◌}
use docker.Container.{container_init, container_stop, wifexited, wexitstatus, wifsignaled, wtermsig}
use docker.Netlink.Link.{nl_move_to_ns}
use docker.User.{user_namespace_prepare_mappings, proc_path}
use docker.Cgroups.{cgroups_init}
use docker.Barco.Defs.{Locals, Flow, next, cleanup, waiting, failed}
use docker.Barco.Setup.{text_of, is_set}

-- Part 7.
unfoldable pub start_container : Locals → M Flow
start_container l = do
  (pid, config) ← container_init l.config
  let started = record l { container_pid = pid; config = config }
  if is_neg pid then pure (failed started) else do
    sys_ret (Call.usleep 100000)
    alive ← sys_ret (Call.kill pid 0)
    pure (if nonzero alive then failed started else next started)

-- Part 7.5, for a pair that was created.
unfoldable pub move_link : Bytes → Locals → M Flow
move_link veth_tmp l = do
  ns_fd ←
      sys_ret (
        Call.open_file (snprintf 64 (proc_path l.container_pid (codes "ns/net"))) OpenMode.o_rdonly)
  if is_neg ns_fd then (container_stop l.container_pid >> pure (failed l)) else do
    moved ← nl_move_to_ns veth_tmp ns_fd
    sys_ret (Call.close ns_fd)
    if is_neg moved then container_stop l.container_pid >> pure (failed l) else pure (next l)

unfoldable pub move_interface : Locals → M Flow
unfolding move_link
move_interface l =
    if l.veth_created && is_set l.config.veth_tmp
    then move_link (text_of l.config.veth_tmp) l
    else pure (next l)

-- Parts 8 and 9. The control group is not essential.
unfoldable pub confine : Locals → M Flow
confine l = do
  cgroups_init (text_of l.config.hostname) l.container_pid
  r ← user_namespace_prepare_mappings l.container_pid l.socket0
  if is_neg r then container_stop l.container_pid >> pure (failed l) else pure (next l)

-- The outcome of the loop over `waitpid`: its status, or a failure.
pub data Waited : Type 0 where
  exited : ℕ → Waited
  wait_failed : Waited
  running : Waited

-- EINTR is 4. The loop has no bound: the rounds are an argument of the model.
unfoldable pub wait_exit : ℕ → ℤ → M Waited
wait_exit zero pid = pure running
wait_exit (suc rounds) pid = do
  w ← sys (Call.waitpid pid)
  let rest = wait_exit rounds pid
  if w.ret ==ℤ minus_one
      then (if w.errno == 4 then rest else pure wait_failed)
      else if w.ret ==ℤ pid
      then pure (exited (get_or w.out 0 0))
      else rest

-- `container_status`, which starts as 0.
unfoldable pub status_of : ℕ → ℕ
status_of wstatus =
    if wifexited wstatus
    then wexitstatus wstatus
    else if wifsignaled wstatus
    then 128 + wtermsig wstatus
    else 0

-- The code that `main` goes to `cleanup` with.
abbrev pub after_wait : Locals → Waited → Flow
after_wait l (exited wstatus) =
    cleanup
      (record l { exitcode = if l.exitcode ==ℤ pos 0 then pos (status_of wstatus) else l.exitcode })
after_wait l wait_failed = failed l
after_wait l running = waiting

-- Part 10.
unfoldable pub await_exit : ℕ → Locals → M Flow
await_exit rounds l = do w ← wait_exit rounds l.container_pid; pure (after_wait l w)
