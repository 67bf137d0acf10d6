-- ===== src/Barco/Main.antt =====
-- `main` of src/barco.c, and its labels `cleanup` and `exit`.
use docker.Base.{
  ℕ, ℤ, pos, minus_one, is_neg, nonzero, not, ◌&&◌, Bool, true, false, Option, none, some, [], ltb,
  if◌then◌else◌,
}
use docker.Sys.{M, Call, Block, pure, sys_ret, ◌>>=◌, ◌>>◌}
use docker.Netlink.Link.{nl_del_link}
use docker.Cgroups.{cgroups_free}
use docker.Barco.Nat.{cleanup_nat, cleanup_subnet, is_empty}
use docker.Barco.Defs.{Args, Locals, Flow, next, cleanup, waiting, ◌>=>◌}
use docker.Barco.Setup.{
  text_of, is_set, base_config, fill_config, make_sockets, make_stack, host_network,
}
use docker.Barco.Run.{start_container, move_interface, confine, await_exit}

abbrev pub when : Bool → M (Unit {0}) → M (Unit {0})
when true m = m
when false m = pure tt

unfoldable pub remove_nat : Locals → M (Unit {0})
remove_nat l =
    when (l.nat_applied && (is_set l.config.container_ip && not (is_empty l.host_if)))
      (cleanup_nat (cleanup_subnet (text_of l.config.container_ip)) l.host_if)

unfoldable pub remove_veth : Locals → M (Unit {0})
remove_veth l =
    when (l.veth_created && is_set l.config.veth_peer)
      (nl_del_link (text_of l.config.veth_peer) >> pure tt)

-- A descriptor of the socket pair that is not negative.
abbrev pub close_socket : ℤ → M (Unit {0})
close_socket fd = when (not (is_neg fd)) (sys_ret (Call.close fd) >> pure tt)

unfoldable pub free_stack : Locals → M (Unit {0})
free_stack l = when l.stack (sys_ret (Call.free Block.stack) >> pure tt)

unfoldable pub remove_cgroup : Locals → M (Unit {0})
remove_cgroup l =
    when (is_set l.config.hostname) (cgroups_free (text_of l.config.hostname) >> pure tt)

-- From `cleanup:` to `exit:`.
unfoldable pub clean_up : Locals → M (Unit {0})
unfolding remove_nat remove_veth free_stack remove_cgroup
clean_up l = do
  remove_nat l
  remove_veth l
  free_stack l
  close_socket l.socket0
  close_socket l.socket1
  remove_cgroup l

-- From `exit:` on. `free` of NULL does nothing, so it is called for each field.
unfoldable pub release : ℤ → M ℤ
release exitcode = do
  sys_ret (Call.free Block.veth_peer)
  sys_ret (Call.free Block.veth_tmp)
  sys_ret (Call.free Block.config)
  sys_ret Call.arg_freetable
  pure exitcode

abbrev pub initial : Args → Locals
initial args = record {
  stack = false;
  config = base_config args;
  container_pid = minus_one;
  socket0 = minus_one;
  socket1 = minus_one;
  exitcode = pos 0;
  veth_created = false;
  nat_applied = false;
  host_if = [];
}

-- Parts 3 to 9.
unfoldable pub setup : Args → Locals → M Flow
setup args =
    fill_config args
    >=> make_sockets
    >=> make_stack
    >=> host_network
    >=> start_container
    >=> move_interface
    >=> confine

-- Everything between the command line and `cleanup`.
unfoldable pub body : ℕ → Args → Locals → M Flow
body rounds args = setup args >=> await_exit rounds

-- What follows the jump to `cleanup`. A body that runs on never ends in `next`.
unfoldable pub finish : Flow → M (Option ℤ)
finish (next l) = do clean_up l; code ← release l.exitcode; pure (some code)
finish (cleanup l) = do clean_up l; code ← release l.exitcode; pure (some code)
finish waiting = pure none

-- The exit code; `none` where the container still runs after so many rounds of `waitpid`.
unfoldable pub main : ℕ → Args → M (Option ℤ)
main rounds args = do
  config ← sys_ret (Call.calloc Block.config)
  if not (nonzero config)
      then pure (some (pos 1))
      else if ltb 0 args.errors
      then (release (pos 1) >>= λ code. pure (some code))
      else if args.help
      then (release (pos 0) >>= λ code. pure (some code))
      else do flow ← body rounds args (initial args); finish flow
