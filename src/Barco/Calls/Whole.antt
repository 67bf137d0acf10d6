-- ===== src/Barco/Calls/Whole.antt =====
-- The calls that all of `main` makes.
use docker.Base.{ℕ, ℤ, Bytes, Bool, true, false}
use docker.Sys.{M, Call}
use docker.Sys.Alphabet.{Only, only_rules, Only-pure, Only-bind, Only-weaken}
use docker.Barco.Nat.{cleanup_nat}
use docker.Barco.Defs.{Args, Locals, Flow, next, cleanup, waiting, go_on, ◌>=>◌}
use docker.Barco.Setup.{fill_config, make_sockets, make_stack, host_network}
use docker.Container.{ContainerConfig, container_init}
use docker.Barco.Run.{start_container}
use docker.Barco.Main.{
  main, body, setup, finish, release, clean_up, remove_nat, remove_veth, close_socket, free_stack,
  remove_cgroup, when,
}
use docker.Barco.Calls.{
  plain_call, calm_call, calm_still, plain_still, still_call, still_host, host_call, del_link,
  cgroups_free-Only,
}
use docker.Barco.Calls.Parts.{
  fill_config-Only, make_sockets-Only, make_stack-Only, host_network-Only,
}
use docker.Barco.Calls.Own.{own_host, move_interface-Only, confine-Only, await_exit-Only}

cleanup_nat-Only : (subnet host_if : Bytes) → Only calm_call (cleanup_nat subnet host_if)
unfolding cleanup_nat
cleanup_nat-Only subnet host_if = search only_rules depth 40

pub Only-when : {P : Call → Bool} (b : Bool) (m : M (Unit {0})) → Only P m → Only P (when b m)
Only-when true m p = p
Only-when false m p = Only-pure _

pub remove_nat-Only : (l : Locals) → Only calm_call (remove_nat l)
unfolding remove_nat
remove_nat-Only l = search (only_rules, Only-when, cleanup_nat-Only) depth 40

pub remove_veth-Only : (l : Locals) → Only plain_call (remove_veth l)
unfolding remove_veth
remove_veth-Only l = search (only_rules, Only-when, del_link) depth 40

free_stack-Only : (l : Locals) → Only still_call (free_stack l)
unfolding free_stack
free_stack-Only l = search (only_rules, Only-when) depth 40

pub close_socket-Only : (fd : ℤ) → Only plain_call (close_socket fd)
close_socket-Only fd = search (only_rules, Only-when) depth 40

pub remove_cgroup-Only : (l : Locals) → Only plain_call (remove_cgroup l)
unfolding remove_cgroup
remove_cgroup-Only l = search (only_rules, Only-when, cgroups_free-Only) depth 40

from_plain : {A : Type 0} (m : M A) → Only plain_call m → Only still_call m
from_plain m o = Only-weaken plain_still o

pub clean_up-Only : (l : Locals) → Only still_call (clean_up l)
unfolding clean_up
clean_up-Only l = Only-bind _ _ (Only-weaken calm_still (remove_nat-Only l)) λ a.
    Only-bind _ _ (from_plain _ (remove_veth-Only l)) λ b. Only-bind _ _ (free_stack-Only l) λ c.
      Only-bind _ _ (from_plain _ (close_socket-Only l.socket0)) λ d.
        Only-bind _ _ (from_plain _ (close_socket-Only l.socket1))
          λ e. from_plain _ (remove_cgroup-Only l)

pub release-Only : (code : ℤ) → Only still_call (release code)
unfolding release
release-Only code = search only_rules depth 40

-- A part of `main` on every value of its variables, and a chain of parts.
pub record Part (P : Call → Bool) (f : Locals → M Flow) : Type 0 where
  pub on : (l : Locals) → Only P (f l)

pub Part-seq : {P : Call → Bool} {f g : Locals → M Flow} → Part P f → Part P g → Part P (f >=> g)
Part-seq {P} {f} {g} p q = record { on = λ l. Only-bind _ _ (p.on l) go }
  where
    go : (r : Flow) → Only P (go_on g r)
    go (next l) = q.on l
    go (cleanup l) = Only-pure _
    go waiting = Only-pure _

pub before_child-Part :
    (args : Args)
    → Part still_call (fill_config args >=> make_sockets >=> make_stack >=> host_network)
before_child-Part args =
    Part-seq
      (Part-seq
        (Part-seq (record { on = fill_config-Only args })
          (record { on = λ l. from_plain _ (make_sockets-Only l) }))
        (record { on = make_stack-Only }))
      (record { on = λ l. Only-weaken calm_still (host_network-Only l) })

container_init-Only : (config : ContainerConfig) → Only host_call (container_init config)
unfolding container_init
container_init-Only config = search only_rules depth 40

start_container-Only : (l : Locals) → Only host_call (start_container l)
unfolding start_container
start_container-Only l =
    Only-bind _ _ (container_init-Only l.config) λ r. search only_rules depth 40

body-Part : (rounds : ℕ) (args : Args) → Part host_call (body rounds args)
unfolding body setup
body-Part rounds args =
    Part-seq
      (Part-seq
        (Part-seq
          (Part-seq (record { on = λ l. Only-weaken still_host ((before_child-Part args).on l) })
            (record { on = start_container-Only }))
          (record { on = λ l. Only-weaken (own_host l.container_pid) (move_interface-Only l) }))
        (record { on = λ l. Only-weaken (own_host l.container_pid) (confine-Only l) }))
      (record { on = λ l. Only-weaken (own_host l.container_pid) (await_exit-Only rounds l) })

pub finish-Only : (r : Flow) → Only still_call (finish r)
unfolding finish
finish-Only (next l) = search (only_rules, clean_up-Only, release-Only) depth 40
finish-Only (cleanup l) = search (only_rules, clean_up-Only, release-Only) depth 40
finish-Only waiting = Only-pure _

run_finish : (r : Flow) → Only host_call (finish r)
run_finish r = Only-weaken still_host (finish-Only r)

run_release : (code : ℤ) → Only host_call (release code)
run_release code = Only-weaken still_host (release-Only code)

-- On no path does `main` change its own namespaces, root directory, host name, ids, capabilities or
-- system call filter, or run another program in its place: all of that is left to the container's
-- process.
pub main-Only : (rounds : ℕ) (args : Args) → Only host_call (main rounds args)
unfolding main
main-Only rounds args =
    search (only_rules, run_release, run_finish, (body-Part rounds args).on) depth 40
