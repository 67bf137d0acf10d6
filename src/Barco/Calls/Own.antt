-- ===== src/Barco/Calls/Own.antt =====
-- The calls that `main` makes around the container's process.
use docker.Base.{ℕ, zero, suc, ℤ, pos, negsuc, ◌==ℤ◌, ◌≡◌, arith, Bytes, Bool, true}
use docker.Sys.{Call}
use docker.Sys.Alphabet.{Only, only_rules, Only-pure, Only-bind, Only-sys, Only-if, Only-weaken}
use docker.Netlink.Link.{nl_move_to_ns}
use docker.User.{user_namespace_prepare_mappings}
use docker.Cgroups.{cgroups_init}
use docker.Container.{container_stop}
use docker.Barco.Defs.{Locals}
use docker.Barco.Run.{move_link, move_interface, confine, wait_exit, await_exit}
use docker.Barco.Calls.{
  plain_call, host_call, move_to_ns, user_namespace_prepare_mappings-Only, cgroups_init-Only,
}

-- Besides the calls that leave processes alone, signals to the process `pid` and waits for it.
abbrev pub own_call : ℤ → Call → Bool
own_call pid (Call.kill d signal) = d ==ℤ pid
own_call pid (Call.waitpid d) = d ==ℤ pid
own_call pid c = plain_call c

pub plain_own : (pid : ℤ) (c : Call) → plain_call c ≡ true → own_call pid c ≡ true
plain_own pid c h = ground arith

pub own_host : (pid : ℤ) (c : Call) → own_call pid c ≡ true → host_call c ≡ true
own_host pid c h = ground arith

pub same_ℤ : (x : ℤ) → (x ==ℤ x) ≡ true
same_ℤ (pos n) = ground arith
same_ℤ (negsuc n) = ground arith

container_stop-Only : (pid : ℤ) → Only (own_call pid) (container_stop pid)
unfolding container_stop
container_stop-Only pid = search (only_rules, same_ℤ) depth 40

move_own : (pid : ℤ) (ifname : Bytes) (ns_fd : ℤ) → Only (own_call pid) (nl_move_to_ns ifname ns_fd)
move_own pid ifname ns_fd = Only-weaken (plain_own pid) (move_to_ns ifname ns_fd)

map_own : (pid d fd : ℤ) → Only (own_call pid) (user_namespace_prepare_mappings d fd)
map_own pid d fd = Only-weaken (plain_own pid) (user_namespace_prepare_mappings-Only d fd)

confine_own : (pid : ℤ) (hostname : Bytes) (d : ℤ) → Only (own_call pid) (cgroups_init hostname d)
confine_own pid hostname d = Only-weaken (plain_own pid) (cgroups_init-Only hostname d)

move_link-Only :
    (veth_tmp : Bytes) (l : Locals) → Only (own_call l.container_pid) (move_link veth_tmp l)
unfolding move_link
move_link-Only veth_tmp l = search (only_rules, container_stop-Only, move_own) depth 40

pub move_interface-Only : (l : Locals) → Only (own_call l.container_pid) (move_interface l)
unfolding move_interface
move_interface-Only l = search (only_rules, move_link-Only) depth 40

pub confine-Only : (l : Locals) → Only (own_call l.container_pid) (confine l)
unfolding confine
confine-Only l = search (only_rules, confine_own, map_own, container_stop-Only) depth 40

wait_exit-Only : (rounds : ℕ) (pid : ℤ) → Only (own_call pid) (wait_exit rounds pid)
unfolding wait_exit
wait_exit-Only zero pid = Only-pure _
wait_exit-Only (suc rounds) pid = Only-bind _ _ (Only-sys _ (same_ℤ pid)) λ w.
    Only-if _ _ _ (Only-if _ _ _ (wait_exit-Only rounds pid) (Only-pure _))
      (Only-if _ _ _ (Only-pure _) (wait_exit-Only rounds pid))

pub await_exit-Only :
    (rounds : ℕ) (l : Locals) → Only (own_call l.container_pid) (await_exit rounds l)
unfolding await_exit
await_exit-Only rounds l = search (only_rules, wait_exit-Only) depth 40
