-- ===== src/Barco/TakeBack.antt =====
-- The steps of `cleanup` for what the parts of `main` before it have set up.
use docker.Base.{◌≡◌, refl, pos, true}
use docker.Sys.{Kernel, Trace, pure, ◌>>◌}
use docker.Netlink.Link.{nl_del_link}
use docker.Barco.Nat.{cleanup_nat, cleanup_subnet}
use docker.Barco.Defs.{Args, Locals, cleanup}
use docker.Barco.Setup.{text_of}
use docker.Barco.Main.{setup, initial, remove_nat, remove_veth}
use docker.Barco.Tracking.{IsTracked, setup-Ends}

remove_veth_tracked :
    (l : Locals)
    → IsTracked l
    → l.veth_created ≡ true
    → remove_veth l ≡ (nl_del_link (text_of l.config.veth_peer) >> pure tt)
unfolding remove_veth
remove_veth_tracked l h made = rw (made, (rw made at h.veth_known)) refl

remove_nat_tracked :
    (l : Locals)
    → IsTracked l
    → l.nat_applied ≡ true
    → remove_nat l ≡ cleanup_nat (cleanup_subnet (text_of l.config.container_ip)) l.host_if
unfolding remove_nat
remove_nat_tracked l h applied = rw (applied, (rw applied at h.nat_known)) refl

-- If a part of `main` fails and the pair of interfaces was created, the step of `cleanup` for it is
-- the deletion of the host's end.
pub failed_setup_deletes_veth :
    (args : Args) (k : Kernel) (t : Trace) (l : Locals)
    → (setup args (initial args) k t).0 ≡ cleanup l
    → l.veth_created ≡ true
    → remove_veth l ≡ (nl_del_link (text_of l.config.veth_peer) >> pure tt)
failed_setup_deletes_veth args k t l e made =
    let ends : IsTracked l × (l.exitcode ≡ pos 1) = rw e at (setup-Ends args k t) in
    remove_veth_tracked l ends.0 made

-- If a part of `main` fails and the address translation was applied, the step of `cleanup` for it
-- removes the rules of the container's subnet and the host's interface.
pub failed_setup_removes_nat :
    (args : Args) (k : Kernel) (t : Trace) (l : Locals)
    → (setup args (initial args) k t).0 ≡ cleanup l
    → l.nat_applied ≡ true
    → remove_nat l ≡ cleanup_nat (cleanup_subnet (text_of l.config.container_ip)) l.host_if
failed_setup_removes_nat args k t l e applied =
    let ends : IsTracked l × (l.exitcode ≡ pos 1) = rw e at (setup-Ends args k t) in
    remove_nat_tracked l ends.0 applied
