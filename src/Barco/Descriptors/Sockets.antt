-- ===== src/Barco/Descriptors/Sockets.antt =====
-- The variables of `main` in src/barco.c for the two sockets, across its parts.
use docker.Base.{
  true, Bool-cases, inl, inr, Bytes, Option, none, ℕ, is_neg, ◌≡◌, refl, ◌∷◌, [], some, arith,
}
use docker.Sys.{Kernel, Trace, steps}
use docker.Sys.Descriptors.{Handle, times}
use docker.Barco.Defs.{Args, Locals, Flow, next, cleanup, waiting}
use docker.Netlink.Link.{nl_del_link, nl_create_veth}
use docker.Barco.Setup.{
  text_of, fill_config, fill_network, fill_network_of, base_config, make_stack, host_network,
  host_network_of, make_veth, configure_host, apply_nat,
}
use docker.Barco.Run.{
  Waited, exited, wait_failed, running, start_container, move_interface, move_link, confine,
  await_exit, after_wait,
}

-- How often the two sockets in the variables of `main` bear the number `fd`.
abbrev pub socks : Locals → Handle → ℕ
socks l fd = times (l.socket0 ∷ l.socket1 ∷ []) fd

-- A part that leaves the sockets in their variables.
unfoldable pub SameSockets : Locals → Flow → Type 0
SameSockets l (next l') = (l'.socket0 ≡ l.socket0) × (l'.socket1 ≡ l.socket1)
SameSockets l (cleanup l') = (l'.socket0 ≡ l.socket0) × (l'.socket1 ≡ l.socket1)
SameSockets l waiting = Unit {0}

pub same_socks :
    (l l' : Locals) (fd : Handle)
    → (l'.socket0 ≡ l.socket0) × (l'.socket1 ≡ l.socket1)
    → socks l' fd ≡ socks l fd
same_socks l l' fd (p, q) = rw (p, q)

fill_network-SameSockets :
    (args : Args) (name ip : Bytes) (l : Locals) (k : Kernel) (t : Trace)
    → SameSockets l (fill_network args name ip l k t).0
unfolding SameSockets fill_network steps
fill_network-SameSockets args name ip l k t = ground arith

pub fill_config-SameSockets :
    (args : Args) (l : Locals) (k : Kernel) (t : Trace) → SameSockets l (fill_config args l k t).0
unfolding fill_config SameSockets
fill_config-SameSockets args l k t =
    go args.veth_name args.container_ip (record l { config = base_config args })
  where
    go :
        (name ip : Option Bytes) (l : Locals) → SameSockets l (fill_network_of name ip args l k t).0
    go none ip l = unfold steps in (refl, refl)
    go (some name) none l = unfold steps in (refl, refl)
    go (some name) (some ip) l = fill_network-SameSockets args name ip l k t

pub make_stack-SameSockets :
    (l : Locals) (k : Kernel) (t : Trace) → SameSockets l (make_stack l k t).0
unfolding SameSockets make_stack steps
make_stack-SameSockets l k t = ground arith

configure_host-SameSockets :
    (ip : Bytes) (l : Locals) (k : Kernel) (t : Trace) → SameSockets l (configure_host ip l k t).0
unfolding SameSockets configure_host apply_nat steps
configure_host-SameSockets ip l k t = ground arith

make_veth-SameSockets :
    (ip : Bytes) (l : Locals) (k : Kernel) (t : Trace) → SameSockets l (make_veth ip l k t).0
unfolding SameSockets make_veth steps
make_veth-SameSockets ip l k t =
    let name = text_of l.config.veth_peer in
    let tmp = text_of l.config.veth_tmp in
    let u = (nl_del_link name k (nl_del_link tmp k t).1).1 in
    elim (Bool-cases (is_neg (nl_create_veth tmp name k u).0)) [
      | inl bad ↦ rw bad (refl, refl)
      | inr good ↦ rw good (
          configure_host-SameSockets ip (record l { veth_created = true }) k
            (nl_create_veth tmp name k u).1)
    ]

pub host_network-SameSockets :
    (l : Locals) (k : Kernel) (t : Trace) → SameSockets l (host_network l k t).0
unfolding host_network
host_network-SameSockets l k t = go l.config.veth_name l.config.container_ip
  where
    go : (name ip : Option Bytes) → SameSockets l (host_network_of name ip l k t).0
    go none ip = unfold SameSockets steps in (refl, refl)
    go (some name) none = unfold SameSockets steps in (refl, refl)
    go (some name) (some ip) = make_veth-SameSockets ip l k t

pub move_interface-SameSockets :
    (l : Locals) (k : Kernel) (t : Trace) → SameSockets l (move_interface l k t).0
unfolding SameSockets move_interface move_link steps
move_interface-SameSockets l k t = ground arith

pub confine-SameSockets : (l : Locals) (k : Kernel) (t : Trace) → SameSockets l (confine l k t).0
unfolding SameSockets confine steps
confine-SameSockets l k t = ground arith

after_wait-SameSockets : (l : Locals) (w : Waited) → SameSockets l (after_wait l w)
unfolding SameSockets
after_wait-SameSockets l (exited wstatus) = (refl, refl)
after_wait-SameSockets l wait_failed = (refl, refl)
after_wait-SameSockets l running = tt

pub await_exit-SameSockets :
    (rounds : ℕ) (l : Locals) (k : Kernel) (t : Trace) → SameSockets l (await_exit rounds l k t).0
unfolding await_exit steps
await_exit-SameSockets rounds l k t = after_wait-SameSockets l _

pub start_container-SameSockets :
    (l : Locals) (k : Kernel) (t : Trace) → SameSockets l (start_container l k t).0
unfolding SameSockets start_container steps
start_container-SameSockets l k t = ground arith
