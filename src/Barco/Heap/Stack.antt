-- ===== src/Barco/Heap/Stack.antt =====
-- The variable of `main` in src/barco.c for the stack, across its parts.
use docker.Base.{ℕ, is_neg, refl, arith, true, Bytes, Option, none, some, Bool-cases, inl, inr}
use docker.Sys.{Kernel, Trace, steps}
use docker.Netlink.Link.{nl_del_link, nl_create_veth}
use docker.Barco.Defs.{Args, Locals}
use docker.Barco.Setup.{
  text_of, fill_config, fill_network, fill_network_of, base_config, make_sockets, host_network,
  host_network_of, make_veth, configure_host, apply_nat,
}
use docker.Barco.Run.{
  Waited, exited, wait_failed, running, start_container, move_interface, move_link, confine,
  await_exit, after_wait,
}
use docker.Barco.Heap.{SameStack}

pub make_sockets-SameStack :
    (l : Locals) (k : Kernel) (t : Trace) → SameStack l (make_sockets l k t).0
unfolding SameStack make_sockets steps
make_sockets-SameStack l k t = ground arith

configure_host-SameStack :
    (ip : Bytes) (l : Locals) (k : Kernel) (t : Trace) → SameStack l (configure_host ip l k t).0
unfolding SameStack configure_host apply_nat steps
configure_host-SameStack ip l k t = ground arith

make_veth-SameStack :
    (ip : Bytes) (l : Locals) (k : Kernel) (t : Trace) → SameStack l (make_veth ip l k t).0
unfolding SameStack make_veth steps
make_veth-SameStack ip l k t =
    let name = text_of l.config.veth_peer in
    let tmp = text_of l.config.veth_tmp in
    let u = (nl_del_link name k (nl_del_link tmp k t).1).1 in
    elim (Bool-cases (is_neg (nl_create_veth tmp name k u).0)) [
      | inl bad ↦ rw bad refl
      | inr good ↦ rw good (
          configure_host-SameStack ip (record l { veth_created = true }) k
            (nl_create_veth tmp name k u).1)
    ]

pub host_network-SameStack :
    (l : Locals) (k : Kernel) (t : Trace) → SameStack l (host_network l k t).0
unfolding host_network
host_network-SameStack l k t = go l.config.veth_name l.config.container_ip
  where
    go : (name ip : Option Bytes) → SameStack l (host_network_of name ip l k t).0
    go none ip = unfold SameStack steps in refl
    go (some name) none = unfold SameStack steps in refl
    go (some name) (some ip) = make_veth-SameStack ip l k t

pub start_container-SameStack :
    (l : Locals) (k : Kernel) (t : Trace) → SameStack l (start_container l k t).0
unfolding SameStack start_container steps
start_container-SameStack l k t = ground arith

pub move_interface-SameStack :
    (l : Locals) (k : Kernel) (t : Trace) → SameStack l (move_interface l k t).0
unfolding SameStack move_interface move_link steps
move_interface-SameStack l k t = ground arith

pub confine-SameStack : (l : Locals) (k : Kernel) (t : Trace) → SameStack l (confine l k t).0
unfolding SameStack confine steps
confine-SameStack l k t = ground arith

after_wait-SameStack : (l : Locals) (w : Waited) → SameStack l (after_wait l w)
unfolding SameStack
after_wait-SameStack l (exited wstatus) = refl
after_wait-SameStack l wait_failed = refl
after_wait-SameStack l running = tt

pub await_exit-SameStack :
    (rounds : ℕ) (l : Locals) (k : Kernel) (t : Trace) → SameStack l (await_exit rounds l k t).0
unfolding await_exit steps
await_exit-SameStack rounds l k t = after_wait-SameStack l _

fill_network-SameStack :
    (args : Args) (name ip : Bytes) (l : Locals) (k : Kernel) (t : Trace)
    → SameStack l (fill_network args name ip l k t).0
unfolding SameStack fill_network steps
fill_network-SameStack args name ip l k t = ground arith

pub fill_config-SameStack :
    (args : Args) (l : Locals) (k : Kernel) (t : Trace) → SameStack l (fill_config args l k t).0
unfolding fill_config SameStack
fill_config-SameStack args l k t =
    go args.veth_name args.container_ip (record l { config = base_config args })
  where
    go : (name ip : Option Bytes) (l : Locals) → SameStack l (fill_network_of name ip args l k t).0
    go none ip l = unfold steps in refl
    go (some name) none l = unfold steps in refl
    go (some name) (some ip) l = fill_network-SameStack args name ip l k t
