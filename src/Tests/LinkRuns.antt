-- ===== src/Tests/LinkRuns.antt =====
-- The host's links as a reader of the requests of src/netlink.c sees them, and the theorem about them.
use docker.Base.{
  ◌≡◌, refl, ℤ, is_neg, Bool, true, false, ◌==◌, Bytes, [], ◌∷◌, get_u16, arith, if◌then◌else◌,
}
use docker.Sys.{Trace, Call, steps}
use docker.Netlink.Message.{message, ifaddrmsg, put_attr, veth_request}
use docker.Netlink.Message.MessageType
use docker.Netlink.Creation.{makes_link}
use docker.Netlink.Link.{
  delete_message, transact, nl_create_veth, nl_del_link, nl_set_up, up_message,
}
use docker.Netlink.Route.{nl_add_addr, address_request}
use docker.Netlink.Cidr.{parse_cidr, prefix_length}
use docker.Netlink.Socket.{nl_socket, nl_send_recv, scan, nlmsg_ok, wait_for_interface, wait_loop}
use docker.Barco.Calls.{is_creation}
use docker.Barco.Main.{setup, initial}
use docker.Barco.Setup.{
  fill_config, fill_network, choose_peer, make_sockets, make_stack, host_network, make_veth,
  configure_host, apply_nat,
}
use docker.Barco.Names.{generate_random_suffix, random_chars, alphabet, peer_name, tmp_name}
use docker.Barco.Nat.{enable_ip_forward, detect_host_interface, trim, setup_nat}
use docker.Barco.Run.{start_container}
use docker.Container.{container_init}
use docker.Barco.Links.{veth_message}
use docker.Barco.Links.Table.{LinkTable}
use docker.Tests.Kernels.{crowded}
use docker.Tests.MainRuns.{networked}

-- The last request decides: one for a link brings it, a deletion takes it away.
abbrev linked : Trace → Bool
linked [] = false
linked (Call.sendmsg sock b ∷ t) =
    let rest = linked t in
    if makes_link b then true else if get_u16 b 4 == MessageType.dellink then false else rest
linked (_ ∷ t) = linked t

linked_kept :
    (t : Trace) (c : Call) → is_creation c ≡ false → linked t ≡ false → linked (c ∷ t) ≡ false
linked_kept t c h e = ground arith

linked_deleted :
    (t : Trace) (sock : ℤ) (nlh : Bytes)
    → get_u16 nlh 4 ≡ MessageType.dellink
    → linked (Call.sendmsg sock nlh ∷ t) ≡ false
linked_deleted t sock nlh h = ground arith

acknowledged :
    (name1 name2 : Bytes) (t : Trace) (sock : ℤ)
    → is_neg (transact sock (veth_message name1 name2) 1 MessageType.newlink crowded t).0 ≡ false
unfolding nl_send_recv scan nlmsg_ok steps
acknowledged name1 name2 t sock = refl

never_refused :
    (name1 name2 : Bytes) (t : Trace) (sock : ℤ)
    → let (r, u) = transact sock (veth_message name1 name2) 1 MessageType.newlink crowded t in
      is_neg r ≡ true → linked u ≡ false
never_refused name1 name2 t sock bad = absurd (cc (acknowledged name1 name2 t sock))

always_seen : (u : Trace) → true ≡ false → linked u ≡ false
always_seen u h = absurd (cc)

abbrev reading : (peer : Bytes) → LinkTable crowded peer
reading peer = record {
  hosted = linked;
  indexed = λ t h. refl;
  kept = linked_kept;
  deleted = λ t sock nlh there type index sent.
      linked_deleted (Call.if_nametoindex peer ∷ t) sock nlh type;
  refused = λ tmp t sock away bad answered. never_refused tmp peer t sock bad;
  paired = λ tmp t sock away unseen.
      always_seen (transact sock (veth_message tmp peer) 1 MessageType.newlink crowded t).1 unseen;
}

-- The pair is there when no process can be created.
made_there : linked (setup networked (initial networked) crowded []).1 ≡ true
unfolding setup steps fill_config fill_network choose_peer generate_random_suffix random_chars
    alphabet peer_name tmp_name make_sockets make_stack host_network make_veth nl_create_veth
    nl_del_link nl_socket nl_send_recv scan nlmsg_ok wait_for_interface configure_host apply_nat
    nl_set_up nl_add_addr parse_cidr enable_ip_forward prefix_length address_request delete_message
    up_message message put_attr veth_request detect_host_interface trim setup_nat start_container
    container_init wait_loop ifaddrmsg
made_there = refl
