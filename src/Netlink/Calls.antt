-- ===== src/Netlink/Calls.antt =====
-- The calls that the functions of src/netlink.c make.
use docker.Base.{
  ℕ, zero, suc, ◌+◌, ℤ, Bytes, Option, none, some, Bool, true, false, not, ◌≡◌, refl, arith,
}
use docker.Sys.{M, Call}
use docker.Sys.Alphabet.{Only, only_rules, Only-if, Only-pure, Only-bind, Only-sys_ret, Only-weaken}
use docker.Netlink.Socket.{nl_socket, nl_send_recv, wait_loop, wait_for_interface}
use docker.Netlink.Cidr.{parse_cidr}
use docker.Netlink.Link.{
  nl_del_link, delete_message, nl_create_veth, nl_set_up, up_message, nl_move_to_ns, nl_rename_link,
}
use docker.Netlink.Message.{Request}
use docker.Netlink.Creation.{makes_link, other_message, change_message}
use docker.Netlink.Route.{nl_add_addr, nl_add_route, route_target, put_gateway, put_device, on_some}

-- Sockets, names of interfaces, text addresses, and sleep; no request makes a link.
abbrev pub network_call : Call → Bool
network_call Call.socket = true
network_call (Call.setsockopt _) = true
network_call (Call.sendmsg _ nlh) = not (makes_link nlh)
network_call (Call.recvmsg _ _) = true
network_call (Call.close _) = true
network_call (Call.if_nametoindex _) = true
network_call (Call.inet_pton _) = true
network_call (Call.usleep _) = true
network_call _ = false

-- The same with any request.
abbrev pub link_call : Call → Bool
link_call (Call.sendmsg _ _) = true
link_call c = network_call c

network_link : (c : Call) → network_call c ≡ true → link_call c ≡ true
network_link c h = ground arith

pub nl_socket-Only : Only network_call nl_socket
unfolding nl_socket
nl_socket-Only = search only_rules depth 40

pub nl_send_recv-Only :
    (sock : ℤ) (nlh : Bytes) (seq type : ℕ)
    → not (makes_link nlh) ≡ true
    → Only network_call (nl_send_recv sock nlh seq type)
unfolding nl_send_recv
nl_send_recv-Only sock nlh seq type h = search only_rules depth 40

any_request :
    (sock : ℤ) (nlh : Bytes) (seq type : ℕ) → Only link_call (nl_send_recv sock nlh seq type)
unfolding nl_send_recv
any_request sock nlh seq type = search only_rules depth 40

wait_loop-Only :
    {P : Call → Bool} (fuel : ℕ) (ifname : Bytes) (timeout_ms waited : ℕ)
    → P (Call.if_nametoindex ifname) ≡ true
    → P (Call.usleep 100000) ≡ true
    → Only P (wait_loop fuel ifname timeout_ms waited)
unfolding wait_loop
wait_loop-Only zero ifname timeout_ms waited h h' = Only-pure _
wait_loop-Only (suc fuel) ifname timeout_ms waited h h' =
    Only-if _ _ _
      (Only-bind _ _ (Only-sys_ret _ h) λ idx. Only-if _ _ _ (Only-pure _) (
        Only-bind _ _ (Only-sys_ret _ h')
          λ r. wait_loop-Only fuel ifname timeout_ms (waited + 100) h h'))
      (Only-pure _)

-- It polls and sleeps.
pub wait_for_interface-Polls :
    {P : Call → Bool} (ifname : Bytes) (timeout_ms : ℕ)
    → P (Call.if_nametoindex ifname) ≡ true
    → P (Call.usleep 100000) ≡ true
    → Only P (wait_for_interface ifname timeout_ms)
unfolding wait_for_interface
wait_for_interface-Polls ifname timeout_ms h h' = wait_loop-Only timeout_ms ifname timeout_ms 0 h h'

pub wait_for_interface-Only :
    (ifname : Bytes) (timeout_ms : ℕ) → Only network_call (wait_for_interface ifname timeout_ms)
wait_for_interface-Only ifname timeout_ms = wait_for_interface-Polls ifname timeout_ms refl refl

pub ruleset socket_rules =
    (nl_socket-Only, nl_send_recv-Only, wait_for_interface-Only, other_message, change_message)

pub nl_del_link-Only : (ifname : Bytes) → Only network_call (nl_del_link ifname)
unfolding nl_del_link delete_message
nl_del_link-Only ifname = search (only_rules, socket_rules) depth 40

as_link : {A : Type 0} {m : M A} → Only network_call m → Only link_call m
as_link o = Only-weaken network_link o

-- The one function that asks for a link.
pub nl_create_veth-Only : (name1 name2 : Bytes) → Only link_call (nl_create_veth name1 name2)
unfolding nl_create_veth
nl_create_veth-Only name1 name2 =
    search
      (only_rules, as_link, nl_socket-Only, any_request, wait_for_interface-Only, nl_del_link-Only)
      depth 40

pub nl_set_up-Only : (ifname : Bytes) → Only network_call (nl_set_up ifname)
unfolding nl_set_up up_message
nl_set_up-Only ifname = search (only_rules, socket_rules) depth 40

pub nl_move_to_ns-Only :
    (ifname : Bytes) (ns_fd : ℤ) → Only network_call (nl_move_to_ns ifname ns_fd)
unfolding nl_move_to_ns
nl_move_to_ns-Only ifname ns_fd = search (only_rules, socket_rules) depth 40

pub nl_rename_link-Only :
    (oldname newname : Bytes) → Only network_call (nl_rename_link oldname newname)
unfolding nl_rename_link
nl_rename_link-Only oldname newname = search (only_rules, socket_rules) depth 40

parse_cidr-Only : (s : Bytes) → Only network_call (parse_cidr s)
unfolding parse_cidr
parse_cidr-Only s = search only_rules depth 40

pub nl_add_addr-Only : (ifname ip_cidr : Bytes) → Only network_call (nl_add_addr ifname ip_cidr)
unfolding nl_add_addr
nl_add_addr-Only ifname ip_cidr = search (only_rules, socket_rules, parse_cidr-Only) depth 40

pub Only-on_some :
    {A B : Type 0} {P : Call → Bool} (o : Option A) (n : M B) (f : A → M B)
    → Only P n
    → ((a : A) → Only P (f a))
    → Only P (on_some o n f)
Only-on_some none n f p q = p
Only-on_some (some a) n f p q = q a

route_target-Only : (dest : Option Bytes) → Only network_call (route_target dest)
unfolding route_target
route_target-Only dest = search (only_rules, Only-on_some) depth 40

put_gateway-Only :
    (gateway : Option Bytes) (r : Request) → Only network_call (put_gateway gateway r)
unfolding put_gateway
put_gateway-Only none r = search only_rules depth 40
put_gateway-Only (some gateway) r = search only_rules depth 40

put_device-Only : (dev : Option Bytes) (r : Request) → Only network_call (put_device dev r)
unfolding put_device
put_device-Only none r = search only_rules depth 40
put_device-Only (some dev) r = search only_rules depth 40

pub nl_add_route-Only :
    (dest gateway dev : Option Bytes) → Only network_call (nl_add_route dest gateway dev)
unfolding nl_add_route
nl_add_route-Only dest gateway dev =
    search
      (only_rules, socket_rules, Only-on_some, route_target-Only, put_gateway-Only, put_device-Only)
      depth 40
