-- ===== src/Netlink/Descriptors.antt =====
-- Which descriptors the functions of src/netlink.c open and close.
use docker.Base.{
  ℕ, zero, suc, ◌+◌, ℤ, is_neg, Bytes, List, Option, none, some, [], ◌∷◌, length, ap, arith, true,
  false, Bool-cases, inl, inr, ◌≡◌, refl, minus_one, if◌then◌else◌,
}
use docker.Sys.{Kernel, Trace, M, Call, pure, ◌>>=◌, steps}
use docker.Sys.Descriptors.{
  Settles, Settles-pure, Settles-if, Settles-bind, Settles-bind_owed, Settles-sys, Settles-sys_ret,
  Settles-close, Settles-branch, is_neg-Detects, indicator,
}
use docker.Netlink.Socket.{nl_socket, nl_send_recv, wait_loop, wait_for_interface}
use docker.Netlink.Message.{Request}
use docker.Netlink.Cidr.{parse_cidr}
use docker.Netlink.Link.{
  transact, close_and_return, nl_del_link, nl_create_veth, nl_set_up, nl_move_to_ns, nl_rename_link,
}
use docker.Netlink.Route.{
  nl_add_addr, nl_add_route, route_target, put_gateway, put_device, destination, address_of,
  on_some,
}

module _ (k : Kernel) (t : Trace) where
  abbrev socket_ret : ℤ
  socket_ret = (k (length t) Call.socket).ret

  nl_socket_bad : is_neg socket_ret ≡ true → nl_socket k t ≡ (minus_one, Call.socket ∷ t)
  unfolding nl_socket steps
  nl_socket_bad bad = rw bad

  nl_socket_good :
      is_neg socket_ret ≡ false
      → nl_socket k t ≡ (socket_ret, Call.setsockopt socket_ret ∷ Call.socket ∷ t)
  unfolding nl_socket steps
  nl_socket_good good = rw good

pub Settles-nl_socket :
    {A : Type 0} {f : ℤ → M A} → ((d : ℤ) → Settles (d ∷ []) (f d)) → Settles [] (nl_socket >>= f)
unfolding steps
Settles-nl_socket q = record {
  settled = λ k t fd. elim (Bool-cases (is_neg (socket_ret k t))) [
    | inl bad ↦
        rw (nl_socket_bad k t bad, ◌>>=◌)
          (omega (
            arith,
            ap indicator (is_neg-Detects (socket_ret k t) fd bad),
            (q minus_one).settled k (Call.socket ∷ t) fd,
          ))
    | inr good ↦
        rw (nl_socket_good k t good, ◌>>=◌)
          (omega (
            arith,
            (q (socket_ret k t)).settled k (Call.setsockopt (socket_ret k t) ∷ Call.socket ∷ t) fd,
          ))
  ];
}

pub nl_send_recv-Settles :
    (sock : ℤ) (nlh : Bytes) (seq type : ℕ) → Settles [] (nl_send_recv sock nlh seq type)
unfolding nl_send_recv
nl_send_recv-Settles sock nlh seq type = Settles-bind (Settles-sys_ret _ (refl, λ fd. refl)) λ sent.
    Settles-if _ (Settles-pure _) (
      Settles-bind (Settles-sys _ (refl, λ fd. refl))
        λ r. Settles-if _ (Settles-pure _) (Settles-pure _))

wait_loop-Settles :
    (fuel : ℕ) (ifname : Bytes) (timeout_ms waited : ℕ)
    → Settles [] (wait_loop fuel ifname timeout_ms waited)
unfolding wait_loop
wait_loop-Settles zero ifname timeout_ms waited = Settles-pure _
wait_loop-Settles (suc fuel) ifname timeout_ms waited =
    Settles-if _
      (Settles-bind (Settles-sys_ret _ (refl, λ fd. refl)) λ idx. Settles-if _ (Settles-pure _) (
        Settles-bind (Settles-sys_ret _ (refl, λ fd. refl))
          λ r. wait_loop-Settles fuel ifname timeout_ms (waited + 100)))
      (Settles-pure _)

pub wait_for_interface-Settles :
    (ifname : Bytes) (timeout_ms : ℕ) → Settles [] (wait_for_interface ifname timeout_ms)
unfolding wait_for_interface
wait_for_interface-Settles ifname timeout_ms = wait_loop-Settles timeout_ms ifname timeout_ms 0

pub close_and_return-Settles : (sock ret : ℤ) → Settles (sock ∷ []) (close_and_return sock ret)
close_and_return-Settles sock ret = Settles-close sock λ r. Settles-pure ret

pub transact-Settles :
    (sock : ℤ) (nlh : Bytes) (seq type : ℕ) → Settles (sock ∷ []) (transact sock nlh seq type)
transact-Settles sock nlh seq type =
    Settles-bind (nl_send_recv-Settles sock nlh seq type) λ ret. close_and_return-Settles sock ret

Settles-option :
    {A B : Type 0} {owed : List ℤ} {n : M B} {f : A → M B} (o : Option A)
    → Settles owed n
    → ((a : A) → Settles owed (f a))
    → Settles owed (on_some o n f)
Settles-option none p q = p
Settles-option (some a) p q = q a

-- A function that opens its socket, and ends with it closed.
with_socket :
    {f : ℤ → M ℤ}
    → ((sock : ℤ) → Settles (sock ∷ []) (f sock))
    → Settles [] (nl_socket >>= λ sock. if is_neg sock then pure minus_one else f sock)
with_socket q =
    Settles-nl_socket λ sock. Settles-branch is_neg sock is_neg-Detects (Settles-pure _) (q sock)

pub nl_del_link-Settles : (ifname : Bytes) → Settles [] (nl_del_link ifname)
unfolding nl_del_link
nl_del_link-Settles ifname = with_socket λ sock.
    Settles-bind (Settles-sys_ret _ (refl, λ fd. refl))
      λ idx. Settles-if _ (close_and_return-Settles sock _) (transact-Settles sock _ _ _)

pub nl_set_up-Settles : (ifname : Bytes) → Settles [] (nl_set_up ifname)
unfolding nl_set_up
nl_set_up-Settles ifname = with_socket λ sock.
    Settles-bind (wait_for_interface-Settles _ _)
      λ idx. Settles-if _ (close_and_return-Settles sock _) (transact-Settles sock _ _ _)

pub nl_move_to_ns-Settles : (ifname : Bytes) (ns_fd : ℤ) → Settles [] (nl_move_to_ns ifname ns_fd)
unfolding nl_move_to_ns
nl_move_to_ns-Settles ifname ns_fd = with_socket λ sock.
    Settles-bind (Settles-sys_ret _ (refl, λ fd. refl))
      λ idx. Settles-if _ (close_and_return-Settles sock _) (transact-Settles sock _ _ _)

pub nl_rename_link-Settles : (oldname newname : Bytes) → Settles [] (nl_rename_link oldname newname)
unfolding nl_rename_link
nl_rename_link-Settles oldname newname = with_socket λ sock.
    Settles-bind (Settles-sys_ret _ (refl, λ fd. refl))
      λ idx. Settles-if _ (close_and_return-Settles sock _) (transact-Settles sock _ _ _)

parse_cidr-Settles : (s : Bytes) → Settles [] (parse_cidr s)
unfolding parse_cidr
parse_cidr-Settles s =
    Settles-if _ (Settles-pure _)
      (Settles-bind (Settles-sys _ (refl, λ fd. refl)) λ r. Settles-pure _)

-- On every path, with an address that is refused too, `nl_add_addr` closes each descriptor as often as
-- it opens it.
pub nl_add_addr-Settles : (ifname ip_cidr : Bytes) → Settles [] (nl_add_addr ifname ip_cidr)
unfolding nl_add_addr
nl_add_addr-Settles ifname ip_cidr = with_socket λ sock.
    Settles-bind (wait_for_interface-Settles _ _) λ idx.
      Settles-if _ (close_and_return-Settles sock _) (
        Settles-bind (parse_cidr-Settles ip_cidr)
          λ p. Settles-if _ (close_and_return-Settles sock _) (transact-Settles sock _ _ _))

-- On every path `nl_create_veth` closes the socket that it opens, and so does the deletion that it makes
-- when an interface does not appear: each descriptor is closed as often as it is opened.
pub nl_create_veth-Settles : (name1 name2 : Bytes) → Settles [] (nl_create_veth name1 name2)
unfolding nl_create_veth
nl_create_veth-Settles name1 name2 = with_socket λ sock.
    Settles-bind_owed (transact-Settles sock _ _ _) λ ret. Settles-if _ (Settles-pure _) (
      Settles-bind (wait_for_interface-Settles _ _) λ idx1.
        Settles-bind (wait_for_interface-Settles _ _) λ idx2.
          Settles-if _ (Settles-bind (nl_del_link-Settles name1) λ r. Settles-pure _)
            (Settles-pure _))

address_of-Settles : (s : Bytes) → Settles [] (address_of s)
address_of-Settles s = Settles-bind (Settles-sys _ (refl, λ fd. refl)) λ r. Settles-pure _

route_target-Settles : (dest : Option Bytes) → Settles [] (route_target dest)
unfolding route_target
route_target-Settles dest =
    Settles-option (destination dest) (Settles-pure _)
      λ d. Settles-bind (address_of-Settles d.0) λ a. Settles-pure _

put_gateway-Settles : (gateway : Option Bytes) (r : Request) → Settles [] (put_gateway gateway r)
unfolding put_gateway
put_gateway-Settles none r = Settles-pure _
put_gateway-Settles (some gateway) r = Settles-bind (address_of-Settles gateway) λ a. Settles-pure _

put_device-Settles : (dev : Option Bytes) (r : Request) → Settles [] (put_device dev r)
unfolding put_device
put_device-Settles none r = Settles-pure _
put_device-Settles (some dev) r =
    Settles-bind (Settles-sys_ret _ (refl, λ fd. refl)) λ idx. Settles-pure _

-- On every path, a refused destination, gateway or device included, `nl_add_route` closes each
-- descriptor as often as it opens it.
pub nl_add_route-Settles :
    (dest gateway dev : Option Bytes) → Settles [] (nl_add_route dest gateway dev)
unfolding nl_add_route
nl_add_route-Settles dest gateway dev = with_socket λ sock.
    Settles-bind (route_target-Settles dest) λ target.
      Settles-option target (close_and_return-Settles sock _) λ a.
        Settles-bind (put_gateway-Settles gateway _) λ with_gateway.
          Settles-option with_gateway (close_and_return-Settles sock _) λ r.
            Settles-bind (put_device-Settles dev r) λ with_device.
              Settles-option with_device (close_and_return-Settles sock _)
                λ req. transact-Settles sock _ _ _
