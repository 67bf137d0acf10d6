-- ===== src/Netlink/Route.antt =====
-- Addresses and routes: `nl_add_addr` and `nl_add_route` of src/netlink.c.
use docker.Base.{
  ℕ, ◌+◌, ℤ, pos, minus_one, is_neg, nonzero, wrap, ◌^◌, int_bytes, not, Bytes, Option, none, some,
  take, replicate, codes, eq_bytes, before, behind, atoi, ◌==ℤ◌, if◌then◌else◌,
}
use docker.Sys.{M, Call, pure, sys, sys_ret, ◌>>=◌}
use docker.Netlink.Message.{Request, in_addr, start, put_attr, message, ifaddrmsg, rtmsg}
use docker.Netlink.Message.MessageType
use docker.Netlink.Message.Flags
use docker.Netlink.Message.Attribute
use docker.Netlink.Socket.{nl_socket, wait_for_interface}
use docker.Netlink.Cidr.{parse_cidr}
use docker.Netlink.Link.{transact, close_and_fail}

-- The two attributes hold the same address.
unfoldable pub address_request : ℤ → Bytes → ℕ → Request
address_request idx ip plen =
    put_attr Attribute.ifa_address (in_addr ip)
      (put_attr Attribute.ifa_local (in_addr ip) (start (ifaddrmsg plen (wrap (2 ^ 32) idx))))

unfoldable pub nl_add_addr : Bytes → Bytes → M ℤ
nl_add_addr ifname ip_cidr = do
  sock ← nl_socket
  if is_neg sock then pure minus_one else do
    idx ← wait_for_interface ifname 5000
    if not (nonzero idx) then close_and_fail sock else do
      p ← parse_cidr ip_cidr
      if is_neg p.status
          then close_and_fail sock
          else transact sock
              (message MessageType.newaddr
                (Flags.request + Flags.create + Flags.replace + Flags.ack) 3
                (address_request idx p.ip p.plen))
              3 MessageType.newaddr

-- The destination: its address for `inet_pton` and its prefix length, `none` for the default route.
unfoldable pub destination : Option Bytes → Option (Bytes × ℕ)
destination none = none
destination (some dest) =
    let buf = take 63 dest in
    if eq_bytes dest (codes "default")
    then none
    else some
        (before b'/' buf, elim (behind b'/' buf) [ none ↦ 32 | some rest ↦ wrap 256 (atoi rest) ])

-- The failure or the rest, by whether there is a value.
abbrev pub on_some : {A B : Type 0} → Option A → M B → (A → M B) → M B
on_some none n f = n
on_some (some a) n f = f a

-- An address of the text, or `none` where `inet_pton` refuses it.
abbrev pub address_of : Bytes → M (Option Bytes)
address_of s = do
  r ← sys (Call.inet_pton s)
  pure (if r.ret ==ℤ pos 1 then some (in_addr r.out) else none)

-- The address and the prefix length of the route; 0.0.0.0/0 for the default route.
unfoldable pub route_target : Option Bytes → M (Option (Bytes × ℕ))
unfolding destination
route_target dest =
    on_some (destination dest) (pure (some (replicate 4 0, 0)))
      λ d. do a ← address_of d.0; pure (elim a [ none ↦ none | some ip ↦ some (ip, d.1) ])

-- RTA_GATEWAY, if a gateway is given.
unfoldable pub put_gateway : Option Bytes → Request → M (Option Request)
put_gateway none r = pure (some r)
put_gateway (some gateway) r = do
  a ← address_of gateway
  pure (elim a [ none ↦ none | some ip ↦ some (put_attr Attribute.rta_gateway ip r) ])

-- RTA_OIF, if a device is given.
unfoldable pub put_device : Option Bytes → Request → M (Option Request)
put_device none r = pure (some r)
put_device (some dev) r = do
  idx ← sys_ret (Call.if_nametoindex dev)
  pure (if nonzero idx then some (put_attr Attribute.rta_oif (int_bytes idx) r) else none)

-- RT_SCOPE_UNIVERSE with a gateway, RT_SCOPE_LINK without.
abbrev pub scope_of : Option Bytes → ℕ
scope_of none = 253
scope_of (some _) = 0

unfoldable pub nl_add_route : Option Bytes → Option Bytes → Option Bytes → M ℤ
nl_add_route dest gateway dev = do
  sock ← nl_socket
  if is_neg sock then pure minus_one else do
    target ← route_target dest
    on_some target (close_and_fail sock) λ a. do
      with_gateway ←
          put_gateway gateway
            (put_attr Attribute.rta_dst a.0 (start (rtmsg a.1 (scope_of gateway))))
      on_some with_gateway (close_and_fail sock) λ r. do
        with_device ← put_device dev r
        on_some with_device (close_and_fail sock) λ req.
            transact sock
              (message MessageType.newroute (Flags.request + Flags.create + Flags.excl + Flags.ack)
                5 req)
              5 MessageType.newroute
