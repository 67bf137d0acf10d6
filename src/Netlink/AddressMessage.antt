-- ===== src/Netlink/AddressMessage.antt =====
-- What a reader of the requests of `nl_add_addr` and `nl_add_route` in src/netlink.c finds in them.
use docker.Base.{
  codes, ◌==ℤ◌, ltb, true, ℕ, ℤ, suc, ◌≤◌, ◌%◌, ◌++◌, has, decimal, false, is_neg, ◌+◌, ◌<◌, ◌≡◌,
  refl, pos, Bytes, [], ◌∷◌, length, take, drop, get_u16, get_u32, u8, u16, u32, get_or, some,
  int_bytes, arith,
}
use docker.Netlink.Message.MessageType
use docker.Netlink.Message.Flags
use docker.Netlink.Message.Attribute
use docker.Netlink.Message.{start, put_attr, message, ifaddrmsg, rtmsg, rtattr}
use docker.Netlink.Route.{
  address_request, nl_add_addr, nl_add_route, route_target, destination, put_gateway, put_device,
}
use docker.Sys.{Kernel, Trace, Call, made, steps}
use docker.Netlink.Socket.{nl_socket, nl_send_recv, wait_for_interface, wait_loop}
use docker.Netlink.Link.{transact}
use docker.Netlink.CidrLaws.{parse_cidr_lem}

-- The message of `nl_add_addr`.
abbrev pub address_message : ℕ → Bytes → ℕ → Bytes
address_message idx ip plen =
    message MessageType.newaddr (Flags.request + Flags.create + Flags.replace + Flags.ack) 3
      (address_request (pos idx) ip plen)

-- A request for an address on the interface `idx`: its length, type, address family, prefix length
-- and index, and the two attributes.
pub record IsAddressRequest (m : Bytes) (idx plen : ℕ) (ip : Bytes) : Type 0 where
  pub sized : (length m ≡ 40) × (get_u32 m 0 ≡ 40)
  pub typed : (get_u16 m 4 ≡ MessageType.newaddr) × (get_or m 16 0 ≡ 2)
  pub prefix : get_or m 17 0 ≡ plen
  pub index : get_u32 m 20 ≡ idx
  pub local : (get_u16 m 24 ≡ 8) × (get_u16 m 26 ≡ Attribute.ifa_local) × (take 4 (drop 28 m) ≡ ip)
  pub address :
      (get_u16 m 32 ≡ 8) × (get_u16 m 34 ≡ Attribute.ifa_address) × (take 4 (drop 36 m) ≡ ip)

address_message-IsAddressRequest :
    (idx plen a b c d : ℕ)
    → idx < 2147483648
    → plen < 256
    → let ip = a ∷ b ∷ c ∷ d ∷ [] in IsAddressRequest (address_message idx ip plen) idx plen ip
unfolding message address_request put_attr rtattr ifaddrmsg u8 u16 u32
address_message-IsAddressRequest idx plen a b c d hi hp = record {
  sized = (refl, refl);
  typed = (refl, refl);
  prefix = omega arith;
  index = omega arith;
  local = (refl, refl, refl);
  address = (refl, refl, refl);
}

-- The message of `nl_add_route` for a default route by a gateway and a device.
abbrev pub route_message : ℕ → Bytes → Bytes
route_message idx gateway =
    message MessageType.newroute (Flags.request + Flags.create + Flags.excl + Flags.ack) 5 (
      put_attr Attribute.rta_oif (int_bytes (pos idx)) (
        put_attr Attribute.rta_gateway gateway
          (put_attr Attribute.rta_dst (0 ∷ 0 ∷ 0 ∷ 0 ∷ []) (start (rtmsg 0 0)))))

-- A request for a default route: its length and type, struct rtmsg, and the three attributes.
pub record IsRouteRequest (m : Bytes) (idx : ℕ) (gateway : Bytes) : Type 0 where
  pub sized : (length m ≡ 52) × (get_u32 m 0 ≡ 52)
  pub typed : get_u16 m 4 ≡ MessageType.newroute
  pub header : take 12 (drop 16 m) ≡ 2 ∷ 0 ∷ 0 ∷ 0 ∷ 254 ∷ 4 ∷ 0 ∷ 1 ∷ 0 ∷ 0 ∷ 0 ∷ 0 ∷ []
  pub target : (get_u16 m 30 ≡ Attribute.rta_dst) × (take 4 (drop 32 m) ≡ 0 ∷ 0 ∷ 0 ∷ 0 ∷ [])
  pub by : (get_u16 m 38 ≡ Attribute.rta_gateway) × (take 4 (drop 40 m) ≡ gateway)
  pub device : (get_u16 m 46 ≡ Attribute.rta_oif) × (get_u32 m 48 ≡ idx)

route_message-IsRouteRequest :
    (idx a b c d : ℕ)
    → idx < 2147483648
    → let gateway = a ∷ b ∷ c ∷ d ∷ [] in IsRouteRequest (route_message idx gateway) idx gateway
unfolding message put_attr rtattr rtmsg int_bytes u8 u16 u32
route_message-IsRouteRequest idx a b c d hi = record {
  sized = (refl, refl);
  typed = refl;
  header = refl;
  target = (refl, refl);
  by = (refl, refl);
  device = (refl, omega arith);
}

opened :
    (fd : ℕ) (k : Kernel) (t : Trace)
    → (k (length t) Call.socket).ret ≡ pos fd
    → nl_socket k t ≡ (pos fd, Call.setsockopt (pos fd) ∷ Call.socket ∷ t)
unfolding nl_socket steps
opened fd k t h = rw h

suc_nonzero : (idx : ℕ) → (pos (suc idx) ==ℤ pos 0) ≡ false
suc_nonzero idx = ground arith

seen_loop :
    (ifname : Bytes) (idx fuel timeout_ms : ℕ) (k : Kernel) (t : Trace)
    → (k (length t) (Call.if_nametoindex ifname)).ret ≡ pos (suc idx)
    → ltb 0 timeout_ms ≡ true
    → wait_loop (suc fuel) ifname timeout_ms 0 k t ≡ (pos (suc idx), Call.if_nametoindex ifname ∷ t)
unfolding wait_loop steps
seen_loop ifname idx fuel timeout_ms k t h more = rw (more, h) (rw (suc_nonzero idx))

seen :
    (ifname : Bytes) (idx : ℕ) (k : Kernel) (t : Trace)
    → (k (length t) (Call.if_nametoindex ifname)).ret ≡ pos (suc idx)
    → wait_for_interface ifname 5000 k t ≡ (pos (suc idx), Call.if_nametoindex ifname ∷ t)
unfolding wait_for_interface
seen ifname idx k t h = seen_loop ifname idx 4999 5000 k t h refl

answered :
    (sock : ℤ) (m : Bytes) (seq type : ℕ) (k : Kernel) (t : Trace)
    → is_neg (k (length t) (Call.sendmsg sock m)).ret ≡ false
    → (transact sock m seq type k t).1
      ≡ Call.close sock ∷ Call.recvmsg sock 4096 ∷ Call.sendmsg sock m ∷ t
unfolding nl_send_recv steps
answered sock m seq type k t h = ground arith

-- Where the socket opens, a poll sees the interface, `inet_pton` knows the address and the request is
-- taken, these are the calls of `nl_add_addr` for an address with a decimal prefix length below 256,
-- and the one request it sends reads as what was asked for.
pub nl_add_addr_sends :
    (fd idx n a b c d : ℕ) (ifname address : Bytes) (k : Kernel) (t : Trace)
    → has b'/' address ≡ false
    → length (address ++ (b'/' ∷ decimal n)) ≤ 63
    → (k (length t) Call.socket).ret ≡ pos fd
    → (k (suc (suc (length t))) (Call.if_nametoindex ifname)).ret ≡ pos (suc idx)
    → (k (suc (suc (suc (length t)))) (Call.inet_pton address)).ret ≡ pos 1
    → (k (suc (suc (suc (length t)))) (Call.inet_pton address)).out ≡ a ∷ b ∷ c ∷ d ∷ []
    → suc idx < 2147483648
    → n < 256
    → let m = address_message (suc idx) (a ∷ b ∷ c ∷ d ∷ []) n in
      is_neg (k (suc (suc (suc (suc (length t))))) (Call.sendmsg (pos fd) m)).ret ≡ false
      → ((nl_add_addr ifname (address ++ (b'/' ∷ decimal n)) k t).1
          ≡ made
              (Call.socket
                ∷ Call.setsockopt (pos fd)
                ∷ Call.if_nametoindex ifname
                ∷ Call.inet_pton address
                ∷ Call.sendmsg (pos fd) m
                ∷ Call.recvmsg (pos fd) 4096
                ∷ Call.close (pos fd)
                ∷ [])
              t)
        × IsAddressRequest m (suc idx) n (a ∷ b ∷ c ∷ d ∷ [])
unfolding nl_add_addr steps
nl_add_addr_sends fd idx n a b c d ifname address k t plain short opens there known ip hi hn taken =
    (
      rw (opened fd k t opens) (
          rw (seen ifname idx k (Call.setsockopt (pos fd) ∷ Call.socket ∷ t) there) (
            rw (suc_nonzero idx) (
              rw
                (parse_cidr_lem address n k
                  (Call.if_nametoindex ifname ∷ Call.setsockopt (pos fd) ∷ Call.socket ∷ t) plain
                  short)
                (rw (known, ip, small)
                  (answered (pos fd) (address_message (suc idx) (a ∷ b ∷ c ∷ d ∷ []) n) 3
                    MessageType.newaddr k _ taken))))),
      address_message-IsAddressRequest (suc idx) n a b c d hi hn,
    )
  where
    small : n % 256 ≡ n
    small = omega arith

-- Where the socket opens, `inet_pton` knows the gateway, the device is there and the request is
-- taken, these are the calls of `nl_add_route` for the destination "default", and the one request it
-- sends reads as the default route by that gateway and device.
pub nl_add_route_sends :
    (fd idx a b c d : ℕ) (dev gateway : Bytes) (k : Kernel) (t : Trace)
    → (k (length t) Call.socket).ret ≡ pos fd
    → (k (suc (suc (length t))) (Call.inet_pton gateway)).ret ≡ pos 1
    → (k (suc (suc (length t))) (Call.inet_pton gateway)).out ≡ a ∷ b ∷ c ∷ d ∷ []
    → (k (suc (suc (suc (length t)))) (Call.if_nametoindex dev)).ret ≡ pos (suc idx)
    → suc idx < 2147483648
    → let m = route_message (suc idx) (a ∷ b ∷ c ∷ d ∷ []) in
      is_neg (k (suc (suc (suc (suc (length t))))) (Call.sendmsg (pos fd) m)).ret ≡ false
      → ((nl_add_route (some (codes "default")) (some gateway) (some dev) k t).1
          ≡ made
              (Call.socket
                ∷ Call.setsockopt (pos fd)
                ∷ Call.inet_pton gateway
                ∷ Call.if_nametoindex dev
                ∷ Call.sendmsg (pos fd) m
                ∷ Call.recvmsg (pos fd) 4096
                ∷ Call.close (pos fd)
                ∷ [])
              t)
        × IsRouteRequest m (suc idx) (a ∷ b ∷ c ∷ d ∷ [])
unfolding nl_add_route steps route_target destination put_gateway put_device
nl_add_route_sends fd idx a b c d dev gateway k t opens known ip there hi taken = (
  rw (opened fd k t opens) (
      rw (known, ip, there)
        (rw (suc_nonzero idx) (
          answered (pos fd) (route_message (suc idx) (a ∷ b ∷ c ∷ d ∷ [])) 5 MessageType.newroute k
            _ taken))),
  route_message-IsRouteRequest (suc idx) a b c d hi,
)
