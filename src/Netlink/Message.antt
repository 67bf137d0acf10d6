-- ===== src/Netlink/Message.antt =====
-- The request buffers of src/netlink.c, byte by byte as Linux lays them out (little endian).
pub mod MessageType
pub mod Flags
pub mod Attribute
use docker.Base.{
  ℕ, ◌+◌, ◌-◌, ◌*◌, ◌/◌, [], ◌∷◌, ◌++◌, Bytes, length, take, replicate, get_or, codes, u8, u16, u32,
}

-- NLMSG_ALIGN and RTA_ALIGN: up to a multiple of four.
abbrev pub align : ℕ → ℕ
align n = (n + 3) / 4 * 4

-- The bytes of a zeroed buffer that holds `xs`, at least `n` of them.
abbrev pub pad_to : ℕ → Bytes → Bytes
pad_to n xs = xs ++ replicate (n - length xs) 0

-- The four bytes of an IPv4 address, of memory that was never written 0.
abbrev pub in_addr : Bytes → Bytes
in_addr s = get_or s 0 0 ∷ get_or s 1 0 ∷ get_or s 2 0 ∷ get_or s 3 0 ∷ []

-- struct rtattr with its payload.
unfoldable pub rtattr : ℕ → Bytes → Bytes
unfolding u16
rtattr type payload = u16 (4 + length payload) ++ u16 type ++ payload

-- struct ifinfomsg; ifi_family is AF_UNSPEC and ifi_type is 0.
unfoldable pub ifinfomsg : ℕ → ℕ → ℕ → Bytes
unfolding u8 u16 u32
ifinfomsg index flags change = u8 0 ++ u8 0 ++ u16 0 ++ u32 index ++ u32 flags ++ u32 change

-- struct ifaddrmsg; ifa_family is AF_INET, ifa_flags is 0, ifa_scope is RT_SCOPE_UNIVERSE.
unfoldable pub ifaddrmsg : ℕ → ℕ → Bytes
unfolding u8 u32
ifaddrmsg prefixlen index = u8 2 ++ u8 prefixlen ++ u8 0 ++ u8 0 ++ u32 index

-- struct rtmsg; AF_INET, RT_TABLE_MAIN, RTPROT_STATIC, RTN_UNICAST.
unfoldable pub rtmsg : ℕ → ℕ → Bytes
unfolding u8 u32
rtmsg dst_len scope =
    u8 2 ++ u8 dst_len ++ u8 0 ++ u8 0 ++ u8 254 ++ u8 4 ++ u8 scope ++ u8 1 ++ u32 0

-- A request under construction: nlmsg_len, and the bytes behind the struct nlmsghdr.
pub record Request : Type 0 where
  pub len : ℕ
  pub body : Bytes

-- nlmsg_len = NLMSG_LENGTH(sizeof(msg))
abbrev pub start : Bytes → Request
start msg = record { len = 16 + length msg; body = msg }

-- An attribute at NLMSG_ALIGN(nlmsg_len), and nlmsg_len += RTA_ALIGN(rta_len).
unfoldable pub put_attr : ℕ → Bytes → Request → Request
unfolding rtattr
put_attr type payload r = record {
  len = r.len + align (4 + length payload);
  body = pad_to (align r.len - 16) r.body ++ rtattr type payload;
}

-- The nlmsg_len bytes that `sendmsg` takes from the buffer; nlmsg_pid is 0.
unfoldable pub message : ℕ → ℕ → ℕ → Request → Bytes
unfolding u16 u32
message type flags seq r =
    take r.len (pad_to r.len (u32 r.len ++ u16 type ++ u16 flags ++ u32 seq ++ u32 0 ++ r.body))

-- An interface name as an attribute holds it, with its NUL.
abbrev pub with_nul : Bytes → Bytes
with_nul name = name ++ (0 ∷ [])

-- IFLA_LINKINFO of `nl_create_veth`: the kind, and in IFLA_INFO_DATA the peer with its name. Each
-- rta_len is added up from the inside.
unfoldable pub veth_linkinfo : Bytes → Bytes
unfolding rtattr ifinfomsg
veth_linkinfo name2 =
    let pname = rtattr Attribute.ifla_ifname (with_nul name2) in
    let peer_len : ℕ = 20 + align (4 + (length name2 + 1)) in
    let data_len : ℕ = 4 + align peer_len in
    let li_len : ℕ = 12 + align data_len in
    u16 li_len
    ++ (u16 Attribute.ifla_linkinfo
        ++ (rtattr Attribute.ifla_info_kind (codes "veth")
            ++ (u16 data_len
                ++ (u16 Attribute.ifla_info_data
                    ++ (u16 peer_len
                        ++ (u16 Attribute.veth_info_peer ++ (replicate 16 0 ++ pname)))))))

abbrev pub veth_linkinfo_len : Bytes → ℕ
veth_linkinfo_len name2 = 12 + align (4 + align (20 + align (4 + (length name2 + 1))))

-- The whole request of `nl_create_veth`.
unfoldable pub veth_request : Bytes → Bytes → Request
unfolding put_attr ifinfomsg veth_linkinfo
veth_request name1 name2 =
    let r = put_attr Attribute.ifla_ifname (with_nul name1) (start (ifinfomsg 0 0 0)) in
    record {
      len = r.len + align (veth_linkinfo_len name2);
      body = pad_to (align r.len - 16) r.body ++ veth_linkinfo name2;
    }
