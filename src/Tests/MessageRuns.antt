-- ===== src/Tests/MessageRuns.antt =====
-- The theorems about the bytes of requests at concrete inputs.
use docker.Base.{◌+◌, ◌≡◌, refl, length, get_u32, get_u16, take, drop, c_string, codes, arith}
use docker.Netlink.Message.Attribute
use docker.Netlink.VethMessage.{veth_message, linkinfo_at, veth_message_nests}

veth_message_nests_example :
    let b = veth_message (codes "veth-tmp-abcdef") (codes "veth0") in
    let li = drop (linkinfo_at (codes "veth-tmp-abcdef")) b in
    ((get_u32 b 0 ≡ length b)
      × (get_u16 b 32 ≡ 20)
      × (get_u16 b 34 ≡ Attribute.ifla_ifname)
      × (c_string (drop 36 b) ≡ codes "veth-tmp-abcdef"))
    × ((get_u16 li 2 ≡ Attribute.ifla_linkinfo) × (get_u16 li 0 ≡ length li))
    × ((get_u16 li 4 ≡ 8)
        × (get_u16 li 6 ≡ Attribute.ifla_info_kind)
        × (take 4 (drop 8 li) ≡ codes "veth"))
    × ((get_u16 li 14 ≡ Attribute.ifla_info_data) × (get_u16 li 12 + 12 ≡ length li))
    × ((get_u16 li 18 ≡ Attribute.veth_info_peer) × (get_u16 li 16 + 16 ≡ length li))
    × ((get_u16 li 36 ≡ 10)
        × (get_u16 li 38 ≡ Attribute.ifla_ifname)
        × (c_string (drop 40 li) ≡ codes "veth0"))
veth_message_nests_example =
    veth_message_nests (codes "veth-tmp-abcdef") (codes "veth0") (omega arith) (omega arith) refl
      refl
