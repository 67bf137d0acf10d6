-- ===== src/Netlink/VethMessage.antt =====
-- What a reader of the request of `nl_create_veth` in src/netlink.c finds in its nested attributes.
use docker.Base.{
  ℕ, ◌+◌, ◌-◌, ◌≡◌, ◌≤◌, refl, ap, ◌∙◌, Bytes, [], ◌∷◌, ◌++◌, length, take, drop, replicate,
  length-append, length-replicate, drop-append_length, append_assoc, get_u16, get_u32, u8, u16, u32,
  arith, has, c_string, codes, false,
}
use docker.Netlink.Message.{
  align, pad_to, start, put_attr, message, ifinfomsg, rtattr, with_nul, veth_request, veth_linkinfo,
  veth_linkinfo_len,
}
use docker.Netlink.Message.MessageType
use docker.Netlink.Message.Attribute
use docker.Netlink.Link.{create_flags}
use docker.Netlink.LinkMessages.{pad_take, c_string-with_nul}

-- The message, and the offset of IFLA_LINKINFO in it.
abbrev pub veth_message : Bytes → Bytes → Bytes
veth_message name1 name2 = message MessageType.newlink create_flags 1 (veth_request name1 name2)

abbrev pub linkinfo_at : Bytes → ℕ
linkinfo_at name1 = 32 + align (4 + (length name1 + 1))

-- The request up to IFLA_LINKINFO.
abbrev front : Bytes → Bytes → Bytes
front name1 name2 =
    let r = put_attr Attribute.ifla_ifname (with_nul name1) (start (ifinfomsg 0 0 0)) in
    u32 (veth_request name1 name2).len
    ++ (u16 MessageType.newlink
        ++ (u16 create_flags ++ (u32 1 ++ (u32 0 ++ pad_to (align r.len - 16) r.body))))

length-front : (name1 name2 : Bytes) → length (front name1 name2) ≡ linkinfo_at name1
unfolding put_attr ifinfomsg rtattr u8 u16 u32 veth_request
length-front name1 name2 =
    let r = put_attr Attribute.ifla_ifname (with_nul name1) (start (ifinfomsg 0 0 0)) in
    let n : ℕ = align r.len - 16 - length r.body in
    omega (
      arith,
      length-append (with_nul name1) (replicate n 0),
      length-append name1 (0 ∷ []),
      length-replicate n (let z : ℕ = 0 in z),
    )

length-veth_linkinfo : (name2 : Bytes) → length (veth_linkinfo name2) ≡ 40 + (length name2 + 1)
unfolding veth_linkinfo ifinfomsg rtattr u8 u16 u32
length-veth_linkinfo name2 = omega (arith, length-append name2 (0 ∷ []))

-- The padding behind the peer's name.
abbrev behind_name : Bytes → Bytes
behind_name name2 = replicate (align (veth_linkinfo_len name2) - (40 + (length name2 + 1))) 0

veth_message_lem :
    (name1 name2 : Bytes)
    → veth_message name1 name2 ≡ front name1 name2 ++ (veth_linkinfo name2 ++ behind_name name2)
unfolding message put_attr ifinfomsg rtattr u8 u16 u32 veth_request
veth_message_lem name1 name2 =
    pad_take (veth_request name1 name2).len sent fits
    ∙ ap (λ n. sent ++ replicate n 0) left
    ∙ append_assoc (front name1 name2) (veth_linkinfo name2) (behind_name name2)
  where
    sent : Bytes
    sent = front name1 name2 ++ veth_linkinfo name2

    size : length sent ≡ linkinfo_at name1 + (40 + (length name2 + 1))
    size = omega (
      arith,
      length-append (front name1 name2) (veth_linkinfo name2),
      length-front name1 name2,
      length-veth_linkinfo name2,
    )

    fits : length sent ≤ (veth_request name1 name2).len
    fits = omega (arith, size, length-append name1 (0 ∷ []))

    left :
        (veth_request name1 name2).len - length sent
        ≡ align (veth_linkinfo_len name2) - (40 + (length name2 + 1))
    left = omega (arith, size, length-append name1 (0 ∷ []))

c_string-padded :
    (s padding rest : Bytes) → has 0 s ≡ false → c_string (((s ++ (0 ∷ [])) ++ padding) ++ rest) ≡ s
c_string-padded s padding rest h =
    ap c_string (append_assoc (s ++ (0 ∷ [])) padding rest)
    ∙ c_string-with_nul s (padding ++ rest) h

-- The request of `nl_create_veth`, as Linux takes its attributes apart. The header's length is that of
-- the message. The first attribute has the one name, and its length is that of its header and the name with
-- its NUL. IFLA_LINKINFO stands behind it, aligned, and ends
-- with the message, as do IFLA_INFO_DATA and VETH_INFO_PEER inside it; the kind is "veth", in
-- an attribute of 8 bytes, and the peer's name is the other name, in one of its length. Names are of the length that Linux allows and hold no NUL.
pub veth_message_nests :
    (name1 name2 : Bytes)
    → length name1 ≤ 15
    → length name2 ≤ 15
    → has 0 name1 ≡ false
    → has 0 name2 ≡ false
    → let b = veth_message name1 name2 in
      let li = drop (linkinfo_at name1) b in
      ((get_u32 b 0 ≡ length b)
        × (get_u16 b 32 ≡ 4 + (length name1 + 1))
        × (get_u16 b 34 ≡ Attribute.ifla_ifname)
        × (c_string (drop 36 b) ≡ name1))
      × ((get_u16 li 2 ≡ Attribute.ifla_linkinfo) × (get_u16 li 0 ≡ length li))
      × ((get_u16 li 4 ≡ 8)
          × (get_u16 li 6 ≡ Attribute.ifla_info_kind)
          × (take 4 (drop 8 li) ≡ codes "veth"))
      × ((get_u16 li 14 ≡ Attribute.ifla_info_data) × (get_u16 li 12 + 12 ≡ length li))
      × ((get_u16 li 18 ≡ Attribute.veth_info_peer) × (get_u16 li 16 + 16 ≡ length li))
      × ((get_u16 li 36 ≡ 4 + (length name2 + 1))
          × (get_u16 li 38 ≡ Attribute.ifla_ifname)
          × (c_string (drop 40 li) ≡ name2))
unfolding put_attr ifinfomsg rtattr u8 u16 u32 veth_request veth_linkinfo
veth_message_nests name1 name2 h1 h2 p1 p2 =
    let tail = veth_linkinfo name2 ++ behind_name name2 in
    let li_here : drop (linkinfo_at name1) (front name1 name2 ++ tail) ≡ tail =
      rw (← length-front name1 name2) (drop-append_length (front name1 name2) tail) in
    rw (veth_message_lem name1 name2) (
      rw li_here (
        (size, omega (arith, length-append name1 (0 ∷ [])), refl, c_string-padded name1 _ tail p1),
        (refl, omega (arith, size_li)),
        (refl, refl, refl),
        (refl, omega (arith, size_li)),
        (refl, omega (arith, size_li)),
        (
          omega (arith, length-append name2 (0 ∷ [])),
          refl,
          c_string-with_nul name2 (behind_name name2) p2,
        ),
      ))
  where
    size_li : length (veth_linkinfo name2 ++ behind_name name2) ≡ align (veth_linkinfo_len name2)
    size_li = omega (
      arith,
      length-append (veth_linkinfo name2) (behind_name name2),
      length-veth_linkinfo name2,
      length-replicate (align (veth_linkinfo_len name2) - (40 + (length name2 + 1)))
          (let z : ℕ = 0 in z),
    )

    size :
        get_u32 (front name1 name2 ++ (veth_linkinfo name2 ++ behind_name name2)) 0
        ≡ length (front name1 name2 ++ (veth_linkinfo name2 ++ behind_name name2))
    size = omega (
      arith,
      length-append (front name1 name2) (veth_linkinfo name2 ++ behind_name name2),
      length-front name1 name2,
      size_li,
      length-append name1 (0 ∷ []),
    )
