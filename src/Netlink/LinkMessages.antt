-- ===== src/Netlink/LinkMessages.antt =====
-- What a reader of a link request with one attribute finds in its bytes, which is the kernel's side
-- of `nl_move_to_ns` and `nl_rename_link` in src/netlink.c.
use docker.Base.{
  ℕ, ◌+◌, ◌-◌, ◌≡◌, ◌≤◌, ◌<◌, refl, ap, ◌∙◌, Bytes, [], ◌∷◌, ◌++◌, length, take, drop, replicate,
  length-append, length-replicate, take_all, take-append_length, get_u16, get_u32, u8, u16, u32,
  arith, has, c_string, pos, wrap, ◌^◌, false,
}
use docker.Netlink.Message.MessageType
use docker.Netlink.Message.Flags
use docker.Netlink.Message.Attribute
use docker.Netlink.Link.{rename_request}
use docker.Netlink.Message.{align, pad_to, Request, start, put_attr, message, ifinfomsg, rtattr}

abbrev pub link_message : ℕ → ℕ → ℕ → ℕ → ℕ → Bytes → Bytes
link_message type flags seq index attr payload =
    message type flags seq (put_attr attr payload (start (ifinfomsg index 0 0)))

-- The bytes of the message, with the padding behind the attribute.
abbrev link_bytes : ℕ → ℕ → ℕ → ℕ → ℕ → Bytes → Bytes
link_bytes type flags seq index attr payload =
    u32 (32 + align (4 + length payload))
    ++ (u16 type
        ++ (u16 flags
            ++ (u32 seq
                ++ (u32 0
                    ++ (ifinfomsg index 0 0
                        ++ (u16 (4 + length payload)
                            ++ (u16 attr
                                ++ (payload
                                    ++ replicate (align (4 + length payload) - (4 + length payload))
                                        0))))))))

pub pad_take :
    (n : ℕ) (xs : Bytes) → length xs ≤ n → take n (pad_to n xs) ≡ xs ++ replicate (n - length xs) 0
pad_take n xs h = take_all n (pad_to n xs) (
    omega (
      arith,
      length-append xs (replicate (n - length xs) 0),
      length-replicate (n - length xs) (let z : ℕ = 0 in z),
    ))

pub link_message_lem :
    (type flags seq index attr : ℕ) (payload : Bytes)
    → link_message type flags seq index attr payload ≡ link_bytes type flags seq index attr payload
unfolding message put_attr ifinfomsg rtattr u8 u16 u32
link_message_lem type flags seq index attr payload =
    pad_take r.len sent (omega arith)
    ∙ ap
        (λ n.
          u32 (32 + align (4 + length payload))
          ++ (u16 type
              ++ (u16 flags
                  ++ (u32 seq
                      ++ (u32 0
                          ++ (ifinfomsg index 0 0
                              ++ (u16 (4 + length payload)
                                  ++ (u16 attr ++ (payload ++ replicate n 0)))))))))
        left
  where
    r : Request
    r = put_attr attr payload (start (ifinfomsg index 0 0))

    sent : Bytes
    sent = u32 r.len ++ (u16 type ++ (u16 flags ++ (u32 seq ++ (u32 0 ++ r.body))))

    left : r.len - length sent ≡ align (4 + length payload) - (4 + length payload)
    left = omega arith

-- A link request with one attribute reads back, if the numbers fit their fields and the payload has
-- fewer than 65000 bytes: the length in the header is the number of bytes that are sent, and type,
-- flags, sequence number, interface index, and the attribute's length, type and payload stand at
-- their offsets.
pub link_message_reads_back :
    (type flags seq index attr : ℕ) (payload : Bytes)
    → type < 65536
    → flags < 65536
    → seq < 4294967296
    → index < 4294967296
    → attr < 65536
    → length payload < 65000
    → let b = link_message type flags seq index attr payload in
      (get_u32 b 0 ≡ length b)
      × (get_u16 b 4 ≡ type)
      × (get_u16 b 6 ≡ flags)
      × (get_u32 b 8 ≡ seq)
      × (get_u32 b 20 ≡ index)
      × (get_u16 b 32 ≡ 4 + length payload)
      × (get_u16 b 34 ≡ attr)
      × (take (length payload) (drop 36 b) ≡ payload)
unfolding ifinfomsg u8 u16 u32
link_message_reads_back type flags seq index attr payload h1 h2 h3 h4 h5 h6 =
    rw (link_message_lem type flags seq index attr payload) (
      omega (
        arith,
        length-append payload padding,
        length-replicate (align (4 + length payload) - (4 + length payload)) (let z : ℕ = 0 in z),
      ),
      omega arith,
      omega arith,
      omega arith,
      omega arith,
      omega arith,
      omega arith,
      take-append_length payload padding,
    )
  where
    padding : Bytes
    padding = replicate (align (4 + length payload) - (4 + length payload)) 0

pub c_string-with_nul : (s tail : Bytes) → has 0 s ≡ false → c_string ((s ++ (0 ∷ [])) ++ tail) ≡ s
c_string-with_nul [] tail h = refl
c_string-with_nul (c ∷ s) tail h = ground (arith, c_string-with_nul s tail)

-- The request of `nl_rename_link`, for an index that is a positive int and a name of at most 59
-- bytes without NUL, has the index at its offset, the attribute type IFLA_IFNAME, and the new name
-- as the C string in the attribute.
pub rename_message_names :
    (index : ℕ) (newname : Bytes)
    → index < 2147483648
    → length newname ≤ 59
    → has 0 newname ≡ false
    → let b =
        message MessageType.newlink
          (Flags.request + Flags.ack)
          7
          (rename_request (pos index) newname) in
      (get_u32 b 20 ≡ index)
      × (get_u16 b 34 ≡ Attribute.ifla_ifname)
      × (c_string (drop 36 b) ≡ newname)
unfolding rename_request ifinfomsg u8 u16 u32
rename_message_names index newname h k plain =
    rw
      (link_message_lem MessageType.newlink (Flags.request + Flags.ack) 7
        (wrap (2 ^ 32) (pos index)) Attribute.ifla_ifname (newname ++ (0 ∷ [])))
      (omega arith, refl, c_string-with_nul newname _ plain)
