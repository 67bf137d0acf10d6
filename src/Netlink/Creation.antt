-- ===== src/Netlink/Creation.antt =====
-- Which request of src/netlink.c asks for a new link, by its header.
use docker.Base.{
  ℕ, zero, suc, ◌+◌, ◌/◌, ◌%◌, ◌≡◌, Bool, true, false, not, ◌&&◌, ◌==◌, ltb, [], ◌∷◌, Bytes, take,
  get_or, get_u16, u16, u32, arith, if◌then◌else◌,
}
use docker.Netlink.Message.{Request, message, veth_request}
use docker.Netlink.Link.{create_flags}
use docker.Netlink.Message.MessageType
use docker.Netlink.Message.Flags

-- RTM_NEWLINK with NLM_F_CREATE among its flags.
abbrev pub makes_link : Bytes → Bool
makes_link b = get_u16 b 4 == MessageType.newlink && get_u16 b 6 / Flags.create % 2 == 1

get_or-take :
    (n : ℕ) (xs : Bytes) (i : ℕ) → get_or (take n xs) i 0 ≡ (if ltb i n then get_or xs i 0 else 0)
get_or-take zero xs i = ground arith
get_or-take (suc n) [] i = ground arith
get_or-take (suc n) (x ∷ xs) zero = ground arith
get_or-take (suc n) (x ∷ xs) (suc i) = ground (arith, get_or-take n xs i)

module _ (type flags seq : ℕ) (r : Request) where
  -- The bytes of the type and of the flags; of a message that is too short for them, 0.
  header_bytes :
      let m = message type flags seq r in
      (get_or m 4 0 ≡ (if ltb 4 r.len then type % 256 else 0))
      × (get_or m 5 0 ≡ (if ltb 5 r.len then type / 256 % 256 else 0))
      × (get_or m 6 0 ≡ (if ltb 6 r.len then flags % 256 else 0))
      × (get_or m 7 0 ≡ (if ltb 7 r.len then flags / 256 % 256 else 0))
  unfolding message u16 u32
  header_bytes =
      (get_or-take r.len _ 4, get_or-take r.len _ 5, get_or-take r.len _ 6, get_or-take r.len _ 7)

-- A request of another type.
pub other_message :
    (type flags seq : ℕ) (r : Request)
    → (type % 256 == MessageType.newlink) ≡ false
    → not (makes_link (message type flags seq r)) ≡ true
other_message type flags seq r h = rw (header_bytes type flags seq r).0 (ground arith)

-- A request about a link that is there.
pub change_message :
    (seq : ℕ) (r : Request)
    → not (makes_link (message MessageType.newlink (Flags.request + Flags.ack) seq r)) ≡ true
change_message seq r =
    let bytes = header_bytes MessageType.newlink (Flags.request + Flags.ack) seq r in
    rw (bytes.0, bytes.1, bytes.2, bytes.3) (ground arith)

-- The request for a pair asks for a link.
pub veth_message_creates :
    (name1 name2 : Bytes)
    → makes_link (message MessageType.newlink create_flags 1 (veth_request name1 name2)) ≡ true
unfolding veth_request
veth_message_creates name1 name2 =
    let bytes = header_bytes MessageType.newlink create_flags 1 (veth_request name1 name2) in
    rw (bytes.0, bytes.1, bytes.2, bytes.3) (ground arith)
