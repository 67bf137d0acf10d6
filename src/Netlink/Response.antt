-- ===== src/Netlink/Response.antt =====
-- The loop of `nl_send_recv` over the response, against a reading of the messages in it.
use docker.Base.{
  ℕ, zero, suc, ◌+◌, ◌-◌, ◌<◌, ◌≡◌, refl, ℤ, pos, minus_one, is_neg, not, ◌||◌, List, [], ◌∷◌, ◌++◌,
  Bytes, length, drop, replicate, length-append, length-replicate, drop-append_length, get_u16,
  get_u32, u16, u32, arith, ap, ◌∙◌, ◌==◌, if◌then◌else◌, true, false,
}
use docker.Sys.{Kernel, Trace, Call, steps}
use docker.Netlink.Message.{align, pad_to}
use docker.Netlink.Message.MessageType
use docker.Netlink.Socket.{scan, nlmsg_ok, nl_send_recv}

-- A message: its type, flags, sequence number and port id, the first word of its payload, and the rest of it.
pub record Message : Type 0 where
  pub type : ℕ
  pub flags : ℕ
  pub seq : ℕ
  pub pid : ℕ
  pub word : ℕ
  pub rest : Bytes

abbrev pub IsMessage : Message → Type 0
IsMessage m =
    (m.type < 65536)
    × (m.flags < 65536)
    × (m.pid < 4294967296)
    × (m.seq < 4294967296)
    × (m.word < 4294967296)
    × (length m.rest < 4294967000)

unfoldable pub encode : Message → Bytes
unfolding u16 u32
encode m =
    u32 (20 + length m.rest)
    ++ (u16 m.type
        ++ (u16 m.flags
            ++ (u32 m.seq ++ (u32 m.pid ++ (u32 m.word ++ pad_to (align (length m.rest)) m.rest)))))

unfoldable pub encode_all : List Message → Bytes
encode_all [] = []
encode_all (m ∷ ms) = encode m ++ encode_all ms

-- What the messages mean to the sender of request `seq`: the first that bears its number and is an
-- acknowledgement, an error, of the awaited type or the end of a dump.
unfoldable pub verdict : ℕ → ℕ → List Message → ℤ
verdict seq type [] = minus_one
verdict seq type (m ∷ ms) =
    let next = verdict seq type ms in
    if not (m.seq == seq)
    then next
    else if m.type == MessageType.error
    then (if m.word == 0 then pos 0 else minus_one)
    else if m.type == type || m.type == MessageType.done
    then pos 0
    else next

abbrev pub All : List Message → Type 0
All [] = Unit
All (m ∷ ms) = IsMessage m × All ms

length-encode : (m : Message) → length (encode m) ≡ align (20 + length m.rest)
unfolding encode
length-encode m = omega (
  arith,
  length-append m.rest (replicate (align (length m.rest) - length m.rest) 0),
  length-replicate (align (length m.rest) - length m.rest) (let z : ℕ = 0 in z),
)

-- The fields that the loop reads at the head of the buffer.
fields :
    (m : Message) (tail : Bytes)
    → IsMessage m
    → let b = encode m ++ tail in
      (get_u32 b 0 ≡ 20 + length m.rest)
      × (get_u16 b 4 ≡ m.type)
      × (get_u32 b 8 ≡ m.seq)
      × (get_u32 b 16 ≡ m.word)
unfolding encode
fields m tail h = (omega arith, omega arith, omega arith, omega arith)

drop-encode :
    (m : Message) (tail : Bytes) → drop (align (20 + length m.rest)) (encode m ++ tail) ≡ tail
drop-encode m tail = rw (← length-encode m) (drop-append_length (encode m) tail)

-- One round of the loop, by what it reads.
abbrev round : ℕ → ℕ → ℕ → ℕ → ℕ → ℤ → ℤ
round seq type sq ty w next =
    if not (sq == seq)
    then next
    else if ty == MessageType.error
    then (if w == 0 then pos 0 else minus_one)
    else if ty == type || ty == MessageType.done
    then pos 0
    else next

scan-round :
    (cut : ℤ) (fuel seq type : ℕ) (b tail : Bytes) (n n' len ty sq w : ℕ)
    → nlmsg_ok b n ≡ true
    → get_u32 b 0 ≡ len
    → get_u16 b 4 ≡ ty
    → get_u32 b 8 ≡ sq
    → get_u32 b 16 ≡ w
    → drop (align len) b ≡ tail
    → n - align len ≡ n'
    → scan cut (suc fuel) seq type b n ≡ round seq type sq ty w (scan cut fuel seq type tail n')
unfolding scan
scan-round cut fuel seq type b tail n n' len ty sq w ok e0 e4 e8 e16 ed en =
    rw (ok, ← ed, ← en, ← e4, ← e8, ← e16, ← e0)

encode-nlmsg_ok :
    (m : Message) (tail : Bytes)
    → IsMessage m
    → nlmsg_ok (encode m ++ tail) (length (encode m ++ tail)) ≡ true
unfolding nlmsg_ok
encode-nlmsg_ok m tail h =
    rw (length-append (encode m) tail, length-encode m, (fields m tail h).0) (ground arith)

length-encode_all :
    (m : Message) (tail : Bytes)
    → length (encode m ++ tail) - align (20 + length m.rest) ≡ length tail
length-encode_all m tail = omega (arith, length-append (encode m) tail, length-encode m)

scan-verdict :
    (fuel seq type : ℕ) (ms : List Message)
    → All ms
    → length (encode_all ms) < fuel
    → scan minus_one fuel seq type (encode_all ms) (length (encode_all ms)) ≡ verdict seq type ms
unfolding verdict encode_all
scan-verdict zero seq type ms h lt = elim lt [ ]
scan-verdict (suc fuel) seq type [] h lt = unfold scan nlmsg_ok in refl
scan-verdict (suc fuel) seq type (m ∷ ms) h lt =
    let tail = encode_all ms in
    let f = fields m tail h.0 in
    scan-round minus_one fuel seq type (encode m ++ tail) tail _ (length tail) _ _ _ _
      (encode-nlmsg_ok m tail h.0) f.0 f.1 f.2 f.3 (drop-encode m tail) (length-encode_all m tail)
    ∙ ap (round seq type m.seq m.type m.word) (
        scan-verdict fuel seq type ms h.1
          (omega (arith, length-append (encode m) tail, length-encode m)))

-- If the socket takes the request, and what comes back encodes messages, with any flags and port
-- ids, that have at least four bytes of payload each, `nl_send_recv` returns what the messages mean: the verdict of the first
-- that answers the request, whatever stands before and behind it.
pub nl_send_recv-verdict :
    (sock : ℤ) (nlh : Bytes) (seq type : ℕ) (ms : List Message) (k : Kernel) (t : Trace)
    → All ms
    → is_neg (k (length t) (Call.sendmsg sock nlh)).ret ≡ false
    → (k (suc (length t)) (Call.recvmsg sock 4096)).ret ≡ pos (length (encode_all ms))
    → (k (suc (length t)) (Call.recvmsg sock 4096)).out ≡ encode_all ms
    → (nl_send_recv sock nlh seq type k t).0 ≡ verdict seq type ms
unfolding nl_send_recv steps
nl_send_recv-verdict sock nlh seq type ms k t h sent len bytes =
    rw (sent, len, bytes) (scan-verdict (suc (length (encode_all ms))) seq type ms h (omega arith))
