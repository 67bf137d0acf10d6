-- ===== src/Barco/Links/Table.antt =====
-- The host's links as rtnetlink(7) and veth(4) describe them, by what the bytes of a request say, and
-- that they follow the rules of `Links` as far as no answer was lost.
use docker.Base.{
  suc, ◌^◌, ◌≡◌, refl, ℤ, pos, wrap, is_neg, nonzero, Bool, true, false, not, ◌&&◌, ◌||◌, Bytes, [],
  ◌∷◌, length, get_u16, get_u32, u8, u16, u32, arith, Bool-cases, inl, inr,
}
use docker.Sys.{Kernel, Trace, Call, steps}
use docker.Netlink.Message.{message, ifinfomsg}
use docker.Netlink.Message.MessageType
use docker.Netlink.Creation.{veth_message_creates}
use docker.Netlink.Link.{delete_message, transact}
use docker.Netlink.Socket.{nl_send_recv}
use docker.Barco.Calls.{is_creation}
use docker.Barco.Links.{Links, veth_message}

-- Whether the host has a link `peer` after the calls of a trace. A link that is there has an index. No
-- call but a request for a link brings one. A message that has the type RTM_DELLINK and the link's index
-- in its struct ifinfomsg takes it away. If the request for the pair is not taken, or gets an answer but
-- no acknowledgement, then no pair was made; where no answer comes at all, nothing is known. The second
-- link of the pair is there only if the first is.
pub record LinkTable (k : Kernel) (peer : Bytes) : Type 0 where
  pub hosted : Trace → Bool
  pub indexed :
      (t : Trace) → hosted t ≡ true → nonzero (k (length t) (Call.if_nametoindex peer)).ret ≡ true
  pub kept :
      (t : Trace) (c : Call) → is_creation c ≡ false → hosted t ≡ false → hosted (c ∷ t) ≡ false
  pub deleted :
      (t : Trace) (sock : ℤ) (nlh : Bytes)
      → let idx = (k (length t) (Call.if_nametoindex peer)).ret in
        nonzero idx ≡ true
        → get_u16 nlh 4 ≡ MessageType.dellink
        → get_u32 nlh 20 ≡ wrap (2 ^ 32) idx
        → is_neg (k (suc (length t)) (Call.sendmsg sock nlh)).ret ≡ false
        → hosted (Call.sendmsg sock nlh ∷ Call.if_nametoindex peer ∷ t) ≡ false
  pub refused :
      (tmp : Bytes) (t : Trace) (sock : ℤ)
      → let (r, u) = transact sock (veth_message tmp peer) 1 MessageType.newlink k t in
        let taken = (k (length t) (Call.sendmsg sock (veth_message tmp peer))).ret in
        let answer = (k (suc (length t)) (Call.recvmsg sock 4096)).ret in
        hosted t ≡ false
        → is_neg r ≡ true
        → (is_neg taken || not (is_neg answer)) ≡ true
        → hosted u ≡ false
  pub paired :
      (tmp : Bytes) (t : Trace) (sock : ℤ)
      → let u = (transact sock (veth_message tmp peer) 1 MessageType.newlink k t).1 in
        hosted t ≡ false
        → nonzero (k (length u) (Call.if_nametoindex tmp)).ret ≡ false
        → hosted u ≡ false

-- The newest call asks for a link.
abbrev pub asks_link : Trace → Bool
asks_link [] = false
asks_link (c ∷ t) = is_creation c

-- Somewhere in the trace a request for a link was sent, and the `recvmsg` directly behind it failed.
unfoldable pub lost : Kernel → Trace → Bool
lost k [] = false
lost k (Call.recvmsg sock size ∷ t) =
    let before = lost k t in
    (asks_link t && is_neg (k (length t) (Call.recvmsg sock size)).ret) || before
lost k (_ ∷ t) = lost k t

lost_more : (k : Kernel) (c : Call) (t : Trace) → lost k t ≡ true → lost k (c ∷ t) ≡ true
unfolding lost
lost_more k c t h = ground arith

delete_message_reads :
    (idx : ℤ)
    → (get_u16 (delete_message idx) 4 ≡ MessageType.dellink)
      × (get_u32 (delete_message idx) 20 ≡ wrap (2 ^ 32) idx)
unfolding delete_message message ifinfomsg u8 u16 u32
delete_message_reads (pos n) = (refl, omega arith)
delete_message_reads (ℤ.negsuc n) = (refl, omega arith)

module _ {k : Kernel} {peer : Bytes} (table : LinkTable k peer) where
  open table use {hosted, indexed, kept, deleted, refused, paired}

  -- There, as far as is known.
  abbrev pub known : Trace → Bool
  known t = hosted t && not (lost k t)

  transact_loses :
      (sock : ℤ) (nlh : Bytes) (t : Trace)
      → lost k t ≡ true
      → lost k (transact sock nlh 1 MessageType.newlink k t).1 ≡ true
  unfolding nl_send_recv steps lost
  transact_loses sock nlh t h = ground arith

  -- A request for a link that is taken and not answered.
  unanswered :
      (tmp : Bytes) (t : Trace) (sock : ℤ)
      → let taken = (k (length t) (Call.sendmsg sock (veth_message tmp peer))).ret in
        let answer = (k (suc (length t)) (Call.recvmsg sock 4096)).ret in
        (is_neg taken || not (is_neg answer)) ≡ false
        → lost k (transact sock (veth_message tmp peer) 1 MessageType.newlink k t).1 ≡ true
  unfolding nl_send_recv steps lost
  unanswered tmp t sock h = ground (arith, veth_message_creates tmp peer)

  known_kept :
      (t : Trace) (c : Call) → is_creation c ≡ false → known t ≡ false → known (c ∷ t) ≡ false
  known_kept t c h e = elim (Bool-cases (lost k t)) [
    | inl gone ↦ ground (arith, lost_more k c t gone)
    | inr heard ↦ ground (arith, kept t c h)
  ]

  hidden : (u : Trace) → lost k u ≡ true → known u ≡ false
  hidden u h = ground arith

  pub away : (u : Trace) → hosted u ≡ false → known u ≡ false
  away u h = ground arith

  there : (u : Trace) → known u ≡ true → hosted u ≡ true
  there u h = ground arith

  pub unknown : (u : Trace) → known u ≡ false → lost k u ≡ false → hosted u ≡ false
  unknown u h h' = ground arith

  known_refused :
      (tmp : Bytes) (t : Trace) (sock : ℤ)
      → let (r, u) = transact sock (veth_message tmp peer) 1 MessageType.newlink k t in
        known t ≡ false → is_neg r ≡ true → known u ≡ false
  known_refused tmp t sock e bad =
      let taken = (k (length t) (Call.sendmsg sock (veth_message tmp peer))).ret in
      let answer = (k (suc (length t)) (Call.recvmsg sock 4096)).ret in
      let u = (transact sock (veth_message tmp peer) 1 MessageType.newlink k t).1 in
      elim (Bool-cases (lost k t)) [
        | inl gone ↦ hidden u (transact_loses sock (veth_message tmp peer) t gone)
        | inr heard ↦ elim (Bool-cases (is_neg taken || not (is_neg answer))) [
          | inr silent ↦ hidden u (unanswered tmp t sock silent)
          | inl answered ↦ away u (refused tmp t sock (unknown t e heard) bad answered)
        ]
      ]

  known_paired :
      (tmp : Bytes) (t : Trace) (sock : ℤ)
      → let u = (transact sock (veth_message tmp peer) 1 MessageType.newlink k t).1 in
        known t ≡ false
        → nonzero (k (length u) (Call.if_nametoindex tmp)).ret ≡ false
        → known u ≡ false
  known_paired tmp t sock e unseen =
      let u = (transact sock (veth_message tmp peer) 1 MessageType.newlink k t).1 in
      elim (Bool-cases (lost k t)) [
        | inl gone ↦ hidden u (transact_loses sock (veth_message tmp peer) t gone)
        | inr heard ↦ away u (paired tmp t sock (unknown t e heard) unseen)
      ]

  abbrev known_rules : Links k peer
  known_rules = record {
    hosted = known;
    indexed = λ t h. indexed t (there t h);
    kept = known_kept;
    deleted = λ t sock given sent.
        let idx = (k (length t) (Call.if_nametoindex peer)).ret in
        let reads = delete_message_reads idx in
        away (Call.sendmsg sock (delete_message idx) ∷ Call.if_nametoindex peer ∷ t)
          (deleted t sock (delete_message idx) given reads.0 reads.1 sent);
    refused = known_refused;
    paired = known_paired;
  }

  -- The rules that the functions of the program are followed by.
  pub known_links : (links : Links k peer) × ((t : Trace) → links.hosted t ≡ known t)
  known_links = (known_rules, λ t. refl)
