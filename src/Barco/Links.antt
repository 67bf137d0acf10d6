-- ===== src/Barco/Links.antt =====
-- What the requests of src/netlink.c make of the host's end of the pair of interfaces. The links are
-- the kernel's, not the program's: they are an interface, with what rtnetlink(7) and veth(4) say.
pub mod Table
pub mod Known
pub mod Removed
use docker.Base.{
  ℕ, suc, ◌≡◌, refl, ℤ, pos, ◌==ℤ◌, is_neg, nonzero, Bool, true, false, not, Bytes, ◌∷◌, length,
  Bool-cases, inl, inr, arith,
}
use docker.Sys.{Kernel, Trace, M, Call, steps}
use docker.Sys.Alphabet.{Only, Only-keeps, Only-weaken}
use docker.Netlink.Message.{message, veth_request}
use docker.Netlink.Message.MessageType
use docker.Netlink.Link.{nl_del_link, delete_message, nl_create_veth, transact, create_flags}
use docker.Netlink.Create.{asked}
use docker.Netlink.Socket.{nl_socket, nl_send_recv, wait_loop, wait_for_interface}
use docker.Netlink.Calls.{nl_del_link-Only, nl_socket-Only, wait_for_interface-Only, network_call}
use docker.Barco.Calls.{is_creation}

abbrev pub veth_message : Bytes → Bytes → Bytes
veth_message name1 name2 = message MessageType.newlink create_flags 1 (veth_request name1 name2)

-- The rules for a link `peer` that the functions of the program are followed by, in terms of their own
-- messages. Links/Table.antt has the rules of the kernel, in terms of what a message says, from which
-- these follow as far as no answer is lost.
pub record Links (k : Kernel) (peer : Bytes) : Type 0 where
  pub hosted : Trace → Bool
  pub indexed :
      (t : Trace) → hosted t ≡ true → nonzero (k (length t) (Call.if_nametoindex peer)).ret ≡ true
  pub kept :
      (t : Trace) (c : Call) → is_creation c ≡ false → hosted t ≡ false → hosted (c ∷ t) ≡ false
  pub deleted :
      (t : Trace) (sock : ℤ)
      → let idx = (k (length t) (Call.if_nametoindex peer)).ret in
        nonzero idx ≡ true
        → is_neg (k (suc (length t)) (Call.sendmsg sock (delete_message idx))).ret ≡ false
        → hosted (Call.sendmsg sock (delete_message idx) ∷ Call.if_nametoindex peer ∷ t) ≡ false
  pub refused :
      (tmp : Bytes) (t : Trace) (sock : ℤ)
      → let (r, u) = transact sock (veth_message tmp peer) 1 MessageType.newlink k t in
        hosted t ≡ false → is_neg r ≡ true → hosted u ≡ false
  pub paired :
      (tmp : Bytes) (t : Trace) (sock : ℤ)
      → let u = (transact sock (veth_message tmp peer) 1 MessageType.newlink k t).1 in
        hosted t ≡ false
        → nonzero (k (length u) (Call.if_nametoindex tmp)).ret ≡ false
        → hosted u ≡ false

abbrev pub is_linkless : Call → Bool
is_linkless c = not (is_creation c)

network_linkless : (c : Call) → network_call c ≡ true → is_linkless c ≡ true
network_linkless c h = ground arith

wait_loop_sees :
    (fuel timeout_ms : ℕ) (name : Bytes) (k : Kernel) (t : Trace)
    → nonzero (k (length t) (Call.if_nametoindex name)).ret ≡ true
    → nonzero (wait_loop (suc fuel) name (suc timeout_ms) 0 k t).0 ≡ true
unfolding wait_loop steps
wait_loop_sees fuel timeout_ms name k t h = ground arith

-- A wait that sees nothing saw nothing at once.
wait_unseen :
    (name : Bytes) (k : Kernel) (t : Trace)
    → nonzero (wait_for_interface name 5000 k t).0 ≡ false
    → nonzero (k (length t) (Call.if_nametoindex name)).ret ≡ false
unfolding wait_for_interface
wait_unseen name k t h = elim (Bool-cases (nonzero (k (length t) (Call.if_nametoindex name)).ret)) [
  | inl seen ↦ absurd (cc (wait_loop_sees 4999 4999 name k t seen))
  | inr unseen ↦ unseen
]

nl_socket_opens :
    (k : Kernel) (t : Trace)
    → is_neg (k (length t) Call.socket).ret ≡ false
    → let sock = (k (length t) Call.socket).ret in
      nl_socket k t ≡ (sock, Call.setsockopt sock ∷ Call.socket ∷ t)
unfolding nl_socket steps
nl_socket_opens k t h = rw h refl

module _ {k : Kernel} {peer : Bytes} (links : Links k peer) where
  open links use {hosted, indexed, kept, deleted, refused, paired}

  -- A program that asks for no link brings none.
  pub stays_away :
      {A : Type 0} (m : M A) (t : Trace)
      → Only is_linkless m
      → hosted t ≡ false
      → hosted (m k t).1 ≡ false
  stays_away m t o h =
      Only-keeps (λ k' u. hosted u ≡ false) m (λ k' u c linkless away. kept u c (ground arith) away)
        o k t h

  unindexed :
      (t : Trace) → nonzero (k (length t) (Call.if_nametoindex peer)).ret ≡ false → hosted t ≡ false
  unindexed t h = elim (Bool-cases (hosted t)) [
    | inl there ↦ absurd (cc (indexed t there))
    | inr away ↦ away
  ]

  not_made :
      {A : Type 0} (m : M A) (t : Trace)
      → Only network_call m
      → hosted t ≡ false
      → hosted (m k t).1 ≡ false
  not_made m t o h = stays_away m t (Only-weaken network_linkless o) h

  -- The request to delete it, on a socket that takes it.
  sent_deletes :
      (sock : ℤ) (t : Trace)
      → nonzero (k (length t) (Call.if_nametoindex peer)).ret ≡ true
      → ((n : ℕ) (s : ℤ) (nlh : Bytes) → is_neg (k n (Call.sendmsg s nlh)).ret ≡ false)
      → let idx = (k (length t) (Call.if_nametoindex peer)).ret in
        hosted
          (transact sock
            (delete_message idx)
            4
            MessageType.dellink
            k
            (Call.if_nametoindex peer ∷ t)).1
        ≡ false
  unfolding nl_send_recv steps
  sent_deletes sock t there sends =
      let idx = (k (length t) (Call.if_nametoindex peer)).ret in
      let sent : Trace = Call.sendmsg sock (delete_message idx) ∷ Call.if_nametoindex peer ∷ t in
      let gone : hosted sent ≡ false = deleted t sock there (sends _ sock (delete_message idx)) in
      let heard : hosted (Call.recvmsg sock 4096 ∷ sent) ≡ false =
        kept sent (Call.recvmsg sock 4096) refl gone in
      elim (Bool-cases (is_neg (k (length sent) (Call.recvmsg sock 4096)).ret)) [
        | inl lost ↦ rw (sends, lost) (kept _ (Call.close sock) refl heard)
        | inr answered ↦ rw (sends, answered) (kept _ (Call.close sock) refl heard)
      ]

  -- The deletion goes through where a socket opens and the request is taken.
  pub nl_del_link-deletes :
      (t : Trace)
      → ((n : ℕ) → is_neg (k n Call.socket).ret ≡ false)
      → ((n : ℕ) (sock : ℤ) (nlh : Bytes) → is_neg (k n (Call.sendmsg sock nlh)).ret ≡ false)
      → hosted (nl_del_link peer k t).1 ≡ false
  unfolding nl_del_link steps
  nl_del_link-deletes t opens sends =
      let sock = (k (length t) Call.socket).ret in
      let u : Trace = Call.setsockopt sock ∷ Call.socket ∷ t in
      elim (Bool-cases (nonzero (k (length u) (Call.if_nametoindex peer)).ret)) [
        | inr none_there ↦
            rw (nl_socket_opens k t (opens (length t)), opens, none_there)
              (kept _ (Call.close sock) refl
                (kept u (Call.if_nametoindex peer) refl (unindexed u none_there)))
        | inl there ↦
            rw (nl_socket_opens k t (opens (length t)), opens, there)
              (sent_deletes sock u there sends)
      ]

  -- A pair whose creation fails has no second link.
  pub nl_create_veth-fails :
      (tmp : Bytes) (t : Trace)
      → hosted t ≡ false
      → is_neg (nl_create_veth tmp peer k t).0 ≡ true
      → hosted (nl_create_veth tmp peer k t).1 ≡ false
  unfolding nl_create_veth steps
  nl_create_veth-fails tmp t h fails =
      let s = nl_socket k t in
      let opened = not_made nl_socket t nl_socket-Only h in
      let (r, u) = asked tmp peer k t in
      elim (Bool-cases (is_neg s.0)) [
        | inl shut ↦ rw shut opened
        | inr open_ ↦ elim (Bool-cases (is_neg r)) [
          | inl bad ↦ rw (open_, bad) (refused tmp s.1 s.0 opened bad)
          | inr good ↦
              let v = wait_for_interface tmp 5000 k u in
              let w = wait_for_interface peer 5000 k v.1 in
              elim (Bool-cases (nonzero v.0)) [
                | inr unseen ↦
                    let first : (v.0 ==ℤ pos 0) ≡ true = ground (arith, unseen) in
                    rw (open_, good, first)
                      (taken_back v.1 (
                        not_made (wait_for_interface tmp 5000) _ (wait_for_interface-Only tmp 5000)
                          (paired tmp s.1 s.0 opened (wait_unseen tmp k u unseen))))
                | inl seen ↦ elim (Bool-cases (nonzero w.0)) [
                  | inr unseen ↦
                      let both : ((v.0 ==ℤ pos 0) ≡ false) × ((w.0 ==ℤ pos 0) ≡ true) =
                        (ground (arith, seen), ground (arith, unseen)) in
                      rw (open_, good, both.0, both.1)
                        (taken_back v.1 (unindexed v.1 (wait_unseen peer k v.1 unseen)))
                  | inl seen_too ↦ absurd (ground (arith, fails, open_, good, seen, seen_too))
                ]
              ]
        ]
      ]
    where
      taken_back :
          (v : Trace)
          → hosted v ≡ false
          → hosted (nl_del_link tmp k (wait_for_interface peer 5000 k v).1).1 ≡ false
      taken_back v h =
          not_made (nl_del_link tmp) (wait_for_interface peer 5000 k v).1 (nl_del_link-Only tmp)
            (not_made (wait_for_interface peer 5000) v (wait_for_interface-Only peer 5000) h)
