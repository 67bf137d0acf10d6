-- ===== src/Netlink/Requests/Sent.antt =====
-- The request that a function of src/netlink.c sends about an interface when it succeeds.
use docker.Base.{
  ℕ, zero, suc, ap, ℤ, ◌+◌, ◌≡◌, refl, ◌∙◌, is_neg, nonzero, true, false, Bytes, ◌∷◌, length,
  Bool-cases, inl, inr, arith,
}
use docker.Sys.{Kernel, Trace, Call, steps}
use docker.Sys.Alphabet.{Only, only_rules}
use docker.Netlink.Message.{message}
use docker.Netlink.Message.MessageType
use docker.Netlink.Message.Flags
use docker.Netlink.Socket.{nl_socket, wait_for_interface}
use docker.Netlink.Cidr.{Parsed, parse_cidr}
use docker.Netlink.Route.{nl_add_addr, address_request}
use docker.Netlink.Wait.{polls, Outcome, wait_for_interface-Outcome}
use docker.Netlink.Link.{transact, nl_set_up, up_message, nl_rename_link, rename_request}
use docker.Netlink.Requests.{requests, requests_mute, requests-transact, is_mute, nl_socket-Mute}

-- From `t` to `u` one request was sent, and it is about the index that the kernel gave for a name in
-- between.
pub record SentFor (k : Kernel) (name : Bytes) (request : ℤ → Bytes) (t u : Trace) : Type 0 where
  pub index : ℤ
  pub known : nonzero index ≡ true
  pub asked_at : Trace
  pub given : index ≡ (k (length asked_at) (Call.if_nametoindex name)).ret
  pub unsent : requests asked_at ≡ requests t
  pub sent : requests u ≡ request index ∷ requests t

requests-polls : (name : Bytes) (n : ℕ) (t : Trace) → requests (polls name n t) ≡ requests t
requests-polls name zero t = refl
requests-polls name (suc n) t =
    requests-polls name n (Call.usleep 100000 ∷ Call.if_nametoindex name ∷ t)

-- A wait that sees the interface gives its index.
record Waited (k : Kernel) (name : Bytes) (t : Trace) (index : ℤ) (u : Trace) : Type 0 where
  asked_at : Trace
  given : index ≡ (k (length asked_at) (Call.if_nametoindex name)).ret
  unsent : requests asked_at ≡ requests t
  mute : requests u ≡ requests t

Outcome-Waited :
    {k : Kernel} {name : Bytes} {t : Trace} {result : ℤ} {t' : Trace}
    → Outcome k name 50 t result t'
    → nonzero result ≡ true
    → Waited k name t result t'
Outcome-Waited {name = name} {t = t} (Outcome.found n lt e r z) h = record {
  asked_at = polls name n t;
  given = r;
  unsent = requests-polls name n t;
  mute = ap requests e ∙ requests-polls name n t;
}
Outcome-Waited (Outcome.timed_out e r) h = absurd (cc)

abbrev pub rename_message : Bytes → ℤ → Bytes
rename_message newname idx =
    message MessageType.newlink (Flags.request + Flags.ack) 7 (rename_request idx newname)

abbrev pub add_message : Parsed → ℤ → Bytes
add_message p idx =
    message MessageType.newaddr (Flags.request + Flags.create + Flags.replace + Flags.ack) 3
      (address_request idx p.ip p.plen)

parse_cidr-Mute : (s : Bytes) → Only is_mute (parse_cidr s)
unfolding parse_cidr
parse_cidr-Mute s = search only_rules depth 40

module _ (k : Kernel) (t : Trace) where
  abbrev opened : ℤ × Trace
  opened = nl_socket k t

  opened_requests : requests opened.1 ≡ requests t
  opened_requests = requests_mute nl_socket k t nl_socket-Mute

  -- The exchange on that socket.
  behind_opened :
      (nlh : Bytes) (seq type : ℕ) (u : Trace)
      → requests u ≡ requests t
      → requests (transact opened.0 nlh seq type k u).1 ≡ nlh ∷ requests t
  behind_opened nlh seq type u e =
      requests-transact opened.0 nlh seq type k u ∙ ap (λ rs. nlh ∷ rs) e

  -- When a function succeeds that waits for an interface, sends one request about it, and may make other
  -- calls in between.
  after_wait-SentFor :
      (name : Bytes) (request : ℤ → Bytes) (u : Trace)
      → let w = wait_for_interface name 5000 k opened.1 in
        nonzero w.0 ≡ true → requests u ≡ request w.0 ∷ requests t → SentFor k name request t u
  after_wait-SentFor name request u seen sent =
      let w = wait_for_interface name 5000 k opened.1 in
      let waited = Outcome-Waited (wait_for_interface-Outcome 50 name k opened.1) seen in
      record {
        index = w.0;
        known = seen;
        asked_at = waited.asked_at;
        given = waited.given;
        unsent = waited.unsent ∙ opened_requests;
        sent = sent;
      }

  waited_requests :
      (name : Bytes)
      → nonzero (wait_for_interface name 5000 k opened.1).0 ≡ true
      → requests (wait_for_interface name 5000 k opened.1).1 ≡ requests t
  waited_requests name seen =
      (Outcome-Waited (wait_for_interface-Outcome 50 name k opened.1) seen).mute ∙ opened_requests

  pub nl_rename_link-SentFor :
      (oldname newname : Bytes)
      → is_neg (nl_rename_link oldname newname k t).0 ≡ false
      → SentFor k oldname (rename_message newname) t (nl_rename_link oldname newname k t).1
  unfolding nl_rename_link steps
  nl_rename_link-SentFor oldname newname h =
      let idx = (k (length opened.1) (Call.if_nametoindex oldname)).ret in
      elim (Bool-cases (is_neg opened.0)) [
        | inl shut ↦ absurd (ground (arith, h, shut))
        | inr open_ ↦ elim (Bool-cases (nonzero idx)) [
          | inr unknown ↦ absurd (ground (arith, h, open_, unknown))
          | inl known ↦ record {
            index = idx;
            known = known;
            asked_at = opened.1;
            given = refl;
            unsent = opened_requests;
            sent =
                rw (open_, known)
                  (behind_opened (rename_message newname idx) 7 MessageType.newlink
                    (Call.if_nametoindex oldname ∷ opened.1) opened_requests);
          }
        ]
      ]

  pub nl_set_up-SentFor :
      (name : Bytes)
      → is_neg (nl_set_up name k t).0 ≡ false
      → SentFor k name up_message t (nl_set_up name k t).1
  unfolding nl_set_up steps
  nl_set_up-SentFor name h =
      let w = wait_for_interface name 5000 k opened.1 in
      elim (Bool-cases (is_neg opened.0)) [
        | inl shut ↦ absurd (ground (arith, h, shut))
        | inr open_ ↦ elim (Bool-cases (nonzero w.0)) [
          | inr unseen ↦ absurd (ground (arith, h, open_, unseen))
          | inl seen ↦
              rw (open_, seen)
                (after_wait-SentFor name up_message _ seen (
                  behind_opened (up_message w.0) 2 MessageType.newlink w.1
                    (waited_requests name seen)))
        ]
      ]

  -- The address is one that `parse_cidr` took from the text.
  pub nl_add_addr-SentFor :
      (name ip_cidr : Bytes)
      → is_neg (nl_add_addr name ip_cidr k t).0 ≡ false
      → (v : Trace) × (is_neg (parse_cidr ip_cidr k v).0.status ≡ false)
        × SentFor k name (add_message (parse_cidr ip_cidr k v).0) t (nl_add_addr name ip_cidr k t).1
  unfolding nl_add_addr steps
  nl_add_addr-SentFor name ip_cidr h =
      let w = wait_for_interface name 5000 k opened.1 in
      let p = parse_cidr ip_cidr k w.1 in
      elim (Bool-cases (is_neg opened.0)) [
        | inl shut ↦ absurd (ground (arith, h, shut))
        | inr open_ ↦ elim (Bool-cases (nonzero w.0)) [
          | inr unseen ↦ absurd (ground (arith, h, open_, unseen))
          | inl seen ↦ elim (Bool-cases (is_neg p.0.status)) [
            | inl bad ↦ absurd (ground (arith, h, open_, seen, bad))
            | inr good ↦ (
              w.1,
              good,
              rw (open_, seen, good)
                  (after_wait-SentFor name (add_message p.0) _ seen (
                    behind_opened (add_message p.0 w.0) 3 MessageType.newaddr p.1 (
                      requests_mute (parse_cidr ip_cidr) k w.1 (parse_cidr-Mute ip_cidr)
                      ∙ waited_requests name seen))),
            )
          ]
        ]
      ]
