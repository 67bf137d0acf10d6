-- ===== src/Netlink/Create.antt =====
-- What `nl_create_veth` of src/netlink.c has seen when it reports success, and what it undoes.
use docker.Base.{ℕ, ◌<◌, ◌≡◌, ℤ, pos, is_neg, nonzero, true, false, Bytes, ◌∷◌, length, arith}
use docker.Sys.{Kernel, Trace, Call, steps}
use docker.Netlink.Message.{message, veth_request}
use docker.Netlink.Message.MessageType
use docker.Netlink.Link.{nl_create_veth, transact, create_flags}
use docker.Netlink.Socket.{nl_socket, wait_for_interface}
use docker.Netlink.Wait.{polls, Outcome, wait_for_interface-Outcome}

-- An interface was seen: the newest call is the poll that found it, after `n` rounds in vain, fewer
-- than fifty.
pub record Seen (k : Kernel) (name : Bytes) (t t' : Trace) : Type 0 where
  pub rounds : ℕ
  pub in_time : rounds < 50
  pub trace : t' ≡ Call.if_nametoindex name ∷ polls name rounds t
  pub index : nonzero (k (length (polls name rounds t)) (Call.if_nametoindex name)).ret ≡ true

Outcome-Seen :
    {k : Kernel} {name : Bytes} {t : Trace} {result : ℤ} {t' : Trace}
    → Outcome k name 50 t result t'
    → nonzero result ≡ true
    → Seen k name t t'
Outcome-Seen (Outcome.found n lt e r z) h = record {
  rounds = n;
  in_time = lt;
  trace = e;
  index = ground arith;
}
Outcome-Seen (Outcome.timed_out e r) h = absurd (cc)

wait-Seen :
    (name : Bytes) (k : Kernel) (t : Trace)
    → nonzero (wait_for_interface name 5000 k t).0 ≡ true
    → Seen k name t (wait_for_interface name 5000 k t).1
wait-Seen name k t h = Outcome-Seen (wait_for_interface-Outcome 50 name k t) h

-- The request and its answer, on a new socket.
abbrev pub asked : Bytes → Bytes → Kernel → Trace → ℤ × Trace
asked name1 name2 k t =
    let sock = nl_socket k t in
    transact sock.0 (message MessageType.newlink create_flags 1 (veth_request name1 name2)) 1
      MessageType.newlink k sock.1

first : Bytes → Bytes → Kernel → Trace → ℤ × Trace
first name1 name2 k t = wait_for_interface name1 5000 k (asked name1 name2 k t).1

second : Bytes → Bytes → Kernel → Trace → ℤ × Trace
unfolding first
second name1 name2 k t = wait_for_interface name2 5000 k (first name1 name2 k t).1

nl_create_veth_steps :
    (name1 name2 : Bytes) (k : Kernel) (t : Trace)
    → (nl_create_veth name1 name2 k t).0 ≡ pos 0
    → (is_neg (asked name1 name2 k t).0 ≡ false)
      × (nonzero (first name1 name2 k t).0 ≡ true)
      × (nonzero (second name1 name2 k t).0 ≡ true)
      × ((nl_create_veth name1 name2 k t).1 ≡ (second name1 name2 k t).1)
unfolding nl_create_veth first second steps
nl_create_veth_steps name1 name2 k t h = ground arith

-- When `nl_create_veth` returns 0, the request was answered without an error, and behind that the
-- first name was polled until its interface was seen, and then the second name: both interfaces are
-- there, and nothing was deleted.
pub nl_create_veth-Seen :
    (name1 name2 : Bytes) (k : Kernel) (t : Trace)
    → (nl_create_veth name1 name2 k t).0 ≡ pos 0
    → (is_neg (asked name1 name2 k t).0 ≡ false)
      × ((u : Trace) × Seen k name1 (asked name1 name2 k t).1 u
          × Seen k name2 u (nl_create_veth name1 name2 k t).1)
unfolding first second
nl_create_veth-Seen name1 name2 k t h =
    let (answered, one, two, e) = nl_create_veth_steps name1 name2 k t h in
    (
      answered,
      (
        (first name1 name2 k t).1,
        wait-Seen name1 k (asked name1 name2 k t).1 one,
        rw e (wait-Seen name2 k (first name1 name2 k t).1 two),
      ),
    )
