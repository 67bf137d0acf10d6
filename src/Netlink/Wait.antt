-- ===== src/Netlink/Wait.antt =====
-- The polling loop of `wait_for_interface`.
use docker.Base.{
  ℕ, zero, suc, ◌+◌, ◌*◌, ◌≤◌, ◌<◌, ◌≡◌, refl, ℤ, pos, nonzero, true, ◌∷◌, Bytes, length, arith,
  lt→ltb, Bool-cases, inl, inr,
}
use docker.Sys.{Kernel, Trace, Call, steps}
use docker.Netlink.Socket.{wait_loop, wait_for_interface}

-- The trace after `n` rounds in vain.
abbrev pub polls : Bytes → ℕ → Trace → Trace
polls name zero t = t
polls name (suc n) t = polls name n (Call.usleep 100000 ∷ Call.if_nametoindex name ∷ t)

-- How the wait ends: with the index that a poll saw after `n` rounds in vain, or with 0 after all
-- `rounds` of them.
pub data Outcome (k : Kernel) (name : Bytes) (rounds : ℕ) (t : Trace) (result : ℤ) (t' : Trace)
    : Type 0 where
  found :
      (n : ℕ)
      → n < rounds
      → t' ≡ Call.if_nametoindex name ∷ polls name n t
      → result ≡ (k (length (polls name n t)) (Call.if_nametoindex name)).ret
      → nonzero result ≡ true
      → Outcome k name rounds t result t'
  timed_out : t' ≡ polls name rounds t → result ≡ pos 0 → Outcome k name rounds t result t'

Outcome-suc :
    {k : Kernel} {name : Bytes} {rounds : ℕ} {t : Trace} {result : ℤ} {t' : Trace}
    → Outcome k name rounds (Call.usleep 100000 ∷ Call.if_nametoindex name ∷ t) result t'
    → Outcome k name (suc rounds) t result t'
Outcome-suc (found n lt e r z) = found (suc n) (omega arith) e r z
Outcome-suc (timed_out e r) = timed_out e r

wait_loop-Outcome :
    (rounds fuel waited timeout_ms : ℕ) (name : Bytes) (k : Kernel) (t : Trace)
    → rounds ≤ fuel
    → timeout_ms ≡ waited + 100 * rounds
    → Outcome k name rounds t
        (wait_loop fuel name timeout_ms waited k t).0
        (wait_loop fuel name timeout_ms waited k t).1
unfolding wait_loop steps
wait_loop-Outcome zero zero waited timeout_ms name k t le e = timed_out refl refl
wait_loop-Outcome zero (suc fuel) waited timeout_ms name k t le e =
    timed_out (ground arith) (ground arith)
wait_loop-Outcome (suc rounds) zero waited timeout_ms name k t le e = absurd (omega arith)
wait_loop-Outcome (suc rounds) (suc fuel) waited timeout_ms name k t le e =
    elim (Bool-cases (nonzero (k (length t) (Call.if_nametoindex name)).ret)) [
      | inl seen ↦ found 0 (omega arith) (ground arith) (ground arith) (ground arith)
      | inr unseen ↦
          rw (lt→ltb waited timeout_ms (omega arith), unseen)
            (Outcome-suc (
              wait_loop-Outcome rounds fuel (waited + 100) timeout_ms name k _ (omega arith)
                (omega arith)))
    ]

-- A wait of `rounds` times 100 ms ends with the index that some poll saw, at once when it saw it, or
-- with 0 after exactly `rounds` polls and as many sleeps: it always ends.
pub wait_for_interface-Outcome :
    (rounds : ℕ) (name : Bytes) (k : Kernel) (t : Trace)
    → let r = wait_for_interface name (100 * rounds) k t in Outcome k name rounds t r.0 r.1
unfolding wait_for_interface
wait_for_interface-Outcome rounds name k t =
    wait_loop-Outcome rounds (100 * rounds) 0 (100 * rounds) name k t (omega arith) (omega arith)
