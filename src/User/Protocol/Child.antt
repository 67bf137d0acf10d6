-- ===== src/User/Protocol/Child.antt =====
-- `user_namespace_init` of src/user.c against the child's end of the protocol.
use docker.Base.{
  ℕ, ◌≡◌, refl, ℤ, pos, minus_one, is_neg, not, ◌==ℤ◌, ◌==◌, Bool, true, false, Bool-cases, inl,
  inr, ◌∷◌, [], length, get_u32, int_bytes, arith, none, Option,
}
use docker.Sys.{Kernel, Trace, Call, CloneFlag, steps}
use docker.User.{user_namespace_init, switch_ids}
use docker.User.Protocol.{ChildState, child_next, Run, here, next, heard}
use docker.User.Protocol.Event.{receive, send, unshare, switch}

-- How the state that a run ends in fits what the function returns.
abbrev pub ChildReturns : ChildState → ℤ → Type 0
ChildReturns ChildState.entered x = is_neg x ≡ false
ChildReturns ChildState.dead x = is_neg x ≡ true
ChildReturns _ x = ⊥

-- A run of the child's end that starts at `t` and ends at `out`.
abbrev pub ChildRun : ℕ → ℤ → Kernel → Trace → ℤ × Trace → Type 0
ChildRun uid fd k t out =
    (s : ChildState) × Run child_next (pos 0) fd uid k ChildState.starting t s out.1
    × ChildReturns s out.0

module _ (uid : ℕ) (fd : ℤ) (k : Kernel) (t : Trace) where
  abbrev t1 : Trace
  t1 = Call.unshare (CloneFlag.newuser ∷ []) ∷ t

  abbrev t2 : Trace
  t2 = Call.write fd (int_bytes (pos 0)) ∷ t1

  abbrev t3 : Trace
  t3 = Call.read fd 4 ∷ t2

  abbrev unshared : Bool
  unshared = not (is_neg (k (length t) (Call.unshare (CloneFlag.newuser ∷ []))).ret)

  abbrev sent : Bool
  sent = (k (length t1) (Call.write fd (int_bytes (pos 0)))).ret ==ℤ pos 4

  abbrev complete : Bool
  complete = (k (length t2) (Call.read fd 4)).ret ==ℤ pos 4

  abbrev word : ℕ
  word = get_u32 (k (length t2) (Call.read fd 4)).out 0

  abbrev message : Option ℕ
  message = heard (k (length t2) (Call.read fd 4))

  abbrev C : ChildState → Trace → Type 0
  C s u = Run child_next (pos 0) fd uid k ChildState.starting t s u

  child_fails_unshare : unshared ≡ false → user_namespace_init uid fd k t ≡ (minus_one, t1)
  unfolding user_namespace_init steps
  child_fails_unshare a = ground arith

  child_fails_send :
      unshared ≡ true → sent ≡ false → user_namespace_init uid fd k t ≡ (minus_one, t2)
  unfolding user_namespace_init steps
  child_fails_send a b = ground arith

  child_fails_read :
      unshared ≡ true
      → sent ≡ true
      → complete ≡ false
      → user_namespace_init uid fd k t ≡ (minus_one, t3)
  unfolding user_namespace_init steps
  child_fails_read a b c = ground arith

  child_refused :
      unshared ≡ true
      → sent ≡ true
      → complete ≡ true
      → (word == 0) ≡ false
      → user_namespace_init uid fd k t ≡ (minus_one, t3)
  unfolding user_namespace_init steps
  child_refused a b c w = ground arith

  child_switches :
      unshared ≡ true
      → sent ≡ true
      → complete ≡ true
      → (word == 0) ≡ true
      → user_namespace_init uid fd k t ≡ switch_ids uid k t3
  unfolding user_namespace_init steps
  child_switches a b c w = ground arith

  announcing : unshared ≡ true → C ChildState.announcing t1
  unfolding child_next
  announcing a = next (unshare unshared) here (rw a refl) (refl, refl)

  waiting : unshared ≡ true → sent ≡ true → C ChildState.waiting t2
  unfolding child_next
  waiting a b = next (send (pos 0) sent) (announcing a) (rw b refl) (refl, refl)

  switching :
      unshared ≡ true
      → sent ≡ true
      → complete ≡ true
      → (word == 0) ≡ true
      → C ChildState.switching t3
  unfolding child_next
  switching a b c w = next (receive message) (waiting a b) (rw (c, w) refl) (refl, refl)

  follows : ChildRun uid fd k t (user_namespace_init uid fd k t)
  unfolding child_next
  follows = elim (Bool-cases unshared) [
    | inr a ↦
        rw (child_fails_unshare a)
          (ChildState.dead, next (unshare unshared) here (rw a refl) (refl, refl), refl)
    | inl a ↦ elim (Bool-cases sent) [
      | inr b ↦
          rw (child_fails_send a b) (
            ChildState.dead,
            next (send (pos 0) sent) (announcing a) (rw b refl) (refl, refl),
            refl,
          )
      | inl b ↦ elim (Bool-cases complete) [
        | inr c ↦
            rw (child_fails_read a b c)
              (ChildState.dead, next (receive none) (waiting a b) refl (refl, rw c refl), refl)
        | inl c ↦ elim (Bool-cases (word == 0)) [
          | inr w ↦ rw (child_refused a b c w) (
            ChildState.dead,
            next (receive message) (waiting a b) (rw (c, w) refl) (refl, refl),
            refl,
          )
          | inl w ↦
              rw (child_switches a b c w) (elim (Bool-cases (is_neg (switch_ids uid k t3).0)) [
                | inr good ↦ (
                  ChildState.entered,
                  next (switch true) (switching a b c w) refl (refl, rw good refl),
                  good,
                )
                | inl bad ↦ (
                  ChildState.dead,
                  next (switch false) (switching a b c w) refl (refl, rw bad refl),
                  bad,
                )
              ])
        ]
      ]
    ]
  ]

-- On every kernel, the calls of `user_namespace_init` are a run of the child's end of the protocol from
-- its first state to a last one: the function returns a number that is not negative where that is
-- `entered`, and a negative one where it is `dead`.
pub user_namespace_init-ChildRun :
    (uid : ℕ) (fd : ℤ) (k : Kernel) (t : Trace)
    → ChildRun uid fd k t (user_namespace_init uid fd k t)
user_namespace_init-ChildRun uid fd k t = follows uid fd k t
