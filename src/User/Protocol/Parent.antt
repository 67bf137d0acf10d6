-- ===== src/User/Protocol/Parent.antt =====
-- `user_namespace_prepare_mappings` of src/user.c against the parent's end of the protocol.
use docker.Base.{
  ℕ, ◌≡◌, refl, ℤ, pos, minus_one, ◌==ℤ◌, ◌==◌, Bool, true, false, Bool-cases, inl, inr, ◌∷◌,
  length, get_u32, int_bytes, none, Option, if◌then◌else◌,
}
use docker.Sys.{Kernel, Trace, Call, steps}
use docker.User.{map_ids, user_namespace_prepare_mappings}
use docker.User.Protocol.{ParentState, parent_next, Run, here, next, heard}
use docker.User.Protocol.Event.{receive, send, map}

-- How the state that a run ends in fits what the function returns.
abbrev pub ParentReturns : ParentState → ℤ → Type 0
ParentReturns ParentState.granted x = x ≡ pos 0
ParentReturns ParentState.gone x = x ≡ minus_one
ParentReturns _ x = ⊥

-- A run of the parent's end that starts at `t` and ends at `out`.
abbrev pub ParentRun : ℤ → ℤ → Kernel → Trace → ℤ × Trace → Type 0
ParentRun pid fd k t out =
    (s : ParentState) × Run parent_next pid fd 0 k ParentState.listening t s out.1
    × ParentReturns s out.0

module _ (pid fd : ℤ) (k : Kernel) (t : Trace) where
  abbrev message : Option ℕ
  message = heard (k (length t) (Call.read fd 4))

  abbrev word : ℕ
  word = get_u32 (k (length t) (Call.read fd 4)).out 0

  abbrev complete : Bool
  complete = (k (length t) (Call.read fd 4)).ret ==ℤ pos 4

  abbrev mapped : Bool × Trace
  mapped = map_ids pid k (Call.read fd 4 ∷ t)

  abbrev sent : ℤ → Trace → Bool
  sent x u = (k (length u) (Call.write fd (int_bytes x))).ret ==ℤ pos 4

  parent_lost :
      complete ≡ false
      → user_namespace_prepare_mappings pid fd k t ≡ (minus_one, Call.read fd 4 ∷ t)
  unfolding user_namespace_prepare_mappings steps
  parent_lost c = rw c refl

  parent_refuses :
      complete ≡ true
      → (word == 0) ≡ false
      → user_namespace_prepare_mappings pid fd k t
        ≡ (minus_one, Call.write fd (int_bytes minus_one) ∷ Call.read fd 4 ∷ t)
  unfolding user_namespace_prepare_mappings steps
  parent_refuses c w = rw (c, w) refl

  parent_unmapped :
      complete ≡ true
      → (word == 0) ≡ true
      → mapped.0 ≡ false
      → user_namespace_prepare_mappings pid fd k t
        ≡ (minus_one, Call.write fd (int_bytes minus_one) ∷ mapped.1)
  unfolding user_namespace_prepare_mappings steps
  parent_unmapped c w m = rw (c, w, m) refl

  parent_answers :
      complete ≡ true
      → (word == 0) ≡ true
      → mapped.0 ≡ true
      → user_namespace_prepare_mappings pid fd k t ≡ (
        if sent (pos 0) mapped.1 then pos 0 else minus_one,
        Call.write fd (int_bytes (pos 0)) ∷ mapped.1,
      )
  unfolding user_namespace_prepare_mappings steps
  parent_answers c w m = rw (c, w, m) refl

  abbrev P : ParentState → Trace → Type 0
  P s u = Run parent_next pid fd 0 k ParentState.listening t s u

  parent_listens_0 :
      complete ≡ true → (word == 0) ≡ true → P ParentState.mapping (Call.read fd 4 ∷ t)
  unfolding parent_next
  parent_listens_0 c w = next (receive message) here (rw (c, w) refl) (refl, refl)

  parent_listens_1 :
      complete ≡ true → (word == 0) ≡ false → P ParentState.refusing (Call.read fd 4 ∷ t)
  unfolding parent_next
  parent_listens_1 c w = next (receive message) here (rw (c, w) refl) (refl, refl)

  parent_gone :
      (u : Trace)
      → P ParentState.refusing u
      → P ParentState.gone (Call.write fd (int_bytes minus_one) ∷ u)
  unfolding parent_next
  parent_gone u r = next (send minus_one (sent minus_one u)) r refl (refl, refl)

  follows : ParentRun pid fd k t (user_namespace_prepare_mappings pid fd k t)
  unfolding parent_next
  follows = elim (Bool-cases complete) [
    | inr c ↦
        rw (parent_lost c) (ParentState.gone, next (receive none) here refl (refl, rw c refl), refl)
    | inl c ↦ elim (Bool-cases (word == 0)) [
      | inr w ↦
          rw (parent_refuses c w) (ParentState.gone, parent_gone _ (parent_listens_1 c w), refl)
      | inl w ↦ elim (Bool-cases mapped.0) [
        | inr m ↦ rw (parent_unmapped c w m) (
          ParentState.gone,
          parent_gone _ (next (map mapped.0) (parent_listens_0 c w) (rw m refl) (refl, refl)),
          refl,
        )
        | inl m ↦
            let granting : P ParentState.granting mapped.1 =
              next (map mapped.0) (parent_listens_0 c w) (rw m refl) (refl, refl) in
            elim (Bool-cases (sent (pos 0) mapped.1)) [
              | inl s ↦
                  rw (parent_answers c w m, s)
                    (
                      ParentState.granted,
                      next (send (pos 0) (sent (pos 0) mapped.1)) granting (rw s refl) (refl, refl),
                      refl,
                    )
              | inr s ↦
                  rw (parent_answers c w m, s)
                    (
                      ParentState.gone,
                      next (send (pos 0) (sent (pos 0) mapped.1)) granting (rw s refl) (refl, refl),
                      refl,
                    )
            ]
      ]
    ]
  ]

-- On every kernel, the calls of `user_namespace_prepare_mappings` are a run of the parent's end of the
-- protocol from its first state to a last one: the function returns 0 where that is `granted`, and -1
-- where it is `gone`.
pub user_namespace_prepare_mappings-ParentRun :
    (pid fd : ℤ) (k : Kernel) (t : Trace)
    → ParentRun pid fd k t (user_namespace_prepare_mappings pid fd k t)
user_namespace_prepare_mappings-ParentRun pid fd k t = follows pid fd k t
