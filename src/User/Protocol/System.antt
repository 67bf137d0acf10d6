-- ===== src/User/Protocol/System.antt =====
-- Both ends of the handshake at once, joined by the socket pair.
use docker.Base.{ℕ, suc, ◌≡◌, ◌^◌, ℤ, wrap, Bool, true, false, List, [], ◌∷◌, ◌++◌, some, none, ◌⊎◌}
use docker.User.Protocol.{
  Event, receive, send, map, unshare, switch, ParentState, ChildState, parent_next, child_next,
}

-- Where both ends are, the words on their way to either, and whether the maps are written.
pub record System : Type 0 where
  pub parent : ParentState
  pub child : ChildState
  pub up : List ℕ
  pub down : List ℕ
  pub mapped : Bool

abbrev pub init : System
init = record {
  parent = ParentState.listening;
  child = ChildState.starting;
  up = [];
  down = [];
  mapped = false;
}

-- What a write of an int puts into the pair: the whole word, or nothing.
abbrev pub delivered : ℤ → Bool → List ℕ
delivered x true = wrap (2 ^ 32) x ∷ []
delivered x false = []

abbrev pub ended_parent : ParentState → Bool
ended_parent ParentState.granted = true
ended_parent ParentState.gone = true
ended_parent _ = false

abbrev pub ended_child : ChildState → Bool
ended_child ChildState.entered = true
ended_child ChildState.dead = true
ended_child _ = false

abbrev pub is_gone : ParentState → Bool
is_gone ParentState.gone = true
is_gone _ = false

abbrev pub is_dead : ChildState → Bool
is_dead ChildState.dead = true
is_dead _ = false

-- A step of either end. A read brings nothing when the other end has given up and nothing is on its
-- way (the child's process has ended, or `main` stops the child), or, in a system that is `faulty`, at
-- any time.
pub data Step (faulty : Bool) (s t : System) : Type 0 where
  parent_maps :
      (b : Bool) (p : ParentState)
      → parent_next s.parent (map b) ≡ some p
      → t ≡ record s { parent = p; mapped = b }
      → Step faulty s t
  parent_sends :
      (x : ℤ) (b : Bool) (p : ParentState)
      → parent_next s.parent (send x b) ≡ some p
      → t ≡ record s { parent = p; down = s.down ++ delivered x b }
      → Step faulty s t
  parent_receives :
      (w : ℕ) (rest : List ℕ) (p : ParentState)
      → s.up ≡ w ∷ rest
      → parent_next s.parent (receive (some w)) ≡ some p
      → t ≡ record s { parent = p; up = rest }
      → Step faulty s t
  parent_loses :
      (p : ParentState)
      → (faulty ≡ true) ⊎ ((s.up ≡ []) × (is_dead s.child ≡ true))
      → parent_next s.parent (receive none) ≡ some p
      → t ≡ record s { parent = p }
      → Step faulty s t
  child_moves :
      (e : Event) (b : Bool) (c : ChildState)
      → (e ≡ unshare b) ⊎ (e ≡ switch b)
      → child_next s.child e ≡ some c
      → t ≡ record s { child = c }
      → Step faulty s t
  child_sends :
      (x : ℤ) (b : Bool) (c : ChildState)
      → child_next s.child (send x b) ≡ some c
      → t ≡ record s { child = c; up = s.up ++ delivered x b }
      → Step faulty s t
  child_receives :
      (w : ℕ) (rest : List ℕ) (c : ChildState)
      → s.down ≡ w ∷ rest
      → child_next s.child (receive (some w)) ≡ some c
      → t ≡ record s { child = c; down = rest }
      → Step faulty s t
  child_loses :
      (c : ChildState)
      → (faulty ≡ true) ⊎ ((s.down ≡ []) × (is_gone s.parent ≡ true))
      → child_next s.child (receive none) ≡ some c
      → t ≡ record s { child = c }
      → Step faulty s t

-- The states that are reached by so many steps.
pub data Reach (faulty : Bool) : ℕ → System → Type 0 where
  start : Reach faulty 0 init
  later : {n : ℕ} {s t : System} → Reach faulty n s → Step faulty s t → Reach faulty (suc n) t
