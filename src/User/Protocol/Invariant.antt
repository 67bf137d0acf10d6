-- ===== src/User/Protocol/Invariant.antt =====
-- What every reachable state of the handshake has in common.
use docker.Base.{
  ℕ, ◌≡◌, Bool, true, false, not, ◌&&◌, ◌||◌, ◌==◌, List, [], ◌∷◌, arith, if◌then◌else◌,
}
use docker.User.Protocol.{ParentState, ChildState, parent_next, child_next}
use docker.User.Protocol.System.{
  System, Step, init, is_gone, parent_maps, parent_sends, parent_receives, parent_loses,
  child_moves, child_sends, child_receives, child_loses,
}

abbrev pub has_mapped : ParentState → Bool
has_mapped ParentState.granting = true
has_mapped ParentState.granted = true
has_mapped _ = false

abbrev pub is_granted : ParentState → Bool
is_granted ParentState.granted = true
is_granted _ = false

abbrev pub has_grant : ChildState → Bool
has_grant ChildState.switching = true
has_grant ChildState.entered = true
has_grant _ = false

abbrev pub has_started : ChildState → Bool
has_started ChildState.starting = false
has_started ChildState.announcing = false
has_started _ = true

abbrev pub is_waiting : ChildState → Bool
is_waiting ChildState.waiting = true
is_waiting _ = false

-- A parent that has heard nothing yet, or nothing at all.
abbrev pub is_idle : ParentState → Bool
is_idle ParentState.listening = true
is_idle ParentState.gone = true
is_idle _ = false

abbrev pub none_left : List ℕ → Bool
none_left [] = true
none_left (w ∷ ws) = false

-- At most one answer is on its way: a grant from a parent that has granted, a refusal from one that
-- is gone.
abbrev pub fits : ParentState → List ℕ → Bool
fits p [] = true
fits p (w ∷ []) = if w == 0 then is_granted p else is_gone p
fits p (w ∷ v ∷ ws) = false

-- What a waiting child relies on.
abbrev pub awaited : ParentState → List ℕ → List ℕ → Bool
awaited ParentState.listening up down = not (none_left up)
awaited ParentState.granted up down = not (none_left down)
awaited _ up down = true

pub record Inv (s : System) : Type 0 where
  pub maps_first : (not (has_mapped s.parent) || s.mapped) ≡ true
  pub grant_first : (not (has_grant s.child) || is_granted s.parent) ≡ true
  pub answer : fits s.parent s.down ≡ true
  pub quiet : (has_started s.child || (is_idle s.parent && none_left s.up)) ≡ true
  pub waits : (not (is_waiting s.child) || awaited s.parent s.up s.down) ≡ true

pub Inv-init : Inv init
Inv-init = ground arith

pub Step-Inv : {faulty : Bool} {s t : System} → Step faulty s t → Inv s → Inv t
unfolding parent_next child_next
Step-Inv (parent_maps b p e q) h = ground arith
Step-Inv (parent_sends x b p e q) h = ground arith
Step-Inv (parent_receives w rest p u e q) h = ground arith
Step-Inv (parent_loses p c e q) h = ground arith
Step-Inv (child_moves ev b c m e q) h = ground arith
Step-Inv (child_sends x b c e q) h = ground arith
Step-Inv (child_receives w rest c u e q) h = ground arith
Step-Inv (child_loses c l e q) h = ground arith
