-- ===== src/User/Protocol/Safety.antt =====
-- What the reachable states of the handshake promise.
use docker.Base.{
  ℕ, ◌+◌, ◌≤◌, ◌<◌, ◌≡◌, refl, pos, minus_one, Bool, true, false, ◌&&◌, List, [], ◌∷◌, ◌⊎◌, inl,
  inr, arith,
}
use docker.User.Protocol.{unshare, switch, ParentState, ChildState, parent_next, child_next}
use docker.User.Protocol.System.{
  System, Step, Reach, ended_parent, ended_child, parent_maps, parent_sends, parent_receives,
  parent_loses, child_moves, child_sends, child_receives, child_loses, start, later,
}
use docker.User.Protocol.Invariant.{Inv, Inv-init, Step-Inv}

pub Reach-Inv : {faulty : Bool} {n : ℕ} {s : System} → Reach faulty n s → Inv s
Reach-Inv start = Inv-init
Reach-Inv (later r st) = Step-Inv st (Reach-Inv r)

-- In whatever order the two ends run, and whatever fails, a child that has entered its user namespace
-- has its maps written, by a parent that has granted it.
pub entered_is_mapped :
    {faulty : Bool} {n : ℕ} {s : System}
    → Reach faulty n s
    → s.child ≡ ChildState.entered
    → (s.mapped ≡ true) × (s.parent ≡ ParentState.granted)
entered_is_mapped r e = ground (arith, Reach-Inv r)

-- A step that a state has, unless both ends have ended.
abbrev pub Moves : System → Type 0
Moves s = ((ended_parent s.parent && ended_child s.child) ≡ true) ⊎ ((t : System) × Step false s t)

Inv-Moves :
    (p : ParentState) (c : ChildState) (up down : List ℕ) (mapped : Bool)
    → Inv (record { parent = p; child = c; up = up; down = down; mapped = mapped })
    → Moves (record { parent = p; child = c; up = up; down = down; mapped = mapped })
unfolding parent_next child_next
Inv-Moves ParentState.mapping c up down m h =
    inr (_, parent_maps true ParentState.granting refl refl)
Inv-Moves ParentState.granting c up down m h =
    inr (_, parent_sends (pos 0) true ParentState.granted refl refl)
Inv-Moves ParentState.refusing c up down m h =
    inr (_, parent_sends minus_one true ParentState.gone refl refl)
Inv-Moves ParentState.listening c (w ∷ up) down m h = inr (_, parent_receives w up _ refl refl refl)
Inv-Moves p ChildState.starting up down m h =
    inr (_, child_moves (unshare true) true ChildState.announcing (inl refl) refl refl)
Inv-Moves p ChildState.announcing up down m h =
    inr (_, child_sends (pos 0) true ChildState.waiting refl refl)
Inv-Moves p ChildState.switching up down m h =
    inr (_, child_moves (switch true) true ChildState.entered (inr refl) refl refl)
Inv-Moves p ChildState.waiting up (w ∷ down) m h = inr (_, child_receives w down _ refl refl refl)
Inv-Moves ParentState.listening ChildState.dead [] down m h =
    inr (_, parent_loses ParentState.gone (inr (refl, refl)) refl refl)
Inv-Moves ParentState.gone ChildState.waiting up [] m h =
    inr (_, child_loses ChildState.dead (inr (refl, refl)) refl refl)
Inv-Moves ParentState.granted ChildState.entered up down m h = inl refl
Inv-Moves ParentState.granted ChildState.dead up down m h = inl refl
Inv-Moves ParentState.gone ChildState.entered up down m h = inl refl
Inv-Moves ParentState.gone ChildState.dead up down m h = inl refl
Inv-Moves ParentState.listening ChildState.waiting [] [] m h = absurd (ground (arith, h.waits))
Inv-Moves ParentState.granted ChildState.waiting up [] m h = absurd (ground (arith, h.waits))
Inv-Moves ParentState.listening ChildState.entered [] down m h =
    absurd (ground (arith, h.grant_first))

-- The handshake does not deadlock: where no read fails but after the other end has given up,
-- every reachable state has a step, unless both ends have ended.
pub handshake_progress : {n : ℕ} {s : System} → Reach false n s → Moves s
handshake_progress {s = s} r = Inv-Moves s.parent s.child s.up s.down s.mapped (Reach-Inv r)

abbrev pub parent_rank : ParentState → ℕ
parent_rank ParentState.listening = 3
parent_rank ParentState.mapping = 2
parent_rank ParentState.granting = 1
parent_rank ParentState.refusing = 1
parent_rank _ = 0

abbrev pub child_rank : ChildState → ℕ
child_rank ChildState.starting = 4
child_rank ChildState.announcing = 3
child_rank ChildState.waiting = 2
child_rank ChildState.switching = 1
child_rank _ = 0

Step-rank :
    {faulty : Bool} {s t : System}
    → Step faulty s t
    → parent_rank t.parent + child_rank t.child < parent_rank s.parent + child_rank s.child
unfolding parent_next child_next
Step-rank (parent_maps b p e q) = ground arith
Step-rank (parent_sends x b p e q) = ground arith
Step-rank (parent_receives w rest p u e q) = ground arith
Step-rank (parent_loses p c e q) = ground arith
Step-rank (child_moves ev b c m e q) = ground arith
Step-rank (child_sends x b c e q) = ground arith
Step-rank (child_receives w rest c u e q) = ground arith
Step-rank (child_loses c l e q) = ground arith

-- The handshake ends: in whatever order the two ends run and whatever fails, they make seven steps in
-- all at most.
pub handshake_ends : {faulty : Bool} {n : ℕ} {s : System} → Reach faulty n s → n ≤ 7
handshake_ends {n = n} {s = s} r = omega (arith, go r)
  where
    go :
        {faulty : Bool} {n : ℕ} {s : System}
        → Reach faulty n s
        → n + (parent_rank s.parent + child_rank s.child) ≤ 7
    go start = omega arith
    go (later r st) = omega (arith, go r, Step-rank st)
