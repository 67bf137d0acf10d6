-- ===== src/User/Protocol.antt =====
-- The handshake of src/user.c as a protocol: the states of each end, the events that move them, and
-- what an event is in calls.
pub mod Parent
pub mod Child
pub mod System
pub mod Invariant
pub mod Safety
use docker.Base.{
  ℕ, ◌≡◌, ◌≢◌, ◌==ℤ◌, ◌==◌, ℤ, pos, minus_one, is_neg, not, Bool, true, false, ◌∷◌, [], length,
  Option, none, some, get_u32, int_bytes, if◌then◌else◌,
}
use docker.Sys.{Kernel, Trace, Call, CloneFlag, Reply}
use docker.User.{map_ids, switch_ids}

-- An event of either end. A transfer that is not complete is `receive none` or `send x false`.
pub data Event : Type 0 where
  receive : Option ℕ → Event
  send : ℤ → Bool → Event
  map : Bool → Event
  unshare : Bool → Event
  switch : Bool → Event

pub data ParentState : Type 0 where
  listening mapping granting refusing granted gone : ParentState

pub data ChildState : Type 0 where
  starting announcing waiting switching entered dead : ChildState

-- Where an event takes the parent's end; `none` is an event that the state does not have.
unfoldable pub parent_next : ParentState → Event → Option ParentState
parent_next ParentState.listening (receive none) = some gone
parent_next ParentState.listening (receive (some w)) = some (if w == 0 then mapping else refusing)
parent_next ParentState.mapping (map b) = some (if b then granting else refusing)
parent_next ParentState.granting (send x b) =
    if x ==ℤ pos 0 then some (if b then granted else gone) else none
parent_next ParentState.refusing (send x b) = if x ==ℤ minus_one then some gone else none
parent_next _ _ = none

-- And the child's.
unfoldable pub child_next : ChildState → Event → Option ChildState
child_next ChildState.starting (unshare b) = some (if b then announcing else dead)
child_next ChildState.announcing (send x b) =
    if x ==ℤ pos 0 then some (if b then waiting else dead) else none
child_next ChildState.waiting (receive none) = some dead
child_next ChildState.waiting (receive (some w)) = some (if w == 0 then switching else dead)
child_next ChildState.switching (switch b) = some (if b then entered else dead)
child_next _ _ = none

-- What a read of an int brings.
abbrev pub heard : Reply → Option ℕ
heard r = if r.ret ==ℤ pos 4 then some (get_u32 r.out 0) else none

-- The calls of an event, by what the trace is before and after it: at the end `fd` of the socket pair,
-- for the process `pid` and the user `uid`.
abbrev pub Performs : ℤ → ℤ → ℕ → Kernel → Event → Trace → Trace → Type 0
Performs pid fd uid k (receive o) t t' =
    (t' ≡ Call.read fd 4 ∷ t) × (o ≡ heard (k (length t) (Call.read fd 4)))
Performs pid fd uid k (send x b) t t' =
    (t' ≡ Call.write fd (int_bytes x) ∷ t)
    × (b ≡ ((k (length t) (Call.write fd (int_bytes x))).ret ==ℤ pos 4))
Performs pid fd uid k (map b) t t' = (t' ≡ (map_ids pid k t).1) × (b ≡ (map_ids pid k t).0)
Performs pid fd uid k (unshare b) t t' =
    (t' ≡ Call.unshare (CloneFlag.newuser ∷ []) ∷ t)
    × (b ≡ not (is_neg (k (length t) (Call.unshare (CloneFlag.newuser ∷ []))).ret))
Performs pid fd uid k (switch b) t t' =
    (t' ≡ (switch_ids uid k t).1) × (b ≡ not (is_neg (switch_ids uid k t).0))

-- A run of one end: steps of its protocol, each performed by the calls between two traces.
pub data Run {S : Type 0} (next_state : S → Event → Option S) (pid fd : ℤ) (uid : ℕ) (k : Kernel)
    (s : S) (t : Trace) : S → Trace → Type 0 where
  here : Run next_state pid fd uid k s t s t
  next :
      {u v : S} {t' t'' : Trace} (e : Event)
      → Run next_state pid fd uid k s t u t'
      → next_state u e ≡ some v
      → Performs pid fd uid k e t' t''
      → Run next_state pid fd uid k s t v t''
