-- ===== src/Barco/Processes.antt =====
-- Which processes a trace of src/barco.c creates, signals and waits for.
pub mod Signals
pub mod Reaped
pub mod Orphans
use docker.Base.{
  ℤ, pos, negsuc, is_neg, ◌==ℤ◌, ◌≡◌, arith, [], ◌∷◌, length, Bool, true, false, not, ◌&&◌, ◌||◌,
}
use docker.Sys.{Kernel, Trace, Call}
use docker.Barco.Calls.{still_call}
use docker.Barco.Calls.Own.{own_call}

abbrev pub is_clone : Call → Bool
is_clone (Call.clone _) = true
is_clone _ = false

-- A call of clone(2) in the trace replied this process id.
unfoldable pub created : Kernel → Trace → ℤ → Bool
created k [] pid = false
created k (c ∷ t) pid = (is_clone c && (k (length t) c).ret ==ℤ pid) || created k t pid

-- A process id that can be signalled: no group of processes, and created before.
unfoldable pub child : Kernel → Trace → ℤ → Bool
unfolding created
child k t pid = not (is_neg pid) && created k t pid

abbrev pub signal_ok : Kernel → Trace → Call → Bool
signal_ok k t (Call.kill pid _) = child k t pid
signal_ok k t (Call.waitpid pid) = child k t pid
signal_ok k t _ = true

-- Every process that the trace signals or waits for was created by it.
unfoldable pub signals_own : Kernel → Trace → Bool
unfolding child
signals_own k [] = true
signals_own k (c ∷ t) = signal_ok k t c && signals_own k t

abbrev pub With : ℤ → Kernel → Trace → Type 0
With pid k t = (child k t pid ≡ true) × (signals_own k t ≡ true)

pub still_signals :
    (k : Kernel) (t : Trace) (c : Call)
    → still_call c ≡ true
    → signals_own k t ≡ true
    → signals_own k (c ∷ t) ≡ true
unfolding signals_own
still_signals k t c h s = ground arith

child_more :
    (k : Kernel) (t : Trace) (c : Call) (pid : ℤ)
    → child k t pid ≡ true
    → child k (c ∷ t) pid ≡ true
unfolding child created
child_more k t c pid h = ground arith

same_child :
    (k : Kernel) (t : Trace) (d pid : ℤ)
    → (d ==ℤ pid) ≡ true
    → child k t pid ≡ true
    → child k t d ≡ true
same_child k t (pos m) (pos n) h p = ground arith
same_child k t (negsuc m) (negsuc n) h p = ground arith
same_child k t (pos m) (negsuc n) h p = ground arith
same_child k t (negsuc m) (pos n) h p = ground arith

pub own_signals :
    (pid : ℤ) (k : Kernel) (t : Trace) (c : Call)
    → own_call pid c ≡ true
    → With pid k t
    → With pid k (c ∷ t)
unfolding signals_own
own_signals pid k t c h (p, s) = (child_more k t c pid p, go c h)
  where
    go : (c : Call) → own_call pid c ≡ true → signals_own k (c ∷ t) ≡ true
    go (Call.kill d signal) h = ground (arith, same_child k t d pid h p, s)
    go (Call.waitpid d) h = ground (arith, same_child k t d pid h p, s)
    go c h = ground (arith, s)
