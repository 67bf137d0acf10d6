-- ===== src/Barco/Processes/Signals.antt =====
-- Whom `main` of src/barco.c signals and waits for.
use docker.Base.{ℕ, ℤ, pos, ◌≡◌, refl, ap, ◌∙◌, arith, some, if◌then◌else◌, Bool, true, false}
use docker.Sys.{Kernel, Trace, M, pure, ◌>>=◌, steps}
use docker.Sys.Alphabet.{Only, Only-keeps, Only-pure, Only-bind, Only-sys_ret}
use docker.Container.{container_init}
use docker.Barco.Defs.{Args, Locals, Flow, next, cleanup, waiting, go_on, ◌>=>◌}
use docker.Barco.Run.{
  Waited, exited, wait_failed, running, start_container, move_interface, confine, await_exit,
  after_wait, move_link,
}
use docker.Barco.Main.{main, body, setup, release, initial}
use docker.Barco.Calls.{still_call}
use docker.Barco.Calls.Own.{own_call, move_interface-Only, confine-Only, await_exit-Only}
use docker.Barco.Calls.Whole.{before_child-Part, finish-Only, release-Only}
use docker.Barco.Processes.{created, child, signals_own, With, still_signals, own_signals}

-- What a part leaves behind: where `main` runs on, the container's process is its own.
Left : Kernel → Flow → Trace → Type 0
Left k (next l) t = With l.container_pid k t
Left k (cleanup l) t = signals_own k t ≡ true
Left k waiting t = signals_own k t ≡ true

Left-signals : (k : Kernel) (r : Flow) (t : Trace) → Left k r t → signals_own k t ≡ true
unfolding Left
Left-signals k (next l) t h = h.1
Left-signals k (cleanup l) t h = h
Left-signals k waiting t h = h

-- A part that starts nothing: it keeps the variable `container_pid`.
SamePid : Locals → Flow → Type 0
SamePid l (next l') = l'.container_pid ≡ l.container_pid
SamePid l (cleanup l') = Unit {0}
SamePid l waiting = Unit {0}

Left-same :
    (k : Kernel) (l : Locals) (r : Flow) (t : Trace)
    → SamePid l r
    → With l.container_pid k t
    → Left k r t
unfolding Left SamePid
Left-same k l (next l') t e (p, s) = (ap (child k t) e ∙ p, s)
Left-same k l (cleanup l') t e (p, s) = s
Left-same k l waiting t e (p, s) = s

start_container-Left :
    (l : Locals) (k : Kernel) (t : Trace)
    → signals_own k t ≡ true
    → Left k (start_container l k t).0 (start_container l k t).1
unfolding Left start_container container_init steps signals_own child created
start_container-Left l k t s = ground (arith, s)

move_interface-SamePid : (l : Locals) (k : Kernel) (t : Trace) → SamePid l (move_interface l k t).0
unfolding SamePid move_interface move_link steps
move_interface-SamePid l k t = ground arith

confine-SamePid : (l : Locals) (k : Kernel) (t : Trace) → SamePid l (confine l k t).0
unfolding SamePid confine steps
confine-SamePid l k t = ground arith

after_wait-SamePid : (l : Locals) (w : Waited) → SamePid l (after_wait l w)
unfolding SamePid
after_wait-SamePid l (exited wstatus) = tt
after_wait-SamePid l wait_failed = tt
after_wait-SamePid l running = tt

await_exit-SamePid :
    (rounds : ℕ) (l : Locals) (k : Kernel) (t : Trace) → SamePid l (await_exit rounds l k t).0
unfolding await_exit steps
await_exit-SamePid rounds l k t = after_wait-SamePid l _

-- A part that may rely on what the parts before it left, and leaves the same.
record Carries (g : Locals → M Flow) : Type 0 where
  carry :
      (l : Locals) (k : Kernel) (t : Trace)
      → With l.container_pid k t
      → Left k (g l k t).0 (g l k t).1

carries :
    {g : Locals → M Flow}
    → ((l : Locals) → Only (own_call l.container_pid) (g l))
    → ((l : Locals) (k : Kernel) (t : Trace) → SamePid l (g l k t).0)
    → Carries g
carries {g} o same = record {
  carry = λ l k t h.
      Left-same k l (g l k t).0 (g l k t).1 (same l k t)
        (Only-keeps (With l.container_pid) (g l) (own_signals l.container_pid) (o l) k t h);
}

-- A chain of parts, from a trace on.
record LeavesFrom (f : Locals → M Flow) : Type 0 where
  leave :
      (l : Locals) (k : Kernel) (t : Trace)
      → signals_own k t ≡ true
      → Left k (f l k t).0 (f l k t).1

go_on-Left :
    {g : Locals → M Flow}
    → Carries g
    → (k : Kernel) (r : Flow) (t : Trace) → Left k r t
    → Left k (go_on g r k t).0 (go_on g r k t).1
unfolding steps Left
go_on-Left q k (next l) t h = q.carry l k t h
go_on-Left q k (cleanup l) t h = h
go_on-Left q k waiting t h = h

LeavesFrom-seq : {f g : Locals → M Flow} → LeavesFrom f → Carries g → LeavesFrom (f >=> g)
unfolding steps
LeavesFrom-seq {f} p q = record {
  leave = λ l k t s. go_on-Left q k (f l k t).0 (f l k t).1 (p.leave l k t s);
}

still_keeps :
    {A : Type 0} (m : M A)
    → Only still_call m
    → (k : Kernel) (t : Trace) → signals_own k t ≡ true
    → signals_own k (m k t).1 ≡ true
still_keeps m o = Only-keeps (λ k t. signals_own k t ≡ true) m still_signals o

create-LeavesFrom :
    (f : Locals → M Flow)
    → ((l : Locals) → Only still_call (f l))
    → LeavesFrom (f >=> start_container)
unfolding steps Left
create-LeavesFrom f o = record {
  leave = λ l k t s. go k (f l k t).0 (f l k t).1 (still_keeps (f l) (o l) k t s);
}
  where
    go :
        (k : Kernel) (r : Flow) (t : Trace)
        → signals_own k t ≡ true
        → Left k (go_on start_container r k t).0 (go_on start_container r k t).1
    go k (next l) t s = start_container-Left l k t s
    go k (cleanup l) t s = s
    go k waiting t s = s

body-LeavesFrom : (rounds : ℕ) (args : Args) → LeavesFrom (body rounds args)
unfolding body setup
body-LeavesFrom rounds args =
    LeavesFrom-seq
      (LeavesFrom-seq
        (LeavesFrom-seq (create-LeavesFrom _ (before_child-Part args).on)
          (carries move_interface-Only move_interface-SamePid))
        (carries confine-Only confine-SamePid))
      (carries (await_exit-Only rounds) (await_exit-SamePid rounds))

-- A program that signals only its own processes.
record Own {A : Type 0} (m : M A) : Type 0 where
  own : (k : Kernel) (t : Trace) → signals_own k t ≡ true → signals_own k (m k t).1 ≡ true

still-Own : {A : Type 0} (m : M A) → Only still_call m → Own m
still-Own m o = record { own = still_keeps m o }

Own-if : {A : Type 0} (b : Bool) (m n : M A) → Own m → Own n → Own (if b then m else n)
Own-if true m n p q = p
Own-if false m n p q = q

Own-bind : {A B : Type 0} (m : M A) (f : A → M B) → Own m → ((a : A) → Own (f a)) → Own (m >>= f)
unfolding steps
Own-bind m f p q = record { own = λ k t s. (q (m k t).0).own k (m k t).1 (p.own k t s) }

body-Own : (rounds : ℕ) (args : Args) (l : Locals) → Own (body rounds args l)
body-Own rounds args l = record {
  own = λ k t s.
      Left-signals k (body rounds args l k t).0 _ ((body-LeavesFrom rounds args).leave l k t s);
}

main-Own : (rounds : ℕ) (args : Args) → Own (main rounds args)
unfolding main
main-Own rounds args = Own-bind _ _ (still-Own _ (Only-sys_ret _ refl)) λ config.
    Own-if _ _ _ (still-Own _ (Only-pure _)) (
      Own-if _ _ _ (exits (pos 1)) (
        Own-if _ _ _ (exits (pos 0))
          (Own-bind _ _ (body-Own rounds args (initial args)) λ r. still-Own _ (finish-Only r))))
  where
    exits : (code : ℤ) → Own (release code >>= λ c. pure (some c))
    exits code = still-Own _ (Only-bind _ _ (release-Only code) λ c. Only-pure _)

-- Every process that `main` signals or waits for, on any path, is one that clone(2) made for it
-- before; in particular its number is not negative, so no group of processes is meant.
pub main-signals_own :
    (rounds : ℕ) (args : Args) (k : Kernel) (t : Trace)
    → signals_own k t ≡ true
    → signals_own k (main rounds args k t).1 ≡ true
main-signals_own rounds args k t s = (main-Own rounds args).own k t s
