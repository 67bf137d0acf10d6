-- ===== src/Barco/Rounds.antt =====
-- The rounds of the wait for the container, an argument of the model of `main` in src/barco.c.
use docker.Base.{◌∷◌, ℕ, zero, suc, ◌≤◌, ◌≡◌, ◌⊎◌, refl, ℤ, some, arith, inl, inr}
use docker.Sys.{Kernel, Trace, Call, Block, steps}
use docker.Barco.Defs.{Args, Locals, Flow, next, cleanup, waiting, go_on}
use docker.Barco.Run.{running, wait_exit, await_exit}
use docker.Barco.Main.{main, setup, body, finish, initial}

wait_exit_more :
    (rounds more : ℕ) (pid : ℤ) (k : Kernel) (t : Trace)
    → rounds ≤ more
    → ((wait_exit rounds pid k t).0 ≡ running) ⊎ (wait_exit more pid k t ≡ wait_exit rounds pid k t)
unfolding wait_exit steps
wait_exit_more zero more pid k t h = inl refl
wait_exit_more (suc rounds) zero pid k t h = elim h [ ]
wait_exit_more (suc rounds) (suc more) pid k t h =
    ground (arith, wait_exit_more rounds more pid k (Call.waitpid pid ∷ t) (omega arith))

-- Two runs of a part: they agree, or the first is still waiting.
Agree : Flow × Trace → Flow × Trace → Type 0
Agree r s = (r.0 ≡ waiting) ⊎ (s ≡ r)

await_exit-Agree :
    (rounds more : ℕ) (l : Locals) (k : Kernel) (t : Trace)
    → rounds ≤ more
    → Agree (await_exit rounds l k t) (await_exit more l k t)
unfolding Agree await_exit steps
await_exit-Agree rounds more l k t h = elim (wait_exit_more rounds more l.container_pid k t h) [
  | inl r ↦ inl (rw r)
  | inr e ↦ inr (rw e)
]

body-Agree :
    (rounds more : ℕ) (args : Args) (l : Locals) (k : Kernel) (t : Trace)
    → rounds ≤ more
    → Agree (body rounds args l k t) (body more args l k t)
unfolding body steps Agree
body-Agree rounds more args l k t h = go (setup args l k t).0 (setup args l k t).1
  where
    go :
        (r : Flow) (u : Trace)
        → Agree (go_on (await_exit rounds) r k u) (go_on (await_exit more) r k u)
    go (next l) u = await_exit-Agree rounds more l k u h
    go (cleanup l) u = inr refl
    go waiting u = inl refl

finish-Agree :
    (r s : Flow × Trace) (code : ℤ) (k : Kernel)
    → Agree r s
    → (finish r.0 k r.1).0 ≡ some code
    → finish s.0 k s.1 ≡ finish r.0 k r.1
unfolding Agree finish steps
finish-Agree (next l, u) s code k (inl e) done = ground arith
finish-Agree (cleanup l, u) s code k (inl e) done = ground arith
finish-Agree (waiting, u) s code k (inl e) done = ground arith
finish-Agree r s code k (inr e) done = rw e

-- If `main` returns a code within so many rounds of `waitpid`, then it returns the same code by the same
-- calls however many more it is given.
pub main_more_rounds :
    (rounds more : ℕ) (args : Args) (code : ℤ) (k : Kernel) (t : Trace)
    → rounds ≤ more
    → (main rounds args k t).0 ≡ some code
    → main more args k t ≡ main rounds args k t
unfolding main steps
main_more_rounds rounds more args code k t h done = ground (
  arith,
  finish-Agree (body rounds args (initial args) k u) (body more args (initial args) k u) code k
      (body-Agree rounds more args (initial args) k u h),
)
  where
    u : Trace
    u = Call.calloc Block.config ∷ t
