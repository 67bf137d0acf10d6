-- ===== src/Barco/ExitRange.antt =====
-- The range of the exit code of `main`: a process keeps only eight bits of it.
use docker.Base.{ℕ, ◌<◌, ◌≡◌, ℤ, is_neg, to_ℕ, refl, false, some, ◌∷◌, arith}
use docker.Sys.{Kernel, Trace, Call, Block, steps}
use docker.Barco.Defs.{Args, Locals, Flow, next, cleanup, waiting, go_on}
use docker.Barco.Run.{await_exit, wait_exit, status_of, after_wait, Waited}
use docker.Barco.Main.{setup, body, finish, release, main, initial}
use docker.Barco.Tracking.{Ends, setup-Ends}

abbrev pub IsByte : ℤ → Type 0
IsByte code = (is_neg code ≡ false) × (to_ℕ code < 256)

status_of-IsByte : (w : ℕ) → status_of w < 256
unfolding status_of
status_of-IsByte w = ground arith

-- The code that a flow carries to `exit`.
abbrev Carries : Flow → Type 0
Carries (next l) = IsByte l.exitcode
Carries (cleanup l) = IsByte l.exitcode
Carries waiting = Unit {0}

after_wait-Carries : (l : Locals) (w : Waited) → IsByte l.exitcode → Carries (after_wait l w)
after_wait-Carries l (Waited.exited w) h = ground (arith, status_of-IsByte w)
after_wait-Carries l Waited.wait_failed h = (refl, omega arith)
after_wait-Carries l Waited.running h = tt

await_exit-Carries :
    (rounds : ℕ) (r : Flow) (k : Kernel) (t : Trace)
    → Ends r
    → Carries (go_on (await_exit rounds) r k t).0
unfolding await_exit steps
await_exit-Carries rounds (next l) k t ready =
    after_wait-Carries l (wait_exit rounds l.container_pid k t).0
      (rw (ready.unfailed) (refl, omega arith))
await_exit-Carries rounds (cleanup l) k t (tracked, e) = rw e (refl, omega arith)
await_exit-Carries rounds waiting k t h = absurd h

body-Carries :
    (rounds : ℕ) (args : Args) (k : Kernel) (t : Trace)
    → Carries (body rounds args (initial args) k t).0
unfolding body steps
body-Carries rounds args k t =
    await_exit-Carries rounds (setup args (initial args) k t).0 k (setup args (initial args) k t).1
      (setup-Ends args k t)

finish-Carries :
    (r : Flow) (code : ℤ) (k : Kernel) (t : Trace)
    → Carries r
    → (finish r k t).0 ≡ some code
    → IsByte code
unfolding finish release steps
finish-Carries (next l) code k t h e = ground arith
finish-Carries (cleanup l) code k t h e = ground arith
finish-Carries waiting code k t h e = ground arith

-- Whatever fails and however the container ends, a run of `main` that returns has an exit code from
-- 0 to 255: the code that the caller of the program sees is the one that `main` computed.
pub main-IsByte :
    (rounds : ℕ) (args : Args) (code : ℤ) (k : Kernel) (t : Trace)
    → (main rounds args k t).0 ≡ some code
    → IsByte code
unfolding main release steps
main-IsByte rounds args code k t e =
    let r = body rounds args (initial args) k (Call.calloc Block.config ∷ t) in
    ground (
      arith,
      body-Carries rounds args k (Call.calloc Block.config ∷ t),
      finish-Carries r.0 code k r.1,
    )
