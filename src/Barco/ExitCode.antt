-- ===== src/Barco/ExitCode.antt =====
-- The exit code of `main`.
use docker.Base.{
  ℕ, ◌+◌, ◌*◌, ◌%◌, arith, ◌<◌, minus_one, get_or, ◌≡◌, refl, ap, ◌∙◌, ℤ, pos, nonzero, true, false,
  ◌∷◌, length, some,
}
use docker.Sys.{Kernel, Trace, Call, Reply, Block, steps}
use docker.Barco.Defs.{Args, Locals, next, cleanup}
use docker.Barco.Run.{await_exit, wait_exit, status_of, exited}
use docker.Barco.Main.{setup, body, finish, release, main, initial}
use docker.Barco.MainLaws.{wait_exit_retries}
use docker.Barco.Tracking.{IsTracked, IsReady, setup-Ends}

-- What a wait status says, as wait(2) puts it, and the exit code that a shell makes of it: a process
-- that called exit left its code in the second byte over a zero byte, and one that a signal killed
-- left the signal in the low seven bits.
pub data Means : ℕ → ℕ → Type 0 where
  by_exit : (w code : ℕ) → code < 256 → w ≡ code * 256 → Means w code
  by_signal : (w signal : ℕ) → 0 < signal → signal < 127 → w % 128 ≡ signal → Means w (128 + signal)

status_of-Means : (w code : ℕ) → Means w code → status_of w ≡ code
unfolding status_of
status_of-Means _ _ (by_exit w code small e) = ground arith
status_of-Means _ _ (by_signal w signal some_signal small e) = ground arith

release_code : (code : ℤ) (k : Kernel) (t : Trace) → (release code k t).0 ≡ code
unfolding release steps
release_code code k t = refl

finish_cleanup :
    (l : Locals) (k : Kernel) (t : Trace) → (finish (cleanup l) k t).0 ≡ some l.exitcode
unfolding finish steps
finish_cleanup l k t = ap some (release_code l.exitcode k _)

main_valid :
    (rounds : ℕ) (args : Args) (k : Kernel) (t : Trace)
    → nonzero (k (length t) (Call.calloc Block.config)).ret ≡ true
    → args.errors ≡ 0
    → args.help ≡ false
    → let r = body rounds args (initial args) k (Call.calloc Block.config ∷ t) in
      main rounds args k t ≡ finish r.0 k r.1
unfolding main steps
main_valid rounds args k t calloc errors help = rw (calloc, errors, help)

body_of_cleanup :
    (rounds : ℕ) (args : Args) (l : Locals) (k : Kernel) (u : Trace)
    → (setup args (initial args) k u).0 ≡ cleanup l
    → (body rounds args (initial args) k u).0 ≡ cleanup l
unfolding body steps
body_of_cleanup rounds args l k u e = rw e

body_of_next :
    (rounds : ℕ) (args : Args) (l : Locals) (w : ℕ) (k : Kernel) (u : Trace)
    → (setup args (initial args) k u).0 ≡ next l
    → (wait_exit rounds l.container_pid k (setup args (initial args) k u).1).0 ≡ exited w
    → l.exitcode ≡ pos 0
    → (body rounds args (initial args) k u).0 ≡ cleanup (record l { exitcode = pos (status_of w) })
unfolding body await_exit steps
body_of_next rounds args l w k u e waited code = rw e (rw waited (rw code))

-- On a valid command line, if one of the parts 3 to 9 fails, `main` returns 1.
pub main_failed :
    (rounds : ℕ) (args : Args) (k : Kernel) (t : Trace) (l : Locals)
    → nonzero (k (length t) (Call.calloc Block.config)).ret ≡ true
    → args.errors ≡ 0
    → args.help ≡ false
    → (setup args (initial args) k (Call.calloc Block.config ∷ t)).0 ≡ cleanup l
    → (main rounds args k t).0 ≡ some (pos 1)
main_failed rounds args k t l calloc errors help e =
    let u = Call.calloc Block.config ∷ t in
    let ends : IsTracked l × (l.exitcode ≡ pos 1) = rw e at (setup-Ends args k u) in
    rw (main_valid rounds args k t calloc errors help, body_of_cleanup rounds args l k u e)
      (finish_cleanup l k _ ∙ ap some ends.1)

-- On a valid command line, if none of the parts 3 to 9 fails and the loop over `waitpid` ends with
-- a wait status, `main` returns what that status stands for.
pub main_exit_status :
    (rounds : ℕ) (args : Args) (k : Kernel) (t : Trace) (l : Locals) (w : ℕ)
    → nonzero (k (length t) (Call.calloc Block.config)).ret ≡ true
    → args.errors ≡ 0
    → args.help ≡ false
    → let u = Call.calloc Block.config ∷ t in
      (setup args (initial args) k u).0 ≡ next l
      → (wait_exit rounds l.container_pid k (setup args (initial args) k u).1).0 ≡ exited w
      → (main rounds args k t).0 ≡ some (pos (status_of w))
main_exit_status rounds args k t l w calloc errors help e waited =
    let u = Call.calloc Block.config ∷ t in
    let ready : IsReady l = rw e at (setup-Ends args k u) in
    rw
      (
        main_valid rounds args k t calloc errors help,
        body_of_next rounds args l w k u e waited ready.unfailed,
      )
      (finish_cleanup (record l { exitcode = pos (status_of w) }) k _)

-- On a valid command line, if none of the parts 3 to 9 fails, and `waitpid` is interrupted `n` times and
-- then gives the container's process with a wait status, `main` returns within `n + 1` rounds: the code
-- that the process called exit with, or 128 and the number of the signal that killed it.
pub main_returns_status :
    (n rounds pid code : ℕ) (args : Args) (k : Kernel) (t : Trace) (l : Locals)
    → nonzero (k (length t) (Call.calloc Block.config)).ret ≡ true
    → args.errors ≡ 0
    → args.help ≡ false
    → let v = (setup args (initial args) k (Call.calloc Block.config ∷ t)).1 in
      let wait : ℕ → Reply = λ i. k (length v + i) (Call.waitpid (pos pid)) in
      (setup args (initial args) k (Call.calloc Block.config ∷ t)).0 ≡ next l
      → l.container_pid ≡ pos pid
      → n < rounds
      → ((i : ℕ) → i < n → ((wait i).ret ≡ minus_one) × ((wait i).errno ≡ 4))
      → (wait n).ret ≡ pos pid
      → Means (get_or (wait n).out 0 0) code
      → (main rounds args k t).0 ≡ some (pos code)
main_returns_status n rounds pid code args k t l calloc errors help e own enough interrupted r
      means =
    let v = (setup args (initial args) k (Call.calloc Block.config ∷ t)).1 in
    let same = status_of-Means _ code means in
    rw (← same) (
      main_exit_status rounds args k t l _ calloc errors help e
        (rw own (wait_exit_retries n rounds pid k v enough interrupted r)))
