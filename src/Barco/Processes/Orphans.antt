-- ===== src/Barco/Processes/Orphans.antt =====
-- What becomes of the processes of a whole run of `main` in src/barco.c.
use docker.Base.{
  ℕ, zero, suc, ℤ, pos, ◌==ℤ◌, ◌==◌, Bytes, ◌≡◌, refl, arith, ◌∷◌, length, some, Bool, true, false,
  Bool-cases, inl, inr, if◌then◌else◌, Option, minus_one, ◌||◌, ◌&&◌,
}
use docker.Sys.{Kernel, Trace, M, Call, pure, sys_ret, ◌>>=◌, steps}
use docker.Sys.Alphabet.{Only, Only-keeps, Only-sys_ret, Only-pure, Only-bind}
use docker.Barco.Defs.{Args, Locals, Flow, next, cleanup, waiting, go_on}
use docker.Barco.Run.{move_link, move_interface, confine, wait_exit, await_exit, after_wait}
use docker.Barco.Main.{main, body, setup, finish, release, initial}
use docker.Barco.Calls.{
  plain_call, still_call, move_to_ns, user_namespace_prepare_mappings-Only, cgroups_init-Only,
}
use docker.Barco.Calls.Whole.{before_child-Part, finish-Only, release-Only}
use docker.Barco.Processes.{created, child}
use docker.Barco.Processes.Reaped.{
  RestFrom, RestFrom-seq, create-RestFrom, ended, reaped, reaped_but, still_reaped, Rest, Reaps,
  WaitErrors, Reaps-next, Reaps-if, Reaps-still, Reaps-stop,
}

call_Only : (c : Call) → plain_call c ≡ true → Only plain_call (sys_ret c)
call_Only c h = Only-sys_ret c h

ruleset reap_rules = (
  Reaps-next, Reaps-if, Reaps-still, Reaps-stop, call_Only, move_to_ns,
  user_namespace_prepare_mappings-Only, cgroups_init-Only, refl,
)

module _ (pid : ℤ) where
  move_link-Reaps :
      (veth_tmp : Bytes) (l : Locals) → Reaps pid l.container_pid (move_link veth_tmp l)
  unfolding move_link
  move_link-Reaps veth_tmp l = search reap_rules depth 40

  move_interface-Reaps : (l : Locals) → Reaps pid l.container_pid (move_interface l)
  unfolding move_interface
  move_interface-Reaps l = search (reap_rules, move_link-Reaps) depth 40

  confine-Reaps : (l : Locals) → Reaps pid l.container_pid (confine l)
  unfolding confine
  confine-Reaps l = search reap_rules depth 40

  waited_reaps :
      (own : ℤ) (k : Kernel) (t : Trace)
      → let reply = k (length t) (Call.waitpid own) in
        ((reply.ret ==ℤ own) || ((reply.ret ==ℤ minus_one) && reply.errno == 10)) ≡ true
        → reaped_but own k t pid ≡ true
        → reaped k (Call.waitpid own ∷ t) pid ≡ true
  unfolding reaped_but reaped child created ended
  waited_reaps own k t over h = ground arith

  waits_on :
      (own : ℤ) (k : Kernel) (t : Trace)
      → reaped_but own k t pid ≡ true
      → reaped_but own k (Call.waitpid own ∷ t) pid ≡ true
  unfolding reaped_but reaped child created ended
  waits_on own k t h = ground arith

  -- What the whole body leaves behind: it does not run on.
  Over : Kernel → Flow → Trace → Type 0
  Over k (next l) t = ⊥
  Over k (cleanup l) t = reaped k t pid ≡ true
  Over k waiting t = Unit {0}

  -- The loop over `waitpid` ends only behind a call that gives the process or finds no child.
  wait_exit_reaps :
      (rounds : ℕ) (l : Locals) (k : Kernel) (t : Trace)
      → WaitErrors k
      → reaped_but l.container_pid k t pid ≡ true
      → let (w, u) = wait_exit rounds l.container_pid k t in Over k (after_wait l w) u
  unfolding wait_exit steps Over
  wait_exit_reaps zero l k t errors h = tt
  wait_exit_reaps (suc rounds) l k t errors h =
      let own = l.container_pid in
      let u = Call.waitpid own ∷ t in
      let reply = k (length t) (Call.waitpid own) in
      let rest = wait_exit_reaps rounds l k u errors (waits_on own k t h) in
      elim (Bool-cases (reply.ret ==ℤ minus_one)) [
        | inl bad ↦ elim (Bool-cases (reply.errno == 4)) [
          | inl again ↦ rw (bad, again) rest
          | inr other ↦
              rw (bad, other)
                (waited_reaps own k t (ground (arith, errors (length t) own bad, other, bad)) h)
        ]
        | inr good ↦ elim (Bool-cases (reply.ret ==ℤ own)) [
          | inl same ↦ rw (good, same) (waited_reaps own k t (ground (arith, same)) h)
          | inr another ↦ rw (good, another) rest
        ]
      ]

  setup-RestFrom : (args : Args) (l : Locals) → RestFrom pid (setup args) l
  unfolding setup
  setup-RestFrom args l =
      RestFrom-seq pid
        (RestFrom-seq pid (create-RestFrom pid _ (before_child-Part args).on l)
          move_interface-Reaps)
        confine-Reaps

  body-Over :
      (rounds : ℕ) (args : Args) (l : Locals) (k : Kernel) (t : Trace)
      → WaitErrors k
      → reaped k t pid ≡ true
      → Over k (body rounds args l k t).0 (body rounds args l k t).1
  unfolding body await_exit steps Rest Over
  body-Over rounds args l k t errors h =
      go (setup args l k t).0 (setup args l k t).1 ((setup-RestFrom args l).from k t h)
    where
      go :
          (r : Flow) (u : Trace)
          → Rest pid k r u
          → Over k (go_on (await_exit rounds) r k u).0 (go_on (await_exit rounds) r k u).1
      go (next l') u h = wait_exit_reaps rounds l' k u errors h
      go (cleanup l') u h = h
      go waiting u h = tt

  still_keeps :
      {A : Type 0} (m : M A)
      → Only still_call m
      → (k : Kernel) (t : Trace) → reaped k t pid ≡ true
      → reaped k (m k t).1 pid ≡ true
  still_keeps m o = Only-keeps (λ k t. reaped k t pid ≡ true) m (still_reaped pid) o

  finish-Over :
      (r : Flow) (code : ℤ) (k : Kernel) (t : Trace)
      → Over k r t
      → (finish r k t).0 ≡ some code
      → reaped k (finish r k t).1 pid ≡ true
  unfolding Over
  finish-Over (next l) code k t h done = elim h [ ]
  finish-Over (cleanup l) code k t h done =
      still_keeps (finish (cleanup l)) (finish-Only (cleanup l)) k t h
  finish-Over waiting code k t h done = unfold finish steps in ground arith

  -- A program that, when it returns a code, leaves nothing behind.
  record Leaves (m : M (Option ℤ)) : Type 0 where
    leave :
        (k : Kernel) (t : Trace) (code : ℤ)
        → WaitErrors k
        → reaped k t pid ≡ true
        → (m k t).0 ≡ some code
        → reaped k (m k t).1 pid ≡ true

  still-Leaves : (m : M (Option ℤ)) → Only still_call m → Leaves m
  still-Leaves m o = record { leave = λ k t code errors h done. still_keeps m o k t h }

  Leaves-if : (b : Bool) (m n : M (Option ℤ)) → Leaves m → Leaves n → Leaves (if b then m else n)
  Leaves-if true m n p q = p
  Leaves-if false m n p q = q

  Leaves-still :
      {A : Type 0} (m : M A) (f : A → M (Option ℤ))
      → Only still_call m
      → ((a : A) → Leaves (f a))
      → Leaves (m >>= f)
  unfolding steps
  Leaves-still m f o q = record {
    leave = λ k t code errors h done.
        (q (m k t).0).leave k (m k t).1 code errors (still_keeps m o k t h) done;
  }

  run-Leaves :
      (rounds : ℕ) (args : Args) → Leaves (do flow ← body rounds args (initial args); finish flow)
  unfolding steps
  run-Leaves rounds args = record {
    leave = λ k t code errors h done.
        let r = body rounds args (initial args) k t in
        finish-Over r.0 code k r.1 (body-Over rounds args (initial args) k t errors h) done;
  }

  main-Leaves : (rounds : ℕ) (args : Args) → Leaves (main rounds args)
  unfolding main
  main-Leaves rounds args = Leaves-still _ _ (Only-sys_ret _ refl) λ config.
      Leaves-if _ _ _ (still-Leaves _ (Only-pure _))
        (Leaves-if _ _ _ (exits (pos 1)) (Leaves-if _ _ _ (exits (pos 0)) (run-Leaves rounds args)))
    where
      exits : (code : ℤ) → Leaves (release code >>= λ c. pure (some c))
      exits code = still-Leaves _ (Only-bind _ _ (release-Only code) λ c. Only-pure _)

-- If `waitpid` fails only as its manual says, interrupted or without a child to wait for, then `main`
-- leaves no process running when it returns: of each process that was created in the run, and had not
-- ended before, `waitpid` gave the status or found it no child, or it was sent SIGKILL, or a signal to
-- it has failed.
pub main_leaves_no_process :
    (rounds : ℕ) (args : Args) (code pid : ℤ) (k : Kernel) (t : Trace)
    → WaitErrors k
    → reaped k t pid ≡ true
    → (main rounds args k t).0 ≡ some code
    → reaped k (main rounds args k t).1 pid ≡ true
main_leaves_no_process rounds args code pid k t errors h done =
    (main-Leaves pid rounds args).leave k t code errors h done
