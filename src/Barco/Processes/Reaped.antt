-- ===== src/Barco/Processes/Reaped.antt =====
-- When a process that `main` of src/barco.c creates does not run on, by its trace: a wait for it gave its
-- status, or found no such child; it was sent SIGKILL; or it could not be signalled.
use docker.Base.{
  ℕ, ℤ, minus_one, nonzero, ◌==◌, ◌==ℤ◌, ◌≡◌, arith, [], ◌∷◌, length, Bool, true, false, not, ◌&&◌,
  ◌||◌, if◌then◌else◌,
}
use docker.Sys.{Kernel, Trace, M, Call, pure, ◌>>=◌, ◌>>◌, steps}
use docker.Sys.Alphabet.{Only, Only-keeps, Only-weaken}
use docker.Container.{container_init, container_stop}
use docker.Barco.Defs.{Locals, Flow, next, cleanup, waiting, failed, go_on, ◌>=>◌}
use docker.Barco.Run.{start_container}
use docker.Barco.Calls.{still_call, plain_call, plain_still}
use docker.Barco.Processes.{created, child}

-- The errors of waitpid(2) without options: EINTR is 4, and ECHILD, that there is no such child, is 10.
abbrev pub WaitErrors : Kernel → Type 0
WaitErrors k =
    (n : ℕ) (d : ℤ)
    → let reply = k n (Call.waitpid d) in
      (reply.ret ==ℤ minus_one) ≡ true → (reply.errno == 4 || reply.errno == 10) ≡ true

-- A wait that replies the process or ECHILD, SIGKILL, which is 9, or a signal that fails.
abbrev pub ends : Kernel → Trace → Call → ℤ → Bool
ends k t (Call.waitpid d) pid =
    let reply = k (length t) (Call.waitpid d) in
    (d ==ℤ pid) && ((reply.ret ==ℤ d) || ((reply.ret ==ℤ minus_one) && reply.errno == 10))
ends k t (Call.kill d signal) pid =
    (d ==ℤ pid) && (signal == 9 || nonzero (k (length t) (Call.kill d signal)).ret)
ends k t _ pid = false

unfoldable pub ended : Kernel → Trace → ℤ → Bool
ended k [] pid = false
ended k (c ∷ t) pid = ends k t c pid || ended k t pid

-- If the process was created, it has ended.
unfoldable pub reaped : Kernel → Trace → ℤ → Bool
unfolding child ended
reaped k t pid = not (child k t pid) || ended k t pid

-- The same, unless it is the process `own`.
unfoldable pub reaped_but : ℤ → Kernel → Trace → ℤ → Bool
unfolding reaped
reaped_but own k t pid = (own ==ℤ pid) || reaped k t pid

module _ (pid : ℤ) where
  pub still_reaped :
      (k : Kernel) (t : Trace) (c : Call)
      → still_call c ≡ true
      → reaped k t pid ≡ true
      → reaped k (c ∷ t) pid ≡ true
  unfolding reaped child created ended
  still_reaped k t c h r = ground arith

  still_reaped_but :
      (own : ℤ) (k : Kernel) (t : Trace) (c : Call)
      → still_call c ≡ true
      → reaped_but own k t pid ≡ true
      → reaped_but own k (c ∷ t) pid ≡ true
  unfolding reaped_but reaped child created ended
  still_reaped_but own k t c h r = ground arith

  -- What a part of `main` leaves behind.
  unfoldable pub Rest : Kernel → Flow → Trace → Type 0
  Rest k (next l) t = reaped_but l.container_pid k t pid ≡ true
  Rest k (cleanup l) t = reaped k t pid ≡ true
  Rest k waiting t = Unit {0}

  -- A program that may leave the process `own` only to a part that runs on.
  pub record Reaps (own : ℤ) (m : M Flow) : Type 0 where
    pub rest : (k : Kernel) (t : Trace) → reaped_but own k t pid ≡ true → Rest k (m k t).0 (m k t).1

  pub Reaps-next : (l : Locals) → Reaps l.container_pid (pure (next l))
  unfolding steps Rest
  Reaps-next l = record { rest = λ k t h. h }

  pub Reaps-if :
      (own : ℤ) (b : Bool) (m n : M Flow)
      → Reaps own m
      → Reaps own n
      → Reaps own (if b then m else n)
  Reaps-if own true m n p q = p
  Reaps-if own false m n p q = q

  pub Reaps-still :
      {A : Type 0} (own : ℤ) (m : M A) (f : A → M Flow)
      → Only plain_call m
      → ((a : A) → Reaps own (f a))
      → Reaps own (m >>= f)
  unfolding steps
  Reaps-still own m f o q = record {
    rest = λ k t h. (q (m k t).0).rest k (m k t).1 (
        Only-keeps (λ k t. reaped_but own k t pid ≡ true) m (still_reaped_but own)
          (Only-weaken plain_still o) k t h);
  }

  stop_reaps :
      (own : ℤ) (k : Kernel) (t : Trace)
      → reaped_but own k t pid ≡ true
      → reaped k (container_stop own k t).1 pid ≡ true
  unfolding container_stop steps reaped_but reaped child created ended
  stop_reaps own k t h = ground arith

  pub Reaps-stop : (own : ℤ) (l : Locals) → Reaps own (container_stop own >> pure (failed l))
  unfolding steps Rest
  Reaps-stop own l = record { rest = λ k t h. stop_reaps own k t h }

  pub start_container-Rest :
      (l : Locals) (k : Kernel) (t : Trace)
      → reaped k t pid ≡ true
      → Rest k (start_container l k t).0 (start_container l k t).1
  unfolding start_container container_init steps Rest reaped_but reaped child created ended
  start_container-Rest l k t h = ground arith

  -- A chain of parts, from variables and a trace on.
  pub record RestFrom (f : Locals → M Flow) (l : Locals) : Type 0 where
    pub from : (k : Kernel) (t : Trace) → reaped k t pid ≡ true → Rest k (f l k t).0 (f l k t).1

  pub RestFrom-seq :
      {f g : Locals → M Flow} {l : Locals}
      → RestFrom f l
      → ((l' : Locals) → Reaps l'.container_pid (g l'))
      → RestFrom (f >=> g) l
  unfolding steps Rest
  RestFrom-seq {f} {g} {l} p q = record {
    from = λ k t h. go k (f l k t).0 (f l k t).1 (p.from k t h);
  }
    where
      go :
          (k : Kernel) (r : Flow) (t : Trace)
          → Rest k r t
          → Rest k (go_on g r k t).0 (go_on g r k t).1
      go k (next l') t h = (q l').rest k t h
      go k (cleanup l') t h = h
      go k waiting t h = tt

  -- The parts before the process, and its creation.
  pub create-RestFrom :
      (f : Locals → M Flow)
      → ((l : Locals) → Only still_call (f l))
      → (l : Locals) → RestFrom (f >=> start_container) l
  unfolding steps Rest
  create-RestFrom f o l = record {
    from = λ k t h.
        go k (f l k t).0 (f l k t).1
          (Only-keeps (λ k t. reaped k t pid ≡ true) (f l) (still_reaped) (o l) k t h);
  }
    where
      go :
          (k : Kernel) (r : Flow) (t : Trace)
          → reaped k t pid ≡ true
          → Rest k (go_on start_container r k t).0 (go_on start_container r k t).1
      go k (next l') t h = start_container-Rest l' k t h
      go k (cleanup l') t h = h
      go k waiting t h = tt
