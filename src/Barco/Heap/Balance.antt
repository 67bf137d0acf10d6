-- ===== src/Barco/Heap/Balance.antt =====
-- The heap blocks of a whole run of `main` in src/barco.c.
use docker.Base.{
  ltb, if◌then◌else◌, ℕ, ◌+◌, ◌≤◌, ℤ, pos, nonzero, ◌≡◌, refl, arith, ◌∷◌, length, Bool, true,
  false, Option, some, Bool-cases, inl, inr,
}
use docker.Sys.{Kernel, Trace, M, Call, Block, pure, ◌>>=◌, ◌>>◌, steps}
use docker.Sys.Descriptors.{indicator}
use docker.Barco.Defs.{Args, Locals, Flow, next, cleanup, waiting}
use docker.Barco.Main.{main, body, finish, release, initial, clean_up}
use docker.Barco.Heap.{same_block, allocated, freed, bound, Grown, GrownFlow}
use docker.Barco.Heap.Freed.{released, due, finish-Frees, release-Frees, body-GrowsFrom}

-- What is freed at the end covers what may have been allocated, and is no block twice.
covered :
    (b : Block) (l : Locals)
    → (indicator (same_block Block.config b) + bound b l ≤ due b l + released b)
      × (due b l + released b ≤ 1)
unfolding due released
covered Block.config l = (ground arith, ground arith)
covered Block.stack l = (ground arith, ground arith)
covered Block.veth_peer l = (ground arith, ground arith)
covered Block.veth_tmp l = (ground arith, ground arith)

released_once :
    (b : Block) → (indicator (same_block Block.config b) ≤ released b) × (released b ≤ 1)
unfolding released
released_once Block.config = (omega arith, omega arith)
released_once Block.stack = (omega arith, omega arith)
released_once Block.veth_peer = (omega arith, omega arith)
released_once Block.veth_tmp = (omega arith, omega arith)

module _ (b : Block) (k : Kernel) (t : Trace) where
  Balanced : Trace → Type 0
  Balanced u =
      (allocated k u b + freed t b ≤ allocated k t b + freed u b) × (freed u b ≤ freed t b + 1)

  -- Behind the allocation of the configuration.
  abbrev allocated_config : Trace
  allocated_config = Call.calloc Block.config ∷ t

  config_grows :
      (freed allocated_config b ≡ freed t b)
      × (allocated k allocated_config b ≤ allocated k t b + indicator (same_block Block.config b))
  unfolding allocated freed
  config_grows = (ground arith, ground arith)

  no_config_grows :
      nonzero (k (length t) (Call.calloc Block.config)).ret ≡ false → Balanced allocated_config
  unfolding allocated freed Balanced
  no_config_grows h = (ground arith, ground arith)

  exit_balances : (code : ℤ) → Balanced (release code k allocated_config).1
  unfolding Balanced
  exit_balances code =
      let f = (release-Frees b code).frees k allocated_config in
      (
        omega (arith, f, config_grows, released_once b),
        omega (arith, f, config_grows, released_once b),
      )

  ends-Balanced :
      (l : Locals) (u : Trace)
      → Grown b k allocated_config (bound b l) u
      → Balanced ((do clean_up l; code ← release l.exitcode; pure (some code)) k u).1
  unfolding Balanced
  ends-Balanced l u g =
      let f = (finish-Frees b l).frees k u in
      (
        omega (arith, f, g.unfreed, g.few, config_grows, covered b l),
        omega (arith, f, g.unfreed, g.few, config_grows, covered b l),
      )

  finish_balances :
      (r : Flow) (u : Trace) (code : ℤ)
      → GrownFlow b k allocated_config r u
      → (finish r k u).0 ≡ some code
      → Balanced (finish r k u).1
  unfolding GrownFlow finish
  finish_balances (next l) u code h e = ends-Balanced l u h
  finish_balances (cleanup l) u code h e = ends-Balanced l u h
  finish_balances waiting u code h e = unfold steps in ground arith

  body_grows :
      (rounds : ℕ) (args : Args)
      → let r = body rounds args (initial args) k allocated_config in
        GrownFlow b k allocated_config r.0 r.1
  body_grows rounds args =
      (body-GrowsFrom b rounds args).grows k allocated_config allocated_config
        (record { unfreed = refl; few = omega arith })

  Fair : M (Option ℤ) → Type 0
  Fair m = (code : ℤ) → (m k allocated_config).0 ≡ some code → Balanced (m k allocated_config).1

  Fair-if : (c : Bool) (m n : M (Option ℤ)) → Fair m → Fair n → Fair (if c then m else n)
  Fair-if true m n p q = p
  Fair-if false m n p q = q

  exit-Fair : (code : ℤ) → Fair (release code >>= λ c. pure (some c))
  unfolding Fair steps
  exit-Fair code code' done = exit_balances code

  run-Fair :
      (rounds : ℕ) (args : Args) → Fair (do flow ← body rounds args (initial args); finish flow)
  unfolding Fair steps
  run-Fair rounds args code done =
      let r = body rounds args (initial args) k allocated_config in
      finish_balances r.0 r.1 code (body_grows rounds args) done

  -- `main` behind a configuration that was allocated.
  parsed-Fair :
      (rounds : ℕ) (args : Args)
      → Fair (
          if ltb 0 args.errors
          then (release (pos 1) >>= λ c. pure (some c))
          else if args.help
          then (release (pos 0) >>= λ c. pure (some c))
          else do flow ← body rounds args (initial args); finish flow)
  parsed-Fair rounds args =
      Fair-if _ _ _ (exit-Fair (pos 1)) (Fair-if _ _ _ (exit-Fair (pos 0)) (run-Fair rounds args))

-- When `main` returns, each of the four blocks that it asks for itself (the configuration, the stack and
-- the two names of the pair) was freed in the run as often as it was allocated at least, and once at most:
-- none of the four is leaked, and none is freed twice. A free of NULL counts.
pub main_balances :
    (rounds : ℕ) (args : Args) (code : ℤ) (b : Block) (k : Kernel) (t : Trace)
    → (main rounds args k t).0 ≡ some code
    → let u = (main rounds args k t).1 in
      (allocated k u b + freed t b ≤ allocated k t b + freed u b) × (freed u b ≤ freed t b + 1)
unfolding main steps Balanced Fair
main_balances rounds args code b k t done =
    elim (Bool-cases (nonzero (k (length t) (Call.calloc Block.config)).ret)) [
      | inr null ↦ rw null (no_config_grows b k t null)
      | inl made ↦ rw made (parsed-Fair b k t rounds args code (rw made at done))
    ]
