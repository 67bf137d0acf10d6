-- ===== src/Barco/Carry.antt =====
-- What the parts of `main` in src/barco.c carry on from one to the next, and to its label `cleanup`.
use docker.Base.{◌≡◌, Bool, true, false, ℤ, pos, Option, some, if◌then◌else◌}
use docker.Sys.{Kernel, Trace, M, pure, steps}
use docker.Barco.Defs.{Locals, Flow, next, cleanup, waiting, go_on, ◌>=>◌}

-- Of the variables and the trace, `P` holds where `main` runs on, and `E` where it goes to `cleanup`.
module _ (k : Kernel) (P E : Locals → Trace → Type 0) where
  abbrev pub Lands : Flow → Trace → Type 0
  Lands (next l) t = P l t
  Lands (cleanup l) t = E l t
  Lands waiting t = Unit {0}

  pub record Carries (f : Locals → M Flow) : Type 0 where
    pub carry : (l : Locals) (t : Trace) → P l t → Lands (f l k t).0 (f l k t).1

  -- The same from given variables and a given trace on.
  pub record CarriesFrom (l : Locals) (t : Trace) (f : Locals → M Flow) : Type 0 where
    pub from : Lands (f l k t).0 (f l k t).1

  go_on-Lands :
      {g : Locals → M Flow} (r : Flow) (t : Trace)
      → Carries g
      → Lands r t
      → Lands (go_on g r k t).0 (go_on g r k t).1
  unfolding steps
  go_on-Lands (next l) t p h = p.carry l t h
  go_on-Lands (cleanup l) t p h = h
  go_on-Lands waiting t p h = h

  pub CarriesFrom-seq :
      {l : Locals} {t : Trace} {f g : Locals → M Flow}
      → CarriesFrom l t f
      → Carries g
      → CarriesFrom l t (f >=> g)
  unfolding steps
  CarriesFrom-seq {l} {t} {f} p r = record { from = go_on-Lands (f l k t).0 (f l k t).1 r p.from }

-- The ways that `main` takes behind `calloc`.
pub branches :
    (P : Trace → Type 0) (failed wrong help : Bool) (m n run : M (Option ℤ)) (code : ℤ) (k : Kernel)
    (u : Trace)
    → P u
    → P (m k u).1
    → P (n k u).1
    → ((run k u).0 ≡ some code → P (run k u).1)
    → let r =
        (if failed then pure (some (pos 1)) else if wrong then m else if help then n else run) k
          u in
      r.0 ≡ some code → P r.1
unfolding steps
branches P true wrong help m n run code k u h hm hn hr e = h
branches P false true help m n run code k u h hm hn hr e = hm
branches P false false true m n run code k u h hm hn hr e = hn
branches P false false false m n run code k u h hm hn hr e = hr e
