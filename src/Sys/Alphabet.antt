-- ===== src/Sys/Alphabet.antt =====
-- Which calls a program makes: those that a test admits.
use docker.Base.{
  ℤ, ◌≡◌, refl, Bool, true, false, ◌&&◌, List, ◌∷◌, [], Option, none, some, if◌then◌else◌, length,
}
use docker.Sys.Defs.{Kernel, Trace, M, Call, pure, sys, sys_ret, ◌>>=◌, steps}

-- A trace that goes on from `t` by admitted calls.
pub data Extends (P : Call → Bool) (t : Trace) : Trace → Type 0 where
  same : Extends P t t
  more : {u : Trace} (c : Call) → P c ≡ true → Extends P t u → Extends P t (c ∷ u)

Extends-trans : {P : Call → Bool} {t u v : Trace} → Extends P t u → Extends P u v → Extends P t v
Extends-trans p same = p
Extends-trans p (more c h q) = more c h (Extends-trans p q)

pub record Only {A : Type 0} (P : Call → Bool) (m : M A) : Type 0 where
  pub only : (k : Kernel) (t : Trace) → Extends P t (m k t).1

module _ {A : Type 0} {P : Call → Bool} where
  pub Only-pure : (a : A) → Only P (pure a)
  unfolding steps
  Only-pure a = record { only = λ k t. same }

  pub Only-if : (b : Bool) (m n : M A) → Only P m → Only P n → Only P (if b then m else n)
  Only-if true m n p q = p
  Only-if false m n p q = q

module _ {P : Call → Bool} where
  pub Only-sys : (c : Call) → P c ≡ true → Only P (sys c)
  unfolding steps
  Only-sys c h = record { only = λ k t. more c h same }

  pub Only-sys_ret : (c : Call) → P c ≡ true → Only P (sys_ret c)
  unfolding steps
  Only-sys_ret c h = record { only = λ k t. more c h same }

module _ {A B : Type 0} {P : Call → Bool} where
  pub Only-bind : (m : M A) (f : A → M B) → Only P m → ((a : A) → Only P (f a)) → Only P (m >>= f)
  unfolding steps
  Only-bind m f p q = record {
    only = λ k t. Extends-trans (p.only k t) ((q (m k t).0).only k (m k t).1);
  }

pub ruleset only_rules = (Only-pure, Only-if, Only-sys, Only-sys_ret, Only-bind, refl)

pub Only-weaken :
    {A : Type 0} {P Q : Call → Bool} {m : M A}
    → ((c : Call) → P c ≡ true → Q c ≡ true)
    → Only P m
    → Only Q m
Only-weaken {P} {Q} {m = m} w o = record { only = λ k t. go (o.only k t) }
  where
    go : {t u : Trace} → Extends P t u → Extends Q t u
    go same = same
    go (more c h e) = more c (w c h) (go e)

-- Every call of the list is admitted.
abbrev pub admits : (Call → Bool) → List Call → Bool
admits P [] = true
admits P (c ∷ cs) = P c && admits P cs

-- What admitted calls keep, the program keeps.
pub Only-keeps :
    {A : Type 0} {P : Call → Bool} (Q : Kernel → Trace → Type 0) (m : M A)
    → ((k : Kernel) (t : Trace) (c : Call) → P c ≡ true → Q k t → Q k (c ∷ t))
    → Only P m
    → (k : Kernel) (t : Trace) → Q k t
    → Q k (m k t).1
Only-keeps {A} {P} Q m closed o k t q = go (o.only k t)
  where
    go : {u : Trace} → Extends P t u → Q k u
    go same = q
    go (more {u} c h e) = closed k u c h (go e)
