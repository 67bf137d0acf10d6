-- ===== src/Sys/Descriptors.antt =====
-- Which descriptors a program leaves open: how often each was opened and closed in a run.
use docker.Base.{
  ℕ, ◌+◌, ◌≡◌, refl, ℤ, pos, negsuc, minus_one, is_neg, nonzero, ◌==ℤ◌, Bool, true, false, not,
  ◌&&◌, List, [], ◌∷◌, ◌++◌, length, get_or, arith, if◌then◌else◌, Bool-cases, inl, inr,
}
use docker.Sys.Defs.{Kernel, Trace, M, Call, Reply, pure, sys, sys_ret, ◌>>=◌, steps}

-- What a run must give back: a descriptor by its number, and a stream of popen(3) by its pointer.
pub data Handle : Type 0 where
  descriptor stream : ℕ → Handle

abbrev pub is_descriptor : ℤ → Handle → Bool
is_descriptor (negsuc m) fd = false
is_descriptor (pos m) (descriptor n) = pos m ==ℤ pos n
is_descriptor (pos m) (stream n) = false

-- NULL is no stream.
abbrev pub is_stream : ℤ → Handle → Bool
is_stream p (descriptor n) = false
is_stream p (stream n) = nonzero p && (p ==ℤ pos n)

-- The calls that give a new descriptor by their value.
abbrev pub opens_one : Call → Bool
opens_one (Call.open_file path mode) = true
opens_one Call.socket = true
opens_one _ = false

-- The calls that give new handles.
abbrev pub opens : Call → Bool
opens (Call.popen _) = true
opens Call.socketpair = true
opens c = opens_one c

abbrev pub indicator : Bool → ℕ
indicator true = 1
indicator false = 0

-- The two descriptors that `socketpair` stores, unless it fails.
abbrev pub paired : Reply → Handle → ℕ
paired r fd =
    if is_neg r.ret
    then 0
    else indicator (is_descriptor (pos (get_or r.out 0 0)) fd)
      + indicator (is_descriptor (pos (get_or r.out 1 0)) fd)

abbrev pub came_out : Call → Reply → Handle → ℕ
came_out Call.socketpair r fd = paired r fd
came_out (Call.popen _) r fd = indicator (is_stream r.ret fd)
came_out c r fd = indicator (opens_one c && is_descriptor r.ret fd)

-- How often the handle `fd` came out of a call.
abbrev pub opened : Kernel → Trace → Handle → ℕ
opened k [] fd = 0
opened k (c ∷ t) fd = came_out c (k (length t) c) fd + opened k t fd

none_out : (c : Call) (r : Reply) (fd : Handle) → opens c ≡ false → came_out c r fd ≡ 0
none_out c r fd h = ground arith

one_out :
    (c : Call) (r : Reply) (fd : Handle)
    → opens_one c ≡ true
    → came_out c r fd ≡ indicator (is_descriptor r.ret fd)
one_out c r fd h = ground arith

abbrev pub closes_one : Call → Handle → Bool
closes_one (Call.close d) fd = is_descriptor d fd
closes_one (Call.pclose p) fd = is_stream p fd
closes_one _ fd = false

-- How often it was closed.
abbrev pub closed : Trace → Handle → ℕ
closed [] fd = 0
closed (c ∷ t) fd = indicator (closes_one c fd) + closed t fd

abbrev pub times : List ℤ → Handle → ℕ
times [] fd = 0
times (d ∷ ds) fd = indicator (is_descriptor d fd) + times ds fd

-- A run closes what it opens, and besides that each descriptor of `owed` once.
pub record Settles {A : Type 0} (owed : List ℤ) (m : M A) : Type 0 where
  pub settled :
      (k : Kernel) (t : Trace) (fd : Handle)
      → opened k (m k t).1 fd + closed t fd + times owed fd ≡ closed (m k t).1 fd + opened k t fd

-- A call that neither opens nor closes anything.
abbrev pub Neutral : Call → Type 0
Neutral c = (opens c ≡ false) × ((fd : Handle) → closes_one c fd ≡ false)

module _ {A : Type 0} where
  pub Settles-pure : (a : A) → Settles [] (pure a)
  unfolding steps
  Settles-pure a = record { settled = λ k t fd. omega arith }

  pub Settles-if :
      {owed : List ℤ} {m n : M A} (b : Bool)
      → Settles owed m
      → Settles owed n
      → Settles owed (if b then m else n)
  Settles-if true p q = p
  Settles-if false p q = q

pub Settles-bind :
    {A B : Type 0} {owed : List ℤ} {m : M A} {f : A → M B}
    → Settles [] m
    → ((a : A) → Settles owed (f a))
    → Settles owed (m >>= f)
unfolding steps
Settles-bind {m = m} p q = record {
  settled = λ k t fd. omega (arith, p.settled k t fd, (q (m k t).0).settled k (m k t).1 fd);
}

pub Settles-sys : (c : Call) → Neutral c → Settles [] (sys c)
unfolding steps
Settles-sys c (p, q) = record {
  settled = λ k t fd. rw (none_out c (k (length t) c) fd p, q fd) (omega arith);
}

pub Settles-sys_ret : (c : Call) → Neutral c → Settles [] (sys_ret c)
unfolding steps
Settles-sys_ret c (p, q) = record {
  settled = λ k t fd. rw (none_out c (k (length t) c) fd p, q fd) (omega arith);
}

-- Closing what is owed, once it is closed by nothing behind it.
pub Settles-close :
    {A : Type 0} {f : ℤ → M A} (d : ℤ)
    → ((r : ℤ) → Settles [] (f r))
    → Settles (d ∷ []) (sys_ret (Call.close d) >>= f)
unfolding steps
Settles-close d q = record {
  settled = λ k t fd.
      omega (arith, (q ((k (length t) (Call.close d)).ret)).settled k (Call.close d ∷ t) fd);
}

-- A descriptor that fails the caller's test owes nothing.
abbrev pub Detects : (ℤ → Bool) → Type 0
Detects failed = (d : ℤ) (fd : Handle) → failed d ≡ true → is_descriptor d fd ≡ false

pub is_neg-Detects : Detects is_neg
is_neg-Detects (pos n) fd h = cc
is_neg-Detects (negsuc n) fd h = refl

pub eq_minus_one-Detects : Detects (λ d. d ==ℤ minus_one)
eq_minus_one-Detects (pos n) fd h = cc
eq_minus_one-Detects (negsuc n) fd h = refl

-- The two ways to go on behind an open.
pub Settles-branch :
    {A : Type 0} {n m : M A} (failed : ℤ → Bool) (d : ℤ)
    → Detects failed
    → Settles [] n
    → Settles (d ∷ []) m
    → Settles (d ∷ []) (if failed d then n else m)
Settles-branch failed d detects p q = elim (Bool-cases (failed d)) [
  | inl bad ↦ rw bad (record { settled = λ k t fd. rw (detects d fd bad) (p.settled k t fd) })
  | inr good ↦ rw good q
]

pub Settles-open :
    {A : Type 0} {f : ℤ → M A} (c : Call)
    → opens_one c ≡ true
    → ((fd : Handle) → closes_one c fd ≡ false)
    → ((d : ℤ) → Settles (d ∷ []) (f d))
    → Settles [] (sys_ret c >>= f)
unfolding steps
Settles-open c h e q = record {
  settled = λ k t fd.
      let d = (k (length t) c).ret in
      omega (arith, rw (one_out c (k (length t) c) fd h, e fd) at ((q d).settled k (c ∷ t) fd));
}

pub Settles-bind_owed :
    {A B : Type 0} {m : M A} {f : A → M B} {d : ℤ}
    → Settles (d ∷ []) m
    → ((a : A) → Settles [] (f a))
    → Settles (d ∷ []) (m >>= f)
unfolding steps
Settles-bind_owed {m = m} p q = record {
  settled = λ k t fd. omega (arith, p.settled k t fd, (q (m k t).0).settled k (m k t).1 fd);
}

times-append : (ds es : List ℤ) (fd : Handle) → times (ds ++ es) fd ≡ times ds fd + times es fd
times-append [] es fd = omega arith
times-append (d ∷ ds) es fd = omega (arith, times-append ds es fd)

-- Two parts settle what each of them owes.
pub Settles-append :
    {A B : Type 0} {m : M A} {f : A → M B} (ds es : List ℤ)
    → Settles ds m
    → ((a : A) → Settles es (f a))
    → Settles (ds ++ es) (m >>= f)
unfolding steps
Settles-append {m = m} ds es p q = record {
  settled = λ k t fd.
      omega (arith, times-append ds es fd, p.settled k t fd, (q (m k t).0).settled k (m k t).1 fd);
}

-- The calls that neither open nor close, as a test.
abbrev pub is_quiet : Call → Bool
is_quiet (Call.close d) = false
is_quiet (Call.pclose p) = false
is_quiet c = not (opens c)

is_quiet-Neutral : (c : Call) → is_quiet c ≡ true → Neutral c
is_quiet-Neutral c h = (ground arith, λ fd. ground arith)

pub quiet_sys : (c : Call) → is_quiet c ≡ true → Settles [] (sys c)
quiet_sys c h = Settles-sys c (is_quiet-Neutral c h)

pub quiet_sys_ret : (c : Call) → is_quiet c ≡ true → Settles [] (sys_ret c)
quiet_sys_ret c h = Settles-sys_ret c (is_quiet-Neutral c h)

pub ruleset quiet_rules = (Settles-pure, Settles-if, Settles-bind, quiet_sys, quiet_sys_ret, refl)
