-- ===== src/Barco/CommandLine/Laws.antt =====
-- What of a parsed command line decides the run.
use docker.Base.{
  ℕ, ◌<◌, ◌≡◌, refl, sym, ap, ◌⊎◌, Bool, true, false, ◌&&◌, Bytes, List, [], ◌∷◌, some, pos,
  nonzero, length, ltb, leb, arith, ltb→lt, lt→ltb, Bool-cases, inl, inr,
}
use docker.Sys.{Kernel, Trace, Call, Block, steps, made}
use docker.Barco.Defs.{Args}
use docker.Barco.Main.{main, release}
use docker.Barco.CommandLine.{
  Global, ArgEntry, argtable, argtable_arg_max, ParsedArgs, ArgParse, given, read_args, barco,
}

-- Each option of the table was given as often as its entry admits.
abbrev pub within_counts : List ArgEntry → (Global → ℕ) → Bool
within_counts [] count = true
within_counts (e ∷ es) count =
    (leb e.mincount (count e.global) && leb (count e.global) e.maxcount) && within_counts es count

-- What argtable3 documents of `arg_parse`: where it counts no error, it has checked the counts.
abbrev pub ChecksCounts : ArgParse → Type 0
ChecksCounts arg_parse =
    (table : List ArgEntry) (max : ℕ) (argv : List Bytes)
    → (arg_parse table max argv).errors ≡ 0
    → within_counts table (arg_parse table max argv).count ≡ true

-- The options that a run cannot do without.
abbrev pub is_needed : Global → Bool
is_needed Global.uid = true
is_needed Global.mnt = true
is_needed Global.cmd = true
is_needed _ = false

needed_given :
    (p : ParsedArgs) (g : Global)
    → within_counts argtable p.count ≡ true
    → is_needed g ≡ true
    → 0 < p.count g
unfolding argtable
needed_given p g h e = ground arith

abbrev pub is_read : Global → Bool
is_read Global.version = false
is_read _ = true

-- Two results that differ in the options that are not read and in memory that was not written.
pub record Agrees (p q : ParsedArgs) : Type 0 where
  pub errors : p.errors ≡ q.errors
  pub counts : (g : Global) → is_read g ≡ true → p.count g ≡ q.count g
  pub ints : (g : Global) (i : ℕ) → i < p.count g → p.ival g i ≡ q.ival g i
  pub texts : (g : Global) (i : ℕ) → i < p.count g → p.sval g i ≡ q.sval g i

given-Agrees :
    (p q : ParsedArgs) (g : Global) → Agrees p q → is_read g ≡ true → given p g ≡ given q g
given-Agrees p q g a e =
    let c = a.counts g e in
    elim (Bool-cases (ltb 0 (p.count g))) [
      | inl there ↦ ground (arith, ap some (a.texts g 0 (ltb→lt 0 (p.count g) there)))
      | inr absent ↦ ground arith
    ]

read_args-Agrees :
    (p q : ParsedArgs)
    → within_counts argtable p.count ≡ true
    → Agrees p q
    → read_args p ≡ read_args q
unfolding read_args
read_args-Agrees p q h a = rw (
  a.errors,
  a.counts Global.help refl,
  a.counts Global.vrb refl,
  a.counts Global.nat refl,
  a.ints Global.uid 0 (needed_given p Global.uid h refl),
  a.texts Global.mnt 0 (needed_given p Global.mnt h refl),
  a.texts Global.cmd 0 (needed_given p Global.cmd h refl),
  given-Agrees p q Global.arg a refl,
  given-Agrees p q Global.veth_name a refl,
  given-Agrees p q Global.veth_peer a refl,
  given-Agrees p q Global.container_ip a refl,
  given-Agrees p q Global.host_ip a refl,
  given-Agrees p q Global.dns a refl,
)

-- Of a command line that is wrong, nothing but that is read.
main_wrong :
    (rounds : ℕ) (args : Args) (k : Kernel) (t : Trace)
    → 0 < args.errors
    → nonzero (k (length t) (Call.calloc Block.config)).ret ≡ true
    → main rounds args k t ≡ (
      some (pos 1),
      made
          (Call.calloc Block.config
            ∷ Call.free Block.veth_peer
            ∷ Call.free Block.veth_tmp
            ∷ Call.free Block.config
            ∷ Call.arg_freetable
            ∷ [])
          t,
    )
unfolding main release steps
main_wrong rounds args k t h calloc = ground (arith, lt→ltb 0 args.errors h)

zero_or_positive : (n : ℕ) → (n ≡ 0) ⊎ (0 < n)
zero_or_positive n = omega arith

main_unread :
    (rounds : ℕ) (args other : Args) (k : Kernel) (t : Trace)
    → 0 < args.errors
    → args.errors ≡ other.errors
    → main rounds args k t ≡ main rounds other k t
unfolding main steps
main_unread rounds args other k t h e = rw (sym e, lt→ltb 0 args.errors h) refl

-- If `arg_parse` checks the counts, two command lines on which it finds the same errors, counts the
-- same for every option but --version, and stores the same values where it counts any have the same
-- runs, in every call of the model and in the exit code: `main` reads no value that was not stored,
-- and --version, which is offered, changes nothing.
pub barco-Agrees :
    (arg_parse : ArgParse) (rounds : ℕ) (argv other : List Bytes) (k : Kernel) (t : Trace)
    → ChecksCounts arg_parse
    → Agrees (arg_parse argtable argtable_arg_max argv) (arg_parse argtable argtable_arg_max other)
    → barco arg_parse rounds argv k t ≡ barco arg_parse rounds other k t
unfolding barco read_args
barco-Agrees arg_parse rounds argv other k t checks a =
    let p = arg_parse argtable argtable_arg_max argv in
    let q = arg_parse argtable argtable_arg_max other in
    elim (zero_or_positive p.errors) [
      | inl none_found ↦
          ap (λ args. main rounds args k t)
            (read_args-Agrees p q (checks argtable argtable_arg_max argv none_found) a)
      | inr found ↦ main_unread rounds (read_args p) (read_args q) k t found a.errors
    ]

-- If `arg_parse` checks the counts and an option that a run cannot do without was not given, then
-- `main` returns 1: behind `calloc` it only frees, whether or not --help was given.
pub barco_without_needed :
    (arg_parse : ArgParse) (rounds : ℕ) (argv : List Bytes) (g : Global) (k : Kernel) (t : Trace)
    → ChecksCounts arg_parse
    → is_needed g ≡ true
    → (arg_parse argtable argtable_arg_max argv).count g ≡ 0
    → nonzero (k (length t) (Call.calloc Block.config)).ret ≡ true
    → barco arg_parse rounds argv k t ≡ (
      some (pos 1),
      made
          (Call.calloc Block.config
            ∷ Call.free Block.veth_peer
            ∷ Call.free Block.veth_tmp
            ∷ Call.free Block.config
            ∷ Call.arg_freetable
            ∷ [])
          t,
    )
unfolding barco read_args
barco_without_needed arg_parse rounds argv g k t checks needed absent calloc =
    let p = arg_parse argtable argtable_arg_max argv in
    elim (zero_or_positive p.errors) [
      | inl none_found ↦ absurd (
          omega (
            arith,
            absent,
            needed_given p g (checks argtable argtable_arg_max argv none_found) needed,
          ))
      | inr found ↦ main_wrong rounds (read_args p) k t found calloc
    ]
