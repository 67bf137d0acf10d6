-- ===== src/Sec/Laws.antt =====
-- What the restrictions of src/sec.c have done when they report success, and how they report.
use docker.Base.{◌≡◌, refl, pos, is_neg, true, false, List, [], ◌∷◌, ◌++◌, arith, map}
use docker.Sys.{Kernel, Trace, Call, Capability, steps, made, made-append}
use docker.Sec.{all_done, drop_bounding, drop_caps, guarded, sec_set_caps, sec_set_seccomp}

pub all_done_lem :
    (cs : List Call) (k : Kernel) (t : Trace)
    → (all_done cs k t).0 ≡ true
    → (all_done cs k t).1 ≡ made cs t
unfolding all_done steps
all_done_lem [] k t h = refl
all_done_lem (c ∷ cs) k t h = ground (arith, all_done_lem cs k (c ∷ t))

drop_bounding_lem :
    (caps : List Capability) (k : Kernel) (t : Trace)
    → (drop_bounding caps k t).0 ≡ true
    → (drop_bounding caps k t).1 ≡ made (map Call.prctl_capbset_drop caps) t
unfolding drop_bounding steps
drop_bounding_lem [] k t h = refl
drop_bounding_lem (c ∷ cs) k t h =
    ground (arith, drop_bounding_lem cs k (Call.prctl_capbset_drop c ∷ t))

guarded_lem :
    (release : Call) (cs : List Call) (k : Kernel) (t : Trace)
    → (guarded release cs k t).0 ≡ pos 0
    → (guarded release cs k t).1 ≡ release ∷ made cs t
unfolding steps
guarded_lem release cs k t h = ground (arith, all_done_lem cs k t)

-- When `sec_set_caps` returns 0, its calls were these, in this order: the bounding set lost each of
-- the capabilities of the list, then the inheritable set lost all of them, and the set was freed.
pub sec_set_caps-drops :
    (k : Kernel) (t : Trace)
    → (sec_set_caps k t).0 ≡ pos 0
    → (sec_set_caps k t).1
      ≡ made
          (map Call.prctl_capbset_drop drop_caps
            ++ (Call.cap_get_proc
                ∷ Call.cap_clear_inheritable drop_caps
                ∷ Call.cap_set_proc
                ∷ Call.cap_free
                ∷ []))
          t
unfolding sec_set_caps steps
sec_set_caps-drops k t h = ground (
  arith,
  drop_bounding_lem drop_caps k t,
  made-append (map Call.prctl_capbset_drop drop_caps) releases t,
  guarded_lem Call.cap_free clearing k (Call.cap_get_proc ∷ (drop_bounding drop_caps k t).1),
)
  where
    clearing : List Call
    clearing = Call.cap_clear_inheritable drop_caps ∷ Call.cap_set_proc ∷ []

    releases : List Call
    releases = Call.cap_get_proc ∷ (clearing ++ (Call.cap_free ∷ []))

-- Neither function ever returns a negative number.
pub sec_set_caps_sign : (k : Kernel) (t : Trace) → is_neg (sec_set_caps k t).0 ≡ false
unfolding sec_set_caps steps
sec_set_caps_sign k t = ground arith

pub sec_set_seccomp_sign : (k : Kernel) (t : Trace) → is_neg (sec_set_seccomp k t).0 ≡ false
unfolding sec_set_seccomp steps
sec_set_seccomp_sign k t = ground arith
