-- ===== src/Sec/Capabilities.antt =====
-- What the calls of `sec_set_caps` of src/sec.c make of the process's capabilities. The kernel is not
-- part of the program: it is an interface, with what capabilities(7) says of the calls and of execve.
use docker.Base.{
  ◌≡◌, refl, ◌∙◌, sym, ap, pos, Bool, true, false, ◌||◌, List, [], ◌∷◌, ◌++◌, arith, nonzero,
  length, Bool-cases, inl, inr, if◌then◌else◌,
}
use docker.Sys.{Kernel, Trace, M, Call, Capability, steps}
use docker.Sys.Alphabet.{Only, Only-keeps}
use docker.Sec.{sec_set_caps, drop_caps, drop_bounding, all_done}
use mathlib.Core.List.{Memᴰ}
use mathlib.Core.List.Memᴰ.{head, tail, append_left}

-- The inheritable and the bounding set of a process, for the capabilities that sec.c drops, what a successful prctl and cap_set_proc make of
-- them, and what a command that the process runs is permitted at most. cap_set_proc is given the
-- capabilities that were cleared in its copy of the inheritable set. Of what a new namespace does to
-- the sets nothing is said.
pub record Credentials : Type 1 where
  pub State : Type 0
  pub inheritable : Capability → State → Bool
  pub bounding : Capability → State → Bool
  pub permitted_after_exec : Capability → State → Bool
  pub drop : Capability → State → State
  pub install : List Capability → State → State
  pub enter : State → State
  pub dropped : (c : Capability) (s : State) → bounding c (drop c s) ≡ false
  pub drop_only_drops :
      (c d : Capability) (s : State) → bounding c s ≡ false → bounding c (drop d s) ≡ false
  pub cleared :
      (c : Capability) (cs : List Capability) (s : State)
      → Memᴰ c cs
      → inheritable c (install cs s) ≡ false
  pub install_bounded :
      (c : Capability) (cs : List Capability) (s : State) → bounding c (install cs s) ≡ bounding c s
  pub exec_permits :
      (c : Capability) (s : State)
      → permitted_after_exec c s ≡ true
      → (inheritable c s || bounding c s) ≡ true

module _ (kernel : Credentials) (k : Kernel) where
  open kernel use {State, inheritable, bounding, permitted_after_exec, drop, install, enter}

  -- The process, and what was cleared in the copy that it works on, after the calls of a trace: a call
  -- has its effect where it reports success, which is NULL's opposite for cap_get_proc and 0 for the
  -- others.
  abbrev pub process : State → Trace → State × List Capability
  process s [] = (s, [])
  process s (Call.prctl_capbset_drop c ∷ t) =
      let (p, copy) = process s t in
      if nonzero (k (length t) (Call.prctl_capbset_drop c)).ret then (p, copy) else (drop c p, copy)
  process s (Call.cap_get_proc ∷ t) =
      let (p, copy) = process s t in
      if nonzero (k (length t) Call.cap_get_proc).ret then (p, []) else (p, copy)
  process s (Call.cap_clear_inheritable cs ∷ t) =
      let (p, copy) = process s t in
      if nonzero (k (length t) (Call.cap_clear_inheritable cs)).ret
      then (p, copy)
      else (p, cs ++ copy)
  process s (Call.cap_set_proc ∷ t) =
      let (p, copy) = process s t in
      if nonzero (k (length t) Call.cap_set_proc).ret then (p, copy) else (install copy p, copy)
  process s (Call.unshare flags ∷ t) =
      let (p, copy) = process s t in
      if nonzero (k (length t) (Call.unshare flags)).ret then (p, copy) else (enter p, copy)
  process s (_ ∷ t) = process s t

  drop_all : List Capability → State → State
  drop_all [] s = s
  drop_all (c ∷ cs) s = drop_all cs (drop c s)

  -- A loop that reports success has dropped each of them.
  process-drop_bounding :
      (cs : List Capability) (s : State) (t : Trace)
      → (drop_bounding cs k t).0 ≡ true
      → (process s (drop_bounding cs k t).1).0 ≡ drop_all cs (process s t).0
  unfolding drop_bounding drop_all steps
  process-drop_bounding [] s t h = refl
  process-drop_bounding (c ∷ cs) s t h =
      let r = (k (length t) (Call.prctl_capbset_drop c)).ret in
      elim (Bool-cases (nonzero r)) [
        | inl bad ↦ absurd (ground (arith, h, bad))
        | inr good ↦
            let here : (process s (Call.prctl_capbset_drop c ∷ t)).0 ≡ drop c (process s t).0 =
              rw good refl in
            rw good (
              process-drop_bounding cs s (Call.prctl_capbset_drop c ∷ t) (rw good at h)
              ∙ ap (drop_all cs) here)
      ]

  drop_all-keeps :
      (c : Capability) (cs : List Capability) (s : State)
      → bounding c s ≡ false
      → bounding c (drop_all cs s) ≡ false
  unfolding drop_all
  drop_all-keeps c [] s h = h
  drop_all-keeps c (d ∷ cs) s h = drop_all-keeps c cs (drop d s) (kernel.drop_only_drops c d s h)

  drop_all-drops :
      (c : Capability) (cs : List Capability) (s : State)
      → Memᴰ c cs
      → bounding c (drop_all cs s) ≡ false
  unfolding drop_all
  drop_all-drops c [] s m = elim m [ ]
  drop_all-drops c (d ∷ cs) s (head e) =
      drop_all-keeps c cs (drop d s) (rw (sym e) (kernel.dropped c s))
  drop_all-drops c (d ∷ cs) s (tail m) = drop_all-drops c cs (drop d s) m

ruleset member_rules = (head, tail, refl)

-- The list names every capability of the type.
all_listed : (c : Capability) → Memᴰ c drop_caps
unfolding drop_caps
all_listed Capability.audit_control = search (member_rules) depth 45
all_listed Capability.audit_read = search (member_rules) depth 45
all_listed Capability.audit_write = search (member_rules) depth 45
all_listed Capability.block_suspend = search (member_rules) depth 45
all_listed Capability.dac_read_search = search (member_rules) depth 45
all_listed Capability.fsetid = search (member_rules) depth 45
all_listed Capability.ipc_lock = search (member_rules) depth 45
all_listed Capability.mac_admin = search (member_rules) depth 45
all_listed Capability.mac_override = search (member_rules) depth 45
all_listed Capability.mknod = search (member_rules) depth 45
all_listed Capability.setfcap = search (member_rules) depth 45
all_listed Capability.syslog = search (member_rules) depth 45
all_listed Capability.sys_admin = search (member_rules) depth 45
all_listed Capability.sys_boot = search (member_rules) depth 45
all_listed Capability.sys_module = search (member_rules) depth 45
all_listed Capability.sys_nice = search (member_rules) depth 45
all_listed Capability.sys_rawio = search (member_rules) depth 45
all_listed Capability.sys_resource = search (member_rules) depth 45
all_listed Capability.sys_time = search (member_rules) depth 45
all_listed Capability.wake_alarm = search (member_rules) depth 45

-- The process behind the calls of a `sec_set_caps` that succeeds.
restricted : (kernel : Credentials) → Kernel → kernel.State → kernel.State
restricted kernel k s = kernel.install (drop_caps ++ []) (drop_all kernel k drop_caps s)

restricted-permits_none :
    (kernel : Credentials) (k : Kernel) (c : Capability) (s : kernel.State)
    → kernel.permitted_after_exec c (restricted kernel k s) ≡ false
unfolding restricted
restricted-permits_none kernel k c s =
    let bounded = drop_all-drops kernel k c drop_caps s (all_listed c) in
    let kept = kernel.install_bounded c (drop_caps ++ []) (drop_all kernel k drop_caps s) in
    let gone =
      kernel.cleared c (drop_caps ++ []) (drop_all kernel k drop_caps s)
        (append_left [] (all_listed c)) in
    let law = kernel.exec_permits c (restricted kernel k s) in ground arith

-- The four calls behind the loop.
abbrev clearing : Trace → Trace
clearing u =
    Call.cap_free ∷ Call.cap_set_proc ∷ Call.cap_clear_inheritable drop_caps ∷ Call.cap_get_proc ∷ u

-- What its calls replied where `sec_set_caps` reports success.
record Replied (k : Kernel) (t : Trace) : Type 0 where
  bounded : (drop_bounding drop_caps k t).0 ≡ true
  got : nonzero (k (length (drop_bounding drop_caps k t).1) Call.cap_get_proc).ret ≡ true
  cleared :
      let v : Trace = Call.cap_get_proc ∷ (drop_bounding drop_caps k t).1 in
      nonzero (k (length v) (Call.cap_clear_inheritable drop_caps)).ret ≡ false
  installed :
      let w : Trace =
        Call.cap_clear_inheritable drop_caps
        ∷ Call.cap_get_proc
        ∷ (drop_bounding drop_caps k t).1 in
      nonzero (k (length w) Call.cap_set_proc).ret ≡ false
  calls : (sec_set_caps k t).1 ≡ clearing (drop_bounding drop_caps k t).1

sec_set_caps-Replied : (k : Kernel) (t : Trace) → (sec_set_caps k t).0 ≡ pos 0 → Replied k t
unfolding sec_set_caps all_done steps
sec_set_caps-Replied k t h = record {
  bounded = ground arith;
  got = ground arith;
  cleared = ground arith;
  installed = ground arith;
  calls = ground arith;
}

clearing-restricts :
    (kernel : Credentials) (s : kernel.State) (k : Kernel) (t : Trace)
    → Replied k t
    → (process kernel k s (clearing (drop_bounding drop_caps k t).1)).0
      ≡ restricted kernel k (process kernel k s t).0
unfolding restricted
clearing-restricts kernel s k t r =
    rw (r.got, r.cleared, r.installed)
      (ap (kernel.install (drop_caps ++ []))
        (process-drop_bounding kernel k drop_caps s t r.bounded))

-- A `sec_set_caps` that reports success leaves the process so.
sec_set_caps-restricts :
    (kernel : Credentials) (s : kernel.State) (k : Kernel) (t : Trace)
    → (sec_set_caps k t).0 ≡ pos 0
    → (process kernel k s (sec_set_caps k t).1).0 ≡ restricted kernel k (process kernel k s t).0
sec_set_caps-restricts kernel s k t h =
    let r = sec_set_caps-Replied k t h in
    ap (λ u. (process kernel k s u).0) r.calls ∙ clearing-restricts kernel s k t r

-- Whatever the process held before, and with the calls alone that report success having an effect, when
-- `sec_set_caps` returns 0, none of the capabilities that it drops is left to a command that the
-- process runs.
pub sec_set_caps-permits_none :
    (kernel : Credentials) (c : Capability) (s : kernel.State) (k : Kernel) (t : Trace)
    → (sec_set_caps k t).0 ≡ pos 0
    → kernel.permitted_after_exec c (process kernel k s (sec_set_caps k t).1).0 ≡ false
sec_set_caps-permits_none kernel c s k t h =
    rw (sec_set_caps-restricts kernel s k t h)
      (restricted-permits_none kernel k c (process kernel k s t).0)

-- The calls that leave the capabilities alone.
abbrev pub is_neutral : Call → Bool
is_neutral (Call.prctl_capbset_drop _) = false
is_neutral Call.cap_get_proc = false
is_neutral (Call.cap_clear_inheritable _) = false
is_neutral Call.cap_set_proc = false
is_neutral (Call.unshare _) = false
is_neutral _ = true

process_step :
    (kernel : Credentials) (k : Kernel) (s : kernel.State) (c : Call) (t : Trace)
    → is_neutral c ≡ true
    → process kernel k s (c ∷ t) ≡ process kernel k s t
process_step kernel k s c t h = ground arith

pub process_neutral :
    {A : Type 0} (kernel : Credentials) (s : kernel.State) (m : M A) (k : Kernel) (t : Trace)
    → Only is_neutral m
    → process kernel k s (m k t).1 ≡ process kernel k s t
process_neutral kernel s m k t o =
    Only-keeps (λ k' u. process kernel k' s u ≡ process kernel k' s t) m
      (λ k' u c h e. process_step kernel k' s c u h ∙ e) o k t refl
