-- ===== src/Mount/Isolation.antt =====
-- What `mount_set` of src/mount.c makes of the process's mounts. The kernel is not part of the program:
-- it is an interface, with what mount(2), umount2(2) and pivot_root(2) say of the calls.
use docker.Base.{
  ◌≡◌, ◌≢◌, refl, sym, ap, ◌∙◌, pos, Bool, true, false, Option, none, some, List, arith, length,
  nonzero, not, ◌&&◌, if◌then◌else◌, [], ◌∷◌, ◌++◌, Bytes, has, codes, append_assoc, take, ℕ,
}
use docker.Sys.{Kernel, Trace, Call, Reply, MountFlag, made, steps}
use docker.Netlink.Message.{pad_to}
use docker.Mount.{mount_set, old_root, with_suffix, pivot_root, leave_old_root, all_zero}
use docker.Mount.Laws.{mount_set_done, outer_dir, inner_dir, old_root_lem}

abbrev pub binding : Bytes → Bytes → Call
binding source dir =
    Call.mount (some source) dir none (MountFlag.ms_bind ∷ MountFlag.ms_private ∷ [])

-- The calls that leave every mount where it is.
abbrev pub is_elsewhere : Call → Bool
is_elsewhere (Call.mkdtemp _) = true
is_elsewhere (Call.chdir _) = true
is_elsewhere (Call.rmdir _) = true
is_elsewhere _ = false

abbrev pub keeps_root : Call → Bool
keeps_root (Call.pivot_root _ _) = false
keeps_root _ = true

-- The mounts that a process sees, each on its path, the mount that is its root, the mount that binding
-- a path makes, and what a call that succeeds does to them. `pivot_root` takes the mount on its first
-- path for the root and mounts the old root on the second path, as it is seen from the new root, and
-- nowhere else.
pub record MountTable : Type 1 where
  pub State : Type 0
  pub Mount : Type 0
  pub root : State → Mount
  pub mounted_on : Bytes → State → Option Mount
  pub bound : Bytes → State → Mount
  pub call : Call → State → State
  pub root_kept : (c : Call) (s : State) → keeps_root c ≡ true → root (call c s) ≡ root s
  pub mounts_kept :
      (c : Call) (p : Bytes) (s : State)
      → is_elsewhere c ≡ true
      → mounted_on p (call c s) ≡ mounted_on p s
  pub binds :
      (source dir : Bytes) (s : State)
      → mounted_on dir (call (binding source dir) s) ≡ some (bound source s)
  pub pivots :
      (new_root below : Bytes) (m : Mount) (s : State)
      → mounted_on new_root s ≡ some m
      → root (call (Call.pivot_root new_root (new_root ++ below)) s) ≡ m
  pub old_root_on :
      (new_root below p : Bytes) (s : State)
      → mounted_on p (call (Call.pivot_root new_root (new_root ++ below)) s) ≡ some (root s)
      → p ≡ below
  pub detached : (p : Bytes) (s : State) → mounted_on p (call (Call.umount2_detach p) s) ≡ none
  pub detaches_only :
      (p q : Bytes) (m : Mount) (s : State)
      → mounted_on q (call (Call.umount2_detach p) s) ≡ some m
      → mounted_on q s ≡ some m

-- What a call reports: `mkdtemp` returns NULL where it fails, the others something but 0.
abbrev pub is_done : Call → Reply → Bool
is_done (Call.mkdtemp _) r = nonzero r.ret
is_done _ r = not (nonzero r.ret)

abbrev pub all_ok : Kernel → List Call → Trace → Bool
all_ok k [] t = true
all_ok k (c ∷ cs) t = let rest = all_ok k cs (c ∷ t) in is_done c (k (length t) c) && rest

-- The six characters of `mkdtemp` have no slash among them.
abbrev pub MakesNames : Kernel → Type 0
MakesNames k =
    (n : ℕ) (template : Bytes)
    → has b'/' (take 6 (pad_to 6 (k n (Call.mkdtemp template)).out)) ≡ false

old_root-with_suffix :
    (dir out : Bytes)
    → has b'/' (take 6 (pad_to 6 out)) ≡ false
    → let inner = with_suffix (dir ++ codes "/oldroot.") out in dir ++ old_root inner ≡ inner
unfolding with_suffix
old_root-with_suffix dir out h =
    rw (append_assoc dir (codes "/oldroot.") (take 6 (pad_to 6 out)))
      (old_root_lem dir (take 6 (pad_to 6 out)) h)

inner_dir_lem :
    (k : Kernel) (t : Trace)
    → MakesNames k
    → outer_dir k t ++ old_root (inner_dir k t) ≡ inner_dir k t
unfolding inner_dir
inner_dir_lem k t names = old_root-with_suffix (outer_dir k t) _ (names _ _)

-- The process after the calls of a trace: a call has its effect where it reports success.
abbrev pub process : (mt : MountTable) → Kernel → mt.State → Trace → mt.State
process mt k s [] = s
process mt k s (c ∷ t) =
    let before = process mt k s t in if is_done c (k (length t) c) then mt.call c before else before

-- The same where all calls of the trace succeed.
abbrev after : (mt : MountTable) → mt.State → Trace → mt.State
after mt s [] = s
after mt s (c ∷ t) = mt.call c (after mt s t)

after-made :
    (mt : MountTable) (s : mt.State) (cs : List Call) (u : Trace)
    → after mt s (made cs u) ≡ after mt (after mt s u) (made cs [])
after-made mt s [] u = refl
after-made mt s (c ∷ cs) u =
    after-made mt s cs (c ∷ u) ∙ sym (after-made mt (after mt s u) cs (c ∷ []))

process-made :
    (mt : MountTable) (k : Kernel) (s : mt.State) (cs : List Call) (t : Trace)
    → all_ok k cs t ≡ true
    → process mt k s (made cs t) ≡ after mt (process mt k s t) (made cs [])
process-made mt k s [] t h = refl
process-made mt k s (c ∷ cs) t h =
    let (first, others) = both (is_done c (k (length t) c)) (all_ok k cs (c ∷ t)) h in
    process-made mt k s cs (c ∷ t) others
    ∙ rw first (sym (after-made mt (process mt k s t) cs (c ∷ [])))
  where
    both : (a b : Bool) → (a && b) ≡ true → (a ≡ true) × (b ≡ true)
    both a b h = (ground arith, ground arith)

abbrev pub mounting_proc : Call
mounting_proc =
    Call.mount (some (codes "proc")) (codes "/proc") (some (codes "proc"))
      (MountFlag.ms_nosuid ∷ MountFlag.ms_noexec ∷ MountFlag.ms_nodev ∷ [])

-- The state before the pivot, for the two directories.
before_pivot : Bytes → Bytes → Trace → Trace
before_pivot mnt outer t =
    Call.mkdtemp (outer ++ codes "/oldroot.XXXXXX")
    ∷ binding mnt outer
    ∷ Call.mkdtemp (codes "/tmp/barco.XXXXXX")
    ∷ Call.mount none (codes "/") none (MountFlag.ms_rec ∷ MountFlag.ms_private ∷ [])
    ∷ t

left : Bytes → Trace → Trace
left inner u =
    Call.rmdir (old_root inner) ∷ Call.umount2_detach (old_root inner) ∷ Call.chdir (codes "/") ∷ u

module _ (mt : MountTable) (s : mt.State) where
  root_before :
      (mnt outer : Bytes) (t : Trace)
      → mt.root (after mt s (before_pivot mnt outer t)) ≡ mt.root (after mt s t)
  unfolding before_pivot
  root_before mnt outer t =
      mt.root_kept _ _ refl ∙ mt.root_kept _ _ refl ∙ mt.root_kept _ _ refl ∙ mt.root_kept _ _ refl

  new_root_bound :
      (mnt outer : Bytes) (t : Trace)
      → mt.mounted_on outer (after mt s (before_pivot mnt outer t))
        ≡ some (
            mt.bound mnt (
              after mt s (
                Call.mkdtemp (codes "/tmp/barco.XXXXXX")
                ∷ Call.mount none (codes "/") none (MountFlag.ms_rec ∷ MountFlag.ms_private ∷ [])
                ∷ t)))
  unfolding before_pivot
  new_root_bound mnt outer t = mt.mounts_kept _ outer _ refl ∙ mt.binds mnt outer _

  -- Behind the pivot the root is the new one, and what it was before is mounted nowhere.
  root_left :
      (outer inner : Bytes) (m : mt.Mount) (u : Trace)
      → outer ++ old_root inner ≡ inner
      → mt.mounted_on outer (after mt s u) ≡ some m
      → mt.root (after mt s (left inner (Call.pivot_root outer inner ∷ u))) ≡ m
  unfolding left
  root_left outer inner m u e h =
      mt.root_kept _ _ refl
      ∙ mt.root_kept _ _ refl
      ∙ mt.root_kept _ _ refl
      ∙ rw (sym e) (mt.pivots outer (old_root inner) m (after mt s u) h)

  old_root_gone :
      (outer inner p : Bytes) (u : Trace)
      → outer ++ old_root inner ≡ inner
      → mt.mounted_on p (after mt s (left inner (Call.pivot_root outer inner ∷ u)))
        ≢ some (mt.root (after mt s u))
  unfolding left
  old_root_gone outer inner p u e h =
      let old = mt.root (after mt s u) in
      let below = old_root inner in
      let v = after mt s (Call.chdir (codes "/") ∷ Call.pivot_root outer inner ∷ u) in
      let seen : mt.mounted_on p (mt.call (Call.umount2_detach below) v) ≡ some old =
        sym (mt.mounts_kept (Call.rmdir below) p _ refl) ∙ h in
      let before : mt.mounted_on p (after mt s (Call.pivot_root outer inner ∷ u)) ≡ some old =
        sym (mt.mounts_kept (Call.chdir (codes "/")) p _ refl)
        ∙ mt.detaches_only below p old v seen in
      let there : p ≡ below = mt.old_root_on outer below p (after mt s u) (rw e before) in
      let absent : none ≡ some old =
        sym (mt.detached below v)
        ∙ ap (λ q. mt.mounted_on q (mt.call (Call.umount2_detach below) v)) (sym there)
        ∙ seen in
      absurd (cc)

-- The calls before `mnt` is bound.
abbrev pub to_bind : Trace → Trace
to_bind t =
    Call.mkdtemp (codes "/tmp/barco.XXXXXX")
    ∷ Call.mount none (codes "/") none (MountFlag.ms_rec ∷ MountFlag.ms_private ∷ [])
    ∷ t

abbrev binding_calls : List Call
binding_calls =
    Call.mount none (codes "/") none (MountFlag.ms_rec ∷ MountFlag.ms_private ∷ [])
    ∷ Call.mkdtemp (codes "/tmp/barco.XXXXXX")
    ∷ []

-- All calls of `mount_set` but the last.
abbrev leaving : Bytes → Bytes → Bytes → List Call
leaving mnt outer inner =
    Call.mount none (codes "/") none (MountFlag.ms_rec ∷ MountFlag.ms_private ∷ [])
    ∷ Call.mkdtemp (codes "/tmp/barco.XXXXXX")
    ∷ binding mnt outer
    ∷ Call.mkdtemp (outer ++ codes "/oldroot.XXXXXX")
    ∷ Call.pivot_root outer inner
    ∷ Call.chdir (codes "/")
    ∷ Call.umount2_detach (old_root inner)
    ∷ Call.rmdir (old_root inner)
    ∷ []

-- When `mount_set` returns 0, each of them has reported success.
mount_set-ok :
    (mnt : Bytes) (k : Kernel) (t : Trace)
    → (mount_set mnt k t).0 ≡ pos 0
    → (all_ok k (leaving mnt (outer_dir k t) (inner_dir k t)) t ≡ true)
      × (all_ok k binding_calls t ≡ true)
unfolding mount_set pivot_root leave_old_root all_zero outer_dir inner_dir steps
mount_set-ok mnt k t h = (ground arith, ground arith)

-- Let the calls that report success, and no others, have their effect. If `mount_set` returns 0 and no
-- name that `mkdtemp` made has a slash, then its last call mounts
-- /proc, and before that call the process's root is the mount that binding `mnt` made, and what was
-- its root when the function was called is mounted on no path.
pub mount_set_isolates :
    (mt : MountTable) (s : mt.State) (mnt : Bytes) (k : Kernel) (t : Trace)
    → MakesNames k
    → (mount_set mnt k t).0 ≡ pos 0
    → (rest : Trace) × ((mount_set mnt k t).1 ≡ mounting_proc ∷ rest)
      × (mt.root (process mt k s rest) ≡ mt.bound mnt (process mt k s (to_bind t)))
      × ((p : Bytes) → mt.mounted_on p (process mt k s rest) ≢ some (mt.root (process mt k s t)))
unfolding before_pivot left
mount_set_isolates mt s mnt k t names h =
    let (outer, inner) = dirs in
    let p0 = process mt k s t in
    let u = before_pivot mnt outer [] in
    let e = inner_dir_lem k t names in
    let ok = mount_set-ok mnt k t h in
    let pivoted : process mt k s
          (left inner (Call.pivot_root outer inner ∷ before_pivot mnt outer t))
        ≡ after mt p0 (left inner (Call.pivot_root outer inner ∷ u)) =
      process-made mt k s (leaving mnt outer inner) t ok.0 in
    let bound : process mt k s (to_bind t) ≡ after mt p0 (to_bind []) =
      process-made mt k s binding_calls t ok.1 in
    (
      left inner (Call.pivot_root outer inner ∷ before_pivot mnt outer t),
      mount_set_done mnt k t h,
      ap mt.root pivoted
          ∙ root_left mt p0 outer inner _ u e (new_root_bound mt p0 mnt outer [])
          ∙ ap (mt.bound mnt) (sym bound),
      λ p there. old_root_gone mt p0 outer inner p u e (
          ap (mt.mounted_on p) (sym pivoted)
          ∙ there
          ∙ ap some (sym (root_before mt p0 mnt outer []))),
    )
  where
    dirs : Bytes × Bytes
    dirs = (outer_dir k t, inner_dir k t)
