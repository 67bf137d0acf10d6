-- ===== src/Mount/Laws.antt =====
-- What `mount_set` has done when it reports success, and the path of the old root.
use docker.Base.{
  suc, ◌≡◌, refl, pos, true, false, List, [], ◌∷◌, ◌++◌, length, Bytes, has, codes, some, none,
  arith, ap,
}
use docker.Sys.{Kernel, Trace, Call, MountFlag, steps, made}
use docker.Mount.{mount_set, all_zero, leave_old_root, old_root, basename, with_suffix, pivot_root}

basename_plain : (s : Bytes) → has b'/' s ≡ false → basename s ≡ s
unfolding basename
basename_plain [] h = refl
basename_plain (c ∷ s) h = rw h

has-append : (s t : Bytes) → has b'/' (s ++ (b'/' ∷ t)) ≡ true
has-append [] t = refl
has-append (c ∷ s) t = ground (arith, has-append s t)

basename-append : (s t : Bytes) → has b'/' t ≡ false → basename (s ++ (b'/' ∷ t)) ≡ t
unfolding basename
basename-append [] t h = ground (arith, basename_plain t h)
basename-append (c ∷ s) t h = ground (arith, has-append s t, basename-append s t h)

-- Put behind the new root's path, the path that is unmounted and removed after the pivot is the
-- very path that `pivot_root` was given for the old root, if `mkdtemp` makes no slash.
pub old_root_lem :
    (mount_dir suffix : Bytes)
    → has b'/' suffix ≡ false
    → mount_dir ++ old_root (mount_dir ++ (codes "/oldroot." ++ suffix))
      ≡ mount_dir ++ (codes "/oldroot." ++ suffix)
unfolding old_root
old_root_lem mount_dir suffix h =
    ap (λ s. mount_dir ++ (b'/' ∷ s)) (basename-append mount_dir (codes "oldroot." ++ suffix) h)

all_zero_done :
    (cs : List Call) (k : Kernel) (t : Trace)
    → (all_zero cs k t).0 ≡ pos 0
    → (all_zero cs k t).1 ≡ made cs t
unfolding all_zero steps
all_zero_done [] k t h = refl
all_zero_done (c ∷ cs) k t h = ground (arith, all_zero_done cs k (c ∷ t))

-- The calls behind `pivot_root`.
abbrev pub leave_calls : Bytes → List Call
leave_calls inner =
    Call.chdir (codes "/")
    ∷ Call.umount2_detach (old_root inner)
    ∷ Call.rmdir (old_root inner)
    ∷ Call.mount (some (codes "proc")) (codes "/proc") (some (codes "proc"))
        (MountFlag.ms_nosuid ∷ MountFlag.ms_noexec ∷ MountFlag.ms_nodev ∷ [])
    ∷ []

leave_old_root_done :
    (inner : Bytes) (k : Kernel) (t : Trace)
    → (leave_old_root inner k t).0 ≡ pos 0
    → (leave_old_root inner k t).1 ≡ made (leave_calls inner) t
unfolding leave_old_root
leave_old_root_done inner k t h = all_zero_done (leave_calls inner) k t h

-- The calls that a complete run makes, with the two directories that it works on.
abbrev pub mount_calls : Bytes → Bytes → Bytes → List Call
mount_calls mnt mount_dir inner =
    Call.mount none (codes "/") none (MountFlag.ms_rec ∷ MountFlag.ms_private ∷ [])
    ∷ Call.mkdtemp (codes "/tmp/barco.XXXXXX")
    ∷ Call.mount (some mnt) mount_dir none (MountFlag.ms_bind ∷ MountFlag.ms_private ∷ [])
    ∷ Call.mkdtemp (mount_dir ++ codes "/oldroot.XXXXXX")
    ∷ Call.pivot_root mount_dir inner
    ∷ leave_calls inner

-- The two directories of a run that starts after `t`.
unfoldable pub outer_dir : Kernel → Trace → Bytes
outer_dir k t =
    with_suffix (codes "/tmp/barco.")
      (k (suc (length t)) (Call.mkdtemp (codes "/tmp/barco.XXXXXX"))).out

unfoldable pub inner_dir : Kernel → Trace → Bytes
inner_dir k t =
    with_suffix (outer_dir k t ++ codes "/oldroot.")
      (k (suc (suc (suc (length t)))) (Call.mkdtemp (outer_dir k t ++ codes "/oldroot.XXXXXX"))).out

-- When `mount_set` returns 0 it made these nine calls in this order: the mounts are private, the new
-- root is bound and pivoted to, and the old one is detached and its directory removed before /proc
-- is mounted.
pub mount_set_done :
    (mnt : Bytes) (k : Kernel) (t : Trace)
    → (mount_set mnt k t).0 ≡ pos 0
    → (mount_set mnt k t).1 ≡ made (mount_calls mnt (outer_dir k t) (inner_dir k t)) t
unfolding mount_set pivot_root outer_dir inner_dir steps
mount_set_done mnt k t h = ground (
  arith,
  leave_old_root_done (inner_dir k t) k (
      Call.pivot_root (outer_dir k t) (inner_dir k t)
      ∷ Call.mkdtemp (outer_dir k t ++ codes "/oldroot.XXXXXX")
      ∷ Call.mount (some mnt) (outer_dir k t) none (MountFlag.ms_bind ∷ MountFlag.ms_private ∷ [])
      ∷ Call.mkdtemp (codes "/tmp/barco.XXXXXX")
      ∷ Call.mount none (codes "/") none (MountFlag.ms_rec ∷ MountFlag.ms_private ∷ [])
      ∷ t),
)
