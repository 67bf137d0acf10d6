-- ===== src/Tests/RootRuns.antt =====
-- A table of mounts by their paths, and the theorem about the change of the root with it.
use docker.Base.{
  ℕ, ◌+◌, ◌≡◌, ◌≢◌, refl, pos, true, Option, none, some, [], ◌∷◌, ◌++◌, Bytes, length, drop,
  drop-append_length, codes, eq_bytes, arith, if◌then◌else◌, Bool-cases, inl, inr,
}
use docker.Sys.{Trace, Call, steps}
use docker.Mount.{mount_set, pivot_root, leave_old_root, all_zero}
use docker.Mount.Isolation.{
  MountTable, binding, is_elsewhere, keeps_root, process, mounting_proc, mount_set_isolates,
}
use docker.Tests.Kernels.{generous}

eq_bytes_refl : (s : Bytes) → eq_bytes s s ≡ true
eq_bytes_refl [] = refl
eq_bytes_refl (c ∷ s) = ground (arith, eq_bytes_refl s)

eq_bytes_sound : (s t : Bytes) → eq_bytes s t ≡ true → s ≡ t
eq_bytes_sound [] [] h = refl
eq_bytes_sound [] (d ∷ t) h = absurd (cc)
eq_bytes_sound (c ∷ s) [] h = absurd (cc)
eq_bytes_sound (c ∷ s) (d ∷ t) h = ground (arith, eq_bytes_sound s t)

-- The root's number, and the number of the mount on each path.
record Mounts : Type 0 where
  root : ℕ
  on : Bytes → Option ℕ

abbrev or_root : Option ℕ → ℕ → ℕ
or_root none n = n
or_root (some m) n = m

-- The mount on one path is changed.
abbrev put : Bytes → Option ℕ → Mounts → Mounts
put dir m s = record s { on = λ p. if eq_bytes p dir then m else s.on p }

-- A bound mount gets the number behind the root's; a file system that is mounted gets no number.
abbrev effect : Call → Mounts → Mounts
effect (Call.mount (some source) dir none flags) s = put dir (some (s.root + 1)) s
effect (Call.umount2_detach p) s = put p none s
effect (Call.pivot_root new_root put_old) s = record {
  root = or_root (s.on new_root) s.root;
  on = λ p. if eq_bytes p (drop (length new_root) put_old) then some s.root else none;
}
effect _ s = s

root_kept : (c : Call) (s : Mounts) → keeps_root c ≡ true → (effect c s).root ≡ s.root
root_kept c s h = ground arith

mounts_kept :
    (c : Call) (p : Bytes) (s : Mounts) → is_elsewhere c ≡ true → (effect c s).on p ≡ s.on p
mounts_kept c p s h = ground arith

binds :
    (source dir : Bytes) (s : Mounts) → (effect (binding source dir) s).on dir ≡ some (s.root + 1)
binds source dir s = rw (eq_bytes_refl dir) refl

pivots :
    (new_root below : Bytes) (m : ℕ) (s : Mounts)
    → s.on new_root ≡ some m
    → (effect (Call.pivot_root new_root (new_root ++ below)) s).root ≡ m
pivots new_root below m s h = rw h refl

old_root_on :
    (new_root below p : Bytes) (s : Mounts)
    → (effect (Call.pivot_root new_root (new_root ++ below)) s).on p ≡ some s.root
    → p ≡ below
old_root_on new_root below p s h = go (rw (drop-append_length new_root below) at h)
  where
    go : (if eq_bytes p below then some s.root else none) ≡ some s.root → p ≡ below
    go e = elim (Bool-cases (eq_bytes p below)) [
      | inl same ↦ eq_bytes_sound p below same
      | inr other ↦ absurd (ground arith)
    ]

detached : (p : Bytes) (s : Mounts) → (effect (Call.umount2_detach p) s).on p ≡ none
detached p s = rw (eq_bytes_refl p) refl

detaches_only :
    (p q : Bytes) (m : ℕ) (s : Mounts)
    → (effect (Call.umount2_detach p) s).on q ≡ some m
    → s.on q ≡ some m
detaches_only p q m s h = ground arith

abbrev numbered : MountTable
numbered = record {
  State = Mounts;
  Mount = ℕ;
  root = λ s. s.root;
  mounted_on = λ p s. s.on p;
  bound = λ source s. s.root + 1;
  call = effect;
  root_kept = root_kept;
  mounts_kept = mounts_kept;
  binds = binds;
  pivots = pivots;
  old_root_on = old_root_on;
  detached = detached;
  detaches_only = detaches_only;
}

abbrev host : Mounts
host = record { root = 0; on = λ p. none }

mounted : (mount_set (codes "/srv/root") generous []).0 ≡ pos 0
unfolding mount_set steps pivot_root leave_old_root all_zero
mounted = refl

mount_set_isolates_example :
    (rest : Trace) × ((mount_set (codes "/srv/root") generous []).1 ≡ mounting_proc ∷ rest)
    × ((process numbered generous host rest).root ≡ 1)
    × ((p : Bytes) → (process numbered generous host rest).on p ≢ some 0)
mount_set_isolates_example =
    mount_set_isolates numbered host (codes "/srv/root") generous [] (λ n template. refl) mounted
