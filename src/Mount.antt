-- ===== src/Mount.antt =====
-- src/mount.c: the container's root file system.
pub mod Laws
pub mod Isolation
use docker.Base.{
  ℤ, pos, minus_one, nonzero, not, Bytes, none, some, List, [], ◌∷◌, ◌++◌, codes, take, has,
  if◌then◌else◌,
}
use docker.Sys.{M, Call, MountFlag, pure, sys, sys_ret, ◌>>=◌}
use docker.Netlink.Message.{pad_to}

-- The path that `mkdtemp` makes of `stem` and six X, from what it stores in their place.
unfoldable pub with_suffix : Bytes → Bytes → Bytes
with_suffix stem out = stem ++ take 6 (pad_to 6 out)

-- `basename` of libgen.h on a path that does not end in a slash.
unfoldable pub basename : Bytes → Bytes
basename [] = []
basename (c ∷ s) = let rest = basename s in if has b'/' (c ∷ s) then rest else c ∷ s

unfoldable pub pivot_root : Bytes → Bytes → M ℤ
pivot_root new_root put_old = sys_ret (Call.pivot_root new_root put_old)

-- The calls that follow the two directories; a call that does not return 0 ends the function.
unfoldable pub all_zero : List Call → M ℤ
all_zero [] = pure (pos 0)
all_zero (c ∷ cs) = do r ← sys_ret c; if nonzero r then pure minus_one else all_zero cs

-- Where the old root ends up, seen from the new one.
unfoldable pub old_root : Bytes → Bytes
old_root inner_mount_dir = b'/' ∷ basename inner_mount_dir

unfoldable pub leave_old_root : Bytes → M ℤ
leave_old_root inner_mount_dir = all_zero (
    Call.chdir (codes "/")
    ∷ Call.umount2_detach (old_root inner_mount_dir)
    ∷ Call.rmdir (old_root inner_mount_dir)
    ∷ Call.mount (some (codes "proc")) (codes "/proc") (some (codes "proc"))
        (MountFlag.ms_nosuid ∷ MountFlag.ms_noexec ∷ MountFlag.ms_nodev ∷ [])
    ∷ [])

unfoldable pub mount_set : Bytes → M ℤ
mount_set mnt = do
  private ←
      sys_ret (Call.mount none (codes "/") none (MountFlag.ms_rec ∷ MountFlag.ms_private ∷ []))
  if nonzero private then pure minus_one else do
    made ← sys (Call.mkdtemp (codes "/tmp/barco.XXXXXX"))
    let mount_dir = with_suffix (codes "/tmp/barco.") made.out
    if not (nonzero made.ret) then pure minus_one else do
      bound ←
          sys_ret
            (Call.mount (some mnt) mount_dir none (MountFlag.ms_bind ∷ MountFlag.ms_private ∷ []))
      if nonzero bound then pure minus_one else do
        inner ← sys (Call.mkdtemp (mount_dir ++ codes "/oldroot.XXXXXX"))
        let inner_mount_dir = with_suffix (mount_dir ++ codes "/oldroot.") inner.out
        if not (nonzero inner.ret) then pure minus_one else do
          pivoted ← pivot_root mount_dir inner_mount_dir
          if nonzero pivoted then pure minus_one else leave_old_root inner_mount_dir
