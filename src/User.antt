-- ===== src/User.antt =====
-- src/user.c: both ends of the handshake that sets up the user namespace.
pub mod Laws
pub mod Range
pub mod Mapped
pub mod Protocol
use docker.Base.{
  ℕ, ℤ, pos, minus_one, is_neg, nonzero, not, Bool, true, false, ◌==◌, ◌==ℤ◌, Bytes, List, [], ◌∷◌,
  ◌++◌, codes, decimal, decimal_ℤ, length, leb, get_u32, int_bytes, if◌then◌else◌,
}
use docker.Sys.{M, Call, OpenMode, CloneFlag, pure, sys, sys_ret, ◌>>=◌, ◌>>◌}

abbrev pub user_namespace_uid_parent_range_start : ℕ
user_namespace_uid_parent_range_start = 10000

abbrev pub user_namespace_uid_child_range_start : ℕ
user_namespace_uid_child_range_start = 0

abbrev pub user_namespace_uid_child_range_size : ℕ
user_namespace_uid_child_range_size = 1

-- An int over the socket pair: the success of a whole transfer.
abbrev pub send_int : ℤ → ℤ → M Bool
send_int fd x = do n ← sys_ret (Call.write fd (int_bytes x)); pure (n ==ℤ pos 4)

-- The switch to the target ids; `setresuid` is not called if `setresgid` fails.
unfoldable pub switch_ids : ℕ → M ℤ
switch_ids uid = do
  g ← sys_ret (Call.setresgid uid)
  if nonzero g
      then pure minus_one
      else do u ← sys_ret (Call.setresuid uid); pure (if nonzero u then minus_one else pos 0)

-- The child's end.
unfoldable pub user_namespace_init : ℕ → ℤ → M ℤ
user_namespace_init uid fd = do
  unshared ← sys_ret (Call.unshare (CloneFlag.newuser ∷ []))
  if is_neg unshared then pure minus_one else do
    sent ← send_int fd (pos 0)
    if not sent then pure minus_one else do
      result ← sys (Call.read fd 4)
      if not (result.ret ==ℤ pos 4)
          then pure minus_one
          else if not (get_u32 result.out 0 == 0)
          then pure minus_one
          else switch_ids uid

-- "/proc/<pid>/<file>"
unfoldable pub proc_path : ℤ → Bytes → Bytes
proc_path pid file = codes "/proc/" ++ (decimal_ℤ pid ++ (codes "/" ++ file))

-- Opens a file under /proc/<pid>, writes `text` and closes it again; when the
-- open has failed and when the write is done, the caller's tests say. `false` is the jump to `fail`.
unfoldable pub write_proc : ℤ → Bytes → Bytes → (ℤ → Bool) → (ℤ → Bool) → M Bool
write_proc pid file text failed written =
    if leb 4096 (length (proc_path pid file)) then pure false else do
      map_fd ← sys_ret (Call.open_file (proc_path pid file) OpenMode.o_wronly)
      if failed map_fd then pure false else do
        n ← sys_ret (Call.write map_fd text)
        sys_ret (Call.close map_fd)
        pure (written n)

-- "%d %d %d\n"
unfoldable pub id_map : Bytes
unfolding decimal
id_map =
    decimal user_namespace_uid_child_range_start
    ++ (32
        ∷ (decimal user_namespace_uid_parent_range_start
            ++ (32 ∷ (decimal user_namespace_uid_child_range_size ++ (10 ∷ [])))))

-- The loop over "uid_map" and "gid_map".
unfoldable pub write_maps : ℤ → List Bytes → M Bool
write_maps pid [] = pure true
write_maps pid (file ∷ files) = do
  done ← write_proc pid file id_map (λ fd. fd ==ℤ minus_one) (λ n. not (n ==ℤ minus_one))
  if done then write_maps pid files else pure false

-- The three files, in order.
unfoldable pub map_ids : ℤ → M Bool
map_ids pid = do
  denied ← write_proc pid (codes "setgroups") (codes "deny") is_neg (λ n. n ==ℤ pos 4)
  if denied then write_maps pid (codes "uid_map" ∷ codes "gid_map" ∷ []) else pure false

-- The label `fail`: the child is told, so that it does not wait for ever.
abbrev pub fail : ℤ → M ℤ
fail fd = do send_int fd minus_one; pure minus_one

-- The parent's end.
unfoldable pub user_namespace_prepare_mappings : ℤ → ℤ → M ℤ
user_namespace_prepare_mappings pid fd = do
  unshared ← sys (Call.read fd 4)
  if not (unshared.ret ==ℤ pos 4)
      then pure minus_one
      else if not (get_u32 unshared.out 0 == 0)
      then fail fd
      else do
        mapped ← map_ids pid
        if not mapped
            then fail fd
            else do sent ← send_int fd (pos 0); pure (if sent then pos 0 else minus_one)
