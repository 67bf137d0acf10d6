-- ===== src/Cgroups.antt =====
-- src/cgroups.c: the container's control group and its limits.
pub mod Laws
use docker.Base.{
  ℕ, ℤ, pos, minus_one, is_neg, nonzero, not, ◌&&◌, ◌==◌, ◌==ℤ◌, Bytes, List, [], ◌∷◌, ◌++◌, codes,
  snprintf, decimal_ℤ, if◌then◌else◌,
}
use docker.Sys.{M, Call, OpenMode, pure, sys, sys_ret, ◌>>=◌, ◌>>◌}

-- struct cgroups_setting
pub record CgroupsSetting : Type 0 where
  pub name : Bytes
  pub value : Bytes

abbrev pub cgroups_memory_max : Bytes
cgroups_memory_max = codes "1G"

abbrev pub cgroups_cpu_weight : Bytes
cgroups_cpu_weight = codes "256"

abbrev pub cgroups_pids_max : Bytes
cgroups_pids_max = codes "64"

abbrev pub cgroups_cgroup_procs : Bytes
cgroups_cgroup_procs = codes "cgroup.procs"

abbrev pub cgroups_control_field_size : ℕ
cgroups_control_field_size = 256

unfoldable pub cgroups_setting_list : ℤ → List CgroupsSetting
unfolding decimal_ℤ
cgroups_setting_list pid =
    record { name = codes "memory.max"; value = cgroups_memory_max }
    ∷ record { name = codes "cpu.weight"; value = cgroups_cpu_weight }
    ∷ record { name = codes "pids.max"; value = cgroups_pids_max }
    ∷ record {
      name = cgroups_cgroup_procs;
      value = snprintf cgroups_control_field_size (decimal_ℤ pid);
    }
    ∷ []

unfoldable pub cgroup_dir : Bytes → Bytes
cgroup_dir hostname = snprintf 4096 (codes "/sys/fs/cgroup/" ++ hostname)

unfoldable pub setting_dir : Bytes → Bytes → Bytes
setting_dir dir name = snprintf 4096 (dir ++ (b'/' ∷ name))

-- The controllers are enabled where that is possible; nothing is checked.
unfoldable pub enable_controllers : M (Unit {0})
enable_controllers = do
  fd ← sys_ret (Call.open_file (codes "/sys/fs/cgroup/cgroup.subtree_control") OpenMode.o_wronly)
  if is_neg fd
      then pure tt
      else do sys_ret (Call.write fd (codes "+cpu +memory +pids")); sys_ret (Call.close fd); pure tt

-- A directory that is left over is removed, and made anew. ENOENT is 2.
unfoldable pub remake_dir : Bytes → M ℤ
remake_dir dir = do
  removed ← sys (Call.rmdir dir)
  if is_neg removed.ret && not (removed.errno == 2)
      then pure minus_one
      else do again ← sys_ret (Call.mkdir dir); pure (if nonzero again then minus_one else pos 0)

-- EEXIST is 17.
unfoldable pub make_dir : Bytes → M ℤ
unfolding remake_dir
make_dir dir = do
  made ← sys (Call.mkdir dir)
  if not (nonzero made.ret)
      then pure (pos 0)
      else if made.errno == 17
      then remake_dir dir
      else pure minus_one

-- One round of the loop over the settings.
unfoldable pub write_setting : Bytes → CgroupsSetting → M ℤ
unfolding setting_dir
write_setting dir setting = do
  fd ← sys_ret (Call.open_file (setting_dir dir setting.name) OpenMode.o_wronly)
  if fd ==ℤ minus_one then pure minus_one else do
    n ← sys_ret (Call.write fd setting.value)
    closed ← sys_ret (Call.close fd)
    pure (if n ==ℤ minus_one then minus_one else if nonzero closed then minus_one else pos 0)

unfoldable pub write_settings : Bytes → List CgroupsSetting → M ℤ
unfolding write_setting
write_settings dir [] = pure (pos 0)
write_settings dir (setting ∷ settings) = do
  done ← write_setting dir setting
  if is_neg done then pure minus_one else write_settings dir settings

unfoldable pub cgroups_init : Bytes → ℤ → M ℤ
cgroups_init hostname pid = do
  enable_controllers
  made ← make_dir (cgroup_dir hostname)
  if is_neg made
      then pure minus_one
      else write_settings (cgroup_dir hostname) (cgroups_setting_list pid)

unfoldable pub cgroups_free : Bytes → M ℤ
unfolding cgroup_dir
cgroups_free hostname = do
  removed ← sys_ret (Call.rmdir (cgroup_dir hostname))
  pure (if nonzero removed then minus_one else pos 0)
