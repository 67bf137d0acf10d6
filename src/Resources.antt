-- ===== src/Resources.antt =====
-- The descriptors that `user_namespace_prepare_mappings` of src/user.c and `cgroups_init` of
-- src/cgroups.c open, and their helpers.
use docker.Base.{
  ℤ, is_neg, Bytes, List, [], ◌∷◌, refl, pos, Bool, false, codes, nonzero, not, ◌&&◌, ◌==◌, ◌==ℤ◌,
  minus_one,
}
use docker.Sys.{Call, sys_ret}
use docker.Sys.Descriptors.{
  Settles, Settles-pure, Settles-if, Settles-bind, Settles-sys, Settles-sys_ret, Settles-close,
  Settles-open, Settles-branch, is_neg-Detects, eq_minus_one-Detects, Detects, Neutral,
}
use docker.User.{send_int, fail, write_proc, write_maps, map_ids, user_namespace_prepare_mappings}
use docker.Cgroups.{
  CgroupsSetting, cgroups_init, enable_controllers, cgroup_dir, make_dir, remake_dir, write_setting,
  write_settings, cgroups_setting_list,
}

quiet : (c : Call) → Neutral c → Settles [] (sys_ret c)
quiet = Settles-sys_ret

write_proc-Settles :
    (pid : ℤ) (file text : Bytes) (failed written : ℤ → Bool)
    → Detects failed
    → Settles [] (write_proc pid file text failed written)
unfolding write_proc
write_proc-Settles pid file text failed written detects = Settles-if _ (Settles-pure _) (
    Settles-open _ refl (λ fd. refl)
      λ d.
        Settles-branch failed d detects (Settles-pure _)
          (Settles-bind (quiet _ (refl, λ fd. refl)) λ n. Settles-close d λ r. Settles-pure _))

write_maps-Settles : (pid : ℤ) (files : List Bytes) → Settles [] (write_maps pid files)
unfolding write_maps
write_maps-Settles pid [] = Settles-pure _
write_maps-Settles pid (file ∷ files) =
    Settles-bind (write_proc-Settles pid file _ _ _ eq_minus_one-Detects)
      λ done. Settles-if _ (write_maps-Settles pid files) (Settles-pure _)

map_ids-Settles : (pid : ℤ) → Settles [] (map_ids pid)
unfolding map_ids
map_ids-Settles pid = Settles-bind (write_proc-Settles pid _ _ _ _ is_neg-Detects) λ denied.
    Settles-if _ (write_maps-Settles pid (codes "uid_map" ∷ codes "gid_map" ∷ []))
      (Settles-pure false)

-- On every path `user_namespace_prepare_mappings` closes each descriptor as often as it opens it: no file
-- under /proc stays open.
pub user_namespace_prepare_mappings-Settles :
    (pid fd : ℤ) → Settles [] (user_namespace_prepare_mappings pid fd)
unfolding user_namespace_prepare_mappings
user_namespace_prepare_mappings-Settles pid fd =
    Settles-bind (Settles-sys _ (refl, λ fd. refl)) λ unshared. Settles-if _ (Settles-pure _) (
      Settles-if _ failing (
        Settles-bind (map_ids-Settles pid)
          λ mapped. Settles-if _ failing (Settles-bind (sending (pos 0)) λ sent. Settles-pure _)))
  where
    sending : (x : ℤ) → Settles [] (send_int fd x)
    sending x = Settles-bind (quiet _ (refl, λ fd. refl)) λ n. Settles-pure _

    failing : Settles [] (fail fd)
    failing = Settles-bind (sending minus_one) λ n. Settles-pure _

enable_controllers-Settles : Settles [] enable_controllers
unfolding enable_controllers
enable_controllers-Settles =
    Settles-open _ refl (λ fd. refl)
      λ d.
        Settles-branch is_neg d is_neg-Detects (Settles-pure _)
          (Settles-bind (quiet _ (refl, λ fd. refl)) λ n. Settles-close d λ r. Settles-pure _)

remake_dir-Settles : (dir : Bytes) → Settles [] (remake_dir dir)
unfolding remake_dir
remake_dir-Settles dir = Settles-bind (Settles-sys (Call.rmdir dir) (refl, λ fd. refl)) λ removed.
    Settles-if (is_neg removed.ret && not (removed.errno == 2)) (Settles-pure _)
      (Settles-bind (quiet (Call.mkdir dir) (refl, λ fd. refl)) λ again. Settles-pure _)

make_dir-Settles : (dir : Bytes) → Settles [] (make_dir dir)
unfolding make_dir
make_dir-Settles dir = Settles-bind (Settles-sys (Call.mkdir dir) (refl, λ fd. refl)) λ made.
    Settles-if (not (nonzero made.ret)) (Settles-pure _)
      (Settles-if (made.errno == 17) (remake_dir-Settles dir) (Settles-pure _))

write_settings-Settles :
    (dir : Bytes) (settings : List CgroupsSetting) → Settles [] (write_settings dir settings)
unfolding write_settings
write_settings-Settles dir [] = Settles-pure _
write_settings-Settles dir (setting ∷ settings) =
    Settles-bind one λ done. Settles-if _ (Settles-pure _) (write_settings-Settles dir settings)
  where
    one : Settles [] (write_setting dir setting)
    one =
        Settles-open _ refl (λ fd. refl)
          λ d.
            Settles-branch (λ d. d ==ℤ minus_one) d eq_minus_one-Detects (Settles-pure _)
              (Settles-bind (quiet _ (refl, λ fd. refl)) λ n. Settles-close d λ r. Settles-pure _)

-- On every path `cgroups_init` closes each descriptor as often as it opens it: no control file stays
-- open.
pub cgroups_init-Settles : (hostname : Bytes) (pid : ℤ) → Settles [] (cgroups_init hostname pid)
unfolding cgroups_init
cgroups_init-Settles hostname pid = Settles-bind enable_controllers-Settles λ u.
    Settles-bind (make_dir-Settles _) λ made.
      Settles-if _ (Settles-pure _)
        (write_settings-Settles (cgroup_dir hostname) (cgroups_setting_list pid))
