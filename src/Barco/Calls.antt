-- ===== src/Barco/Calls.antt =====
-- The calls that `main` makes, with all that it calls, and whom it signals.
pub mod Parts
pub mod Own
pub mod Whole
pub mod Tame
use docker.Base.{not, ◌&&◌, ℤ, Bytes, List, [], ◌∷◌, Bool, true, false, ◌≡◌, arith}
use docker.Sys.{M, Call}
use docker.Sys.Alphabet.{Only, only_rules, Only-if, Only-pure, Only-bind, Only-weaken}
use docker.Netlink.Creation.{makes_link}
use docker.Netlink.Calls.{
  network_call, link_call, nl_set_up-Only, nl_move_to_ns-Only, nl_add_addr-Only, nl_del_link-Only,
  nl_create_veth-Only,
}
use docker.Netlink.Link.{nl_set_up, nl_del_link, nl_create_veth, nl_move_to_ns}
use docker.Netlink.Route.{nl_add_addr}
use docker.User.{user_namespace_prepare_mappings, map_ids, write_maps, write_proc}
use docker.Cgroups.{
  CgroupsSetting, cgroups_init, cgroups_free, enable_controllers, make_dir, remake_dir,
  write_setting, write_settings,
}

-- Neither the caller's namespaces, root, name and ids nor its capabilities are changed, and no other
-- program takes its place.
abbrev pub host_call : Call → Bool
host_call (Call.execve _ _) = false
host_call (Call.chdir _) = false
host_call (Call.sethostname _) = false
host_call (Call.setresgid _) = false
host_call (Call.setresuid _) = false
host_call (Call.mount _ _ _ _) = false
host_call (Call.umount2_detach _) = false
host_call (Call.pivot_root _ _) = false
host_call (Call.unshare _) = false
host_call (Call.prctl_capbset_drop _) = false
host_call Call.cap_get_proc = false
host_call (Call.cap_clear_inheritable _) = false
host_call Call.cap_set_proc = false
host_call Call.cap_free = false
host_call Call.seccomp_init = false
host_call (Call.seccomp_rule_add _) = false
host_call Call.seccomp_nnp_off = false
host_call Call.seccomp_load = false
host_call Call.seccomp_release = false
host_call _ = true

-- Besides, no process is created, signalled or awaited.
abbrev pub still_call : Call → Bool
still_call (Call.clone _) = false
still_call (Call.kill _ _) = false
still_call (Call.waitpid _) = false
still_call c = host_call c

-- The calls for the blocks that `main` asks for itself; the command line's table is argtable3's.
abbrev pub is_heap : Call → Bool
is_heap (Call.malloc _) = true
is_heap (Call.calloc _) = true
is_heap (Call.strdup _) = true
is_heap (Call.asprintf _) = true
is_heap (Call.free _) = true
is_heap _ = false

-- Nor is the heap touched.
abbrev pub calm_call : Call → Bool
calm_call c = not (is_heap c) && still_call c

abbrev pub is_command : Call → Bool
is_command (Call.system _) = true
is_command _ = false

abbrev pub is_creation : Call → Bool
is_creation (Call.sendmsg _ nlh) = makes_link nlh
is_creation _ = false

-- Nor is a shell command run, but for the one whose output is read, or a link asked for.
abbrev pub plain_call : Call → Bool
plain_call c = not (is_command c) && (not (is_creation c) && calm_call c)

pub still_host : (c : Call) → still_call c ≡ true → host_call c ≡ true
still_host c h = ground arith

pub calm_still : (c : Call) → calm_call c ≡ true → still_call c ≡ true
calm_still c h = ground arith

pub plain_calm : (c : Call) → plain_call c ≡ true → calm_call c ≡ true
plain_calm c h = ground arith

-- For a search of a program's parts.
pub calm_part : {A : Type 0} {m : M A} → Only plain_call m → Only calm_call m
calm_part o = Only-weaken plain_calm o

pub plain_still : (c : Call) → plain_call c ≡ true → still_call c ≡ true
plain_still c h = ground arith

pub network_plain : (c : Call) → network_call c ≡ true → plain_call c ≡ true
network_plain c h = ground arith

pub set_up : (ifname : Bytes) → Only plain_call (nl_set_up ifname)
set_up ifname = Only-weaken network_plain (nl_set_up-Only ifname)

pub del_link : (ifname : Bytes) → Only plain_call (nl_del_link ifname)
del_link ifname = Only-weaken network_plain (nl_del_link-Only ifname)

link_calm : (c : Call) → link_call c ≡ true → calm_call c ≡ true
link_calm c h = ground arith

pub create_veth : (name1 name2 : Bytes) → Only calm_call (nl_create_veth name1 name2)
create_veth name1 name2 = Only-weaken link_calm (nl_create_veth-Only name1 name2)

pub move_to_ns : (ifname : Bytes) (ns_fd : ℤ) → Only plain_call (nl_move_to_ns ifname ns_fd)
move_to_ns ifname ns_fd = Only-weaken network_plain (nl_move_to_ns-Only ifname ns_fd)

pub add_addr : (ifname ip_cidr : Bytes) → Only plain_call (nl_add_addr ifname ip_cidr)
add_addr ifname ip_cidr = Only-weaken network_plain (nl_add_addr-Only ifname ip_cidr)

write_proc-Only :
    (pid : ℤ) (file text : Bytes) (failed written : ℤ → Bool)
    → Only plain_call (write_proc pid file text failed written)
unfolding write_proc
write_proc-Only pid file text failed written = search only_rules depth 40

write_maps-Only : (pid : ℤ) (files : List Bytes) → Only plain_call (write_maps pid files)
unfolding write_maps
write_maps-Only pid [] = Only-pure _
write_maps-Only pid (file ∷ files) =
    Only-bind _ _ (write_proc-Only pid file _ _ _)
      λ done. Only-if _ _ _ (write_maps-Only pid files) (Only-pure _)

map_ids-Only : (pid : ℤ) → Only plain_call (map_ids pid)
unfolding map_ids
map_ids-Only pid = search (only_rules, write_proc-Only, write_maps-Only) depth 40

pub user_namespace_prepare_mappings-Only :
    (pid fd : ℤ) → Only plain_call (user_namespace_prepare_mappings pid fd)
unfolding user_namespace_prepare_mappings
user_namespace_prepare_mappings-Only pid fd = search (only_rules, map_ids-Only) depth 40

write_settings-Only :
    (dir : Bytes) (ss : List CgroupsSetting) → Only plain_call (write_settings dir ss)
unfolding write_settings write_setting
write_settings-Only dir [] = Only-pure _
write_settings-Only dir (s ∷ ss) =
    Only-bind _ _ (search only_rules depth 40)
      λ done. Only-if _ _ _ (Only-pure _) (write_settings-Only dir ss)

pub cgroups_init-Only : (hostname : Bytes) (pid : ℤ) → Only plain_call (cgroups_init hostname pid)
unfolding cgroups_init enable_controllers make_dir remake_dir
cgroups_init-Only hostname pid = search (only_rules, write_settings-Only) depth 40

pub cgroups_free-Only : (hostname : Bytes) → Only plain_call (cgroups_free hostname)
unfolding cgroups_free
cgroups_free-Only hostname = search only_rules depth 40
