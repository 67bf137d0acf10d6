-- ===== src/Container/Calls.antt =====
-- The calls that `container_start` makes, with all that it calls.
use docker.Base.{
  ℕ, zero, suc, ◌+◌, ℤ, Bytes, List, [], ◌∷◌, Option, none, some, Bool, true, false, refl, ◌≡◌,
  arith,
}
use docker.Sys.{Call, Capability}
use docker.Sys.Alphabet.{
  Only, only_rules, Only-if, Only-pure, Only-bind, Only-sys_ret, Only-weaken, admits,
}
use docker.Netlink.Calls.{
  network_call, nl_set_up-Only, nl_rename_link-Only, nl_add_addr-Only, nl_add_route-Only,
}
use docker.Netlink.Link.{nl_set_up, nl_rename_link}
use docker.Netlink.Route.{nl_add_addr, nl_add_route}
use docker.User.{user_namespace_init, switch_ids}
use docker.Mount.{mount_set, pivot_root, leave_old_root, all_zero}
use docker.Sec.{sec_set_caps, sec_set_seccomp, all_done, drop_bounding, rules, seccomp_calls}
use docker.Container.{
  ContainerConfig, container_start, prepare, restrict, execute, fail, set_hostname, setup_dns,
  enable_ping_dgram, wait_visible, take_interface, default_route, configure_network,
  configure_network_of, buffered,
}

-- No process is created, signalled or waited for, no shell command is run, no socket pair is made.
abbrev pub container_call : Call → Bool
container_call (Call.clone _) = false
container_call (Call.kill _ _) = false
container_call (Call.waitpid _) = false
container_call (Call.system _) = false
container_call (Call.popen _) = false
container_call Call.socketpair = false
container_call _ = true

network_container : (c : Call) → network_call c ≡ true → container_call c ≡ true
network_container c h = ground arith

all_zero-Only :
    (cs : List Call) → admits container_call cs ≡ true → Only container_call (all_zero cs)
unfolding all_zero
all_zero-Only [] h = Only-pure _
all_zero-Only (c ∷ cs) h =
    Only-bind _ _ (Only-sys_ret c (ground arith))
      λ r. Only-if _ _ _ (Only-pure _) (all_zero-Only cs (ground arith))

pub all_done-Only : {P : Call → Bool} (cs : List Call) → admits P cs ≡ true → Only P (all_done cs)
unfolding all_done
all_done-Only [] h = Only-pure _
all_done-Only (c ∷ cs) h =
    Only-bind _ _ (Only-sys_ret c (ground arith))
      λ r. Only-if _ _ _ (Only-pure _) (all_done-Only cs (ground arith))

drop_bounding-Only : (caps : List Capability) → Only container_call (drop_bounding caps)
unfolding drop_bounding
drop_bounding-Only [] = Only-pure _
drop_bounding-Only (c ∷ cs) =
    Only-bind _ _ (Only-sys_ret (Call.prctl_capbset_drop c) refl)
      λ r. Only-if _ _ _ (Only-pure _) (drop_bounding-Only cs)

sec_set_caps-Only : Only container_call sec_set_caps
unfolding sec_set_caps
sec_set_caps-Only = search (only_rules, drop_bounding-Only, all_done-Only) depth 40

seccomp_calls-admits : admits container_call (seccomp_calls rules) ≡ true
unfolding seccomp_calls rules
seccomp_calls-admits = refl

sec_set_seccomp-Only : Only container_call sec_set_seccomp
unfolding sec_set_seccomp
sec_set_seccomp-Only = search (only_rules, all_done-Only, seccomp_calls-admits) depth 40

user_namespace_init-Only : (uid : ℕ) (fd : ℤ) → Only container_call (user_namespace_init uid fd)
unfolding user_namespace_init switch_ids
user_namespace_init-Only uid fd = search only_rules depth 40

mount_set-Only : (mnt : Bytes) → Only container_call (mount_set mnt)
unfolding mount_set pivot_root leave_old_root
mount_set-Only mnt = search (only_rules, all_zero-Only) depth 40

setup_dns-Only : (dns_server : Option Bytes) → Only container_call (setup_dns dns_server)
unfolding setup_dns buffered
setup_dns-Only none = search only_rules depth 40
setup_dns-Only (some dns_server) = search only_rules depth 40

enable_ping_dgram-Only : Only container_call enable_ping_dgram
unfolding enable_ping_dgram
enable_ping_dgram-Only = search only_rules depth 40

wait_visible-Only :
    (fuel : ℕ) (veth_tmp : Bytes) (waited : ℕ)
    → Only container_call (wait_visible fuel veth_tmp waited)
unfolding wait_visible
wait_visible-Only zero veth_tmp waited = Only-pure _
wait_visible-Only (suc fuel) veth_tmp waited = Only-bind _ _ (Only-sys_ret _ refl) λ idx.
    Only-if _ _ _
      (Only-bind _ _ (Only-sys_ret _ refl) λ r. wait_visible-Only fuel veth_tmp (waited + 100))
      (Only-pure _)

set_up : (ifname : Bytes) → Only container_call (nl_set_up ifname)
set_up ifname = Only-weaken network_container (nl_set_up-Only ifname)

rename : (oldname newname : Bytes) → Only container_call (nl_rename_link oldname newname)
rename oldname newname = Only-weaken network_container (nl_rename_link-Only oldname newname)

add_addr : (ifname ip_cidr : Bytes) → Only container_call (nl_add_addr ifname ip_cidr)
add_addr ifname ip_cidr = Only-weaken network_container (nl_add_addr-Only ifname ip_cidr)

add_route : (dest gateway dev : Option Bytes) → Only container_call (nl_add_route dest gateway dev)
add_route dest gateway dev = Only-weaken network_container (nl_add_route-Only dest gateway dev)

take_interface-Only :
    (veth_tmp : Option Bytes) (veth_name : Bytes)
    → Only container_call (take_interface veth_tmp veth_name)
unfolding take_interface
take_interface-Only none veth_name = Only-pure _
take_interface-Only (some veth_tmp) veth_name =
    search (only_rules, wait_visible-Only, rename) depth 40

default_route-Only :
    (host_ip : Option Bytes) (veth_name : Bytes)
    → Only container_call (default_route host_ip veth_name)
unfolding default_route
default_route-Only none veth_name = Only-pure _
default_route-Only (some host_ip) veth_name = search (only_rules, add_route) depth 40

configure_network-Only : (config : ContainerConfig) → Only container_call (configure_network config)
unfolding configure_network
configure_network-Only config = go config.veth_name config.container_ip
  where
    go : (name ip : Option Bytes) → Only container_call (configure_network_of config name ip)
    go none ip = Only-pure _
    go (some veth_name) none = Only-pure _
    go (some veth_name) (some ip) =
        search (only_rules, set_up, add_addr, take_interface-Only, default_route-Only) depth 40

set_hostname-Only : (hostname : Option Bytes) → Only container_call (set_hostname hostname)
unfolding set_hostname
set_hostname-Only none = Only-pure _
set_hostname-Only (some hostname) = search only_rules depth 40

prepare-Only : (config : ContainerConfig) → Only container_call (prepare config)
unfolding prepare
prepare-Only config =
    search
      (
        only_rules, set_hostname-Only, mount_set-Only, configure_network-Only, setup_dns-Only,
        enable_ping_dgram-Only,
      )
      depth 40

restrict-Only : (config : ContainerConfig) → Only container_call (restrict config)
unfolding restrict
restrict-Only config =
    search (only_rules, user_namespace_init-Only, sec_set_caps-Only, sec_set_seccomp-Only) depth 40

-- The container's process, up to the command, creates, signals and awaits no process, runs no shell
-- command and makes no socket pair, on any path.
pub container_start-Only : (config : ContainerConfig) → Only container_call (container_start config)
unfolding container_start execute fail
container_start-Only config = search (only_rules, prepare-Only, restrict-Only) depth 40
