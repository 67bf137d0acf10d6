-- ===== src/Container/Descriptors.antt =====
-- Which descriptors `container_start` of src/container.c opens and closes.
use docker.Base.{
  ℕ, zero, suc, ◌+◌, ◌≤◌, ℤ, is_neg, ◌≡◌, refl, arith, Bytes, Option, none, some, true, false,
  Bool-cases, inl, inr, List, [], ◌∷◌,
}
use docker.Sys.{Kernel, Trace, Call, Capability, steps}
use docker.Sys.Alphabet.{admits}
use docker.Sys.Descriptors.{
  Handle, is_descriptor, Settles, Settles-pure, Settles-if, Settles-bind, Settles-sys_ret,
  Settles-close, Settles-open, Settles-branch, is_neg-Detects, is_quiet, quiet_sys_ret, quiet_rules,
  opened, closed, times,
}
use docker.Netlink.Descriptors.{
  nl_set_up-Settles, nl_rename_link-Settles, nl_add_addr-Settles, nl_add_route-Settles,
}
use docker.User.{user_namespace_init, switch_ids}
use docker.Mount.{mount_set, pivot_root, leave_old_root, all_zero}
use docker.Sec.{sec_set_caps, sec_set_seccomp, all_done, drop_bounding, rules, seccomp_calls}
use docker.Container.{
  resolv_conf, ContainerConfig, container_start, prepare, restrict, execute, fail, set_hostname,
  setup_dns, enable_ping_dgram, wait_visible, take_interface, default_route, configure_network,
  configure_network_of, buffered,
}

all_zero-Settles : (cs : List Call) → admits is_quiet cs ≡ true → Settles [] (all_zero cs)
unfolding all_zero
all_zero-Settles [] h = Settles-pure _
all_zero-Settles (c ∷ cs) h =
    Settles-bind (quiet_sys_ret c (ground arith))
      λ r. Settles-if _ (Settles-pure _) (all_zero-Settles cs (ground arith))

all_done-Settles : (cs : List Call) → admits is_quiet cs ≡ true → Settles [] (all_done cs)
unfolding all_done
all_done-Settles [] h = Settles-pure _
all_done-Settles (c ∷ cs) h =
    Settles-bind (quiet_sys_ret c (ground arith))
      λ r. Settles-if _ (Settles-pure _) (all_done-Settles cs (ground arith))

drop_bounding-Settles : (caps : List Capability) → Settles [] (drop_bounding caps)
unfolding drop_bounding
drop_bounding-Settles [] = Settles-pure _
drop_bounding-Settles (c ∷ cs) =
    Settles-bind (quiet_sys_ret (Call.prctl_capbset_drop c) refl)
      λ r. Settles-if _ (Settles-pure _) (drop_bounding-Settles cs)

sec_set_caps-Settles : Settles [] sec_set_caps
unfolding sec_set_caps
sec_set_caps-Settles = search (quiet_rules, drop_bounding-Settles, all_done-Settles) depth 40

seccomp_calls-admits : admits is_quiet (seccomp_calls rules) ≡ true
unfolding seccomp_calls rules
seccomp_calls-admits = refl

sec_set_seccomp-Settles : Settles [] sec_set_seccomp
unfolding sec_set_seccomp
sec_set_seccomp-Settles = search (quiet_rules, all_done-Settles, seccomp_calls-admits) depth 40

user_namespace_init-Settles : (uid : ℕ) (fd : ℤ) → Settles [] (user_namespace_init uid fd)
unfolding user_namespace_init switch_ids
user_namespace_init-Settles uid fd = search quiet_rules depth 40

mount_set-Settles : (mnt : Bytes) → Settles [] (mount_set mnt)
unfolding mount_set pivot_root leave_old_root
mount_set-Settles mnt = search (quiet_rules, all_zero-Settles) depth 40

buffered-Settles : (text : Bytes) → Settles [] (buffered text)
unfolding buffered
buffered-Settles text = search quiet_rules depth 40

setup_dns-Settles : (dns_server : Option Bytes) → Settles [] (setup_dns dns_server)
unfolding setup_dns
setup_dns-Settles none = Settles-pure _
setup_dns-Settles (some dns_server) =
    Settles-open _ refl (λ fd. refl)
      λ d. Settles-branch is_neg d is_neg-Detects (Settles-pure _) (
        Settles-bind (buffered-Settles (resolv_conf dns_server)) λ buf.
          Settles-bind (Settles-sys_ret _ (refl, λ fd. refl))
            λ n. Settles-close d λ r. Settles-pure _)

enable_ping_dgram-Settles : Settles [] enable_ping_dgram
unfolding enable_ping_dgram
enable_ping_dgram-Settles =
    Settles-open _ refl (λ fd. refl)
      λ d. Settles-branch is_neg d is_neg-Detects (Settles-pure _) (
        Settles-bind (Settles-sys_ret _ (refl, λ fd. refl))
          λ n. Settles-close d λ r. Settles-pure _)

wait_visible-Settles :
    (fuel : ℕ) (veth_tmp : Bytes) (waited : ℕ) → Settles [] (wait_visible fuel veth_tmp waited)
unfolding wait_visible
wait_visible-Settles zero veth_tmp waited = Settles-pure _
wait_visible-Settles (suc fuel) veth_tmp waited = Settles-bind (quiet_sys_ret _ refl) λ idx.
    Settles-if _
      (Settles-bind (quiet_sys_ret _ refl) λ r. wait_visible-Settles fuel veth_tmp (waited + 100))
      (Settles-pure _)

take_interface-Settles :
    (veth_tmp : Option Bytes) (veth_name : Bytes) → Settles [] (take_interface veth_tmp veth_name)
unfolding take_interface
take_interface-Settles none veth_name = Settles-pure _
take_interface-Settles (some veth_tmp) veth_name =
    search (quiet_rules, wait_visible-Settles, nl_rename_link-Settles) depth 40

default_route-Settles :
    (host_ip : Option Bytes) (veth_name : Bytes) → Settles [] (default_route host_ip veth_name)
unfolding default_route
default_route-Settles none veth_name = Settles-pure _
default_route-Settles (some host_ip) veth_name = search (quiet_rules, nl_add_route-Settles) depth 40

configure_network-Settles : (config : ContainerConfig) → Settles [] (configure_network config)
unfolding configure_network
configure_network-Settles config = go config.veth_name config.container_ip
  where
    go : (name ip : Option Bytes) → Settles [] (configure_network_of config name ip)
    go none ip = Settles-pure _
    go (some veth_name) none = Settles-pure _
    go (some veth_name) (some ip) =
        search
          (
            quiet_rules, nl_set_up-Settles, nl_add_addr-Settles, take_interface-Settles,
            default_route-Settles,
          )
          depth 40

set_hostname-Settles : (hostname : Option Bytes) → Settles [] (set_hostname hostname)
unfolding set_hostname
set_hostname-Settles none = Settles-pure _
set_hostname-Settles (some hostname) = search quiet_rules depth 40

prepare-Settles : (config : ContainerConfig) → Settles [] (prepare config)
unfolding prepare
prepare-Settles config =
    search
      (
        quiet_rules, set_hostname-Settles, mount_set-Settles, configure_network-Settles,
        setup_dns-Settles, enable_ping_dgram-Settles,
      )
      depth 40

restrict-Settles : (config : ContainerConfig) → Settles [] (restrict config)
unfolding restrict
restrict-Settles config =
    search (quiet_rules, user_namespace_init-Settles, sec_set_caps-Settles, sec_set_seccomp-Settles)
      depth 40

-- The end of the socket pair is closed, or its number is negative.
fail_closes :
    (config : ContainerConfig) (k : Kernel) (t : Trace) (fd : Handle)
    → let u = (fail false config k t).1 in
      opened k u fd + closed t fd + times (config.fd ∷ []) fd ≤ closed u fd + opened k t fd
unfolding fail steps
fail_closes config k t fd = ground (arith, negative)
  where
    negative : is_neg config.fd ≡ true → is_descriptor config.fd fd ≡ false
    negative = is_neg-Detects config.fd fd

execute_closes :
    (config : ContainerConfig) (k : Kernel) (t : Trace) (fd : Handle)
    → let u = (execute config k t).1 in
      opened k u fd + closed t fd + times (config.fd ∷ []) fd ≤ closed u fd + opened k t fd
unfolding execute fail steps
execute_closes config k t fd = ground arith

-- On every path, `container_start` closes each number that one of its calls gave out as often at least as
-- it was given out, and besides that the child's end of the socket pair once, unless that is negative.
pub container_start_leaks_nothing :
    (config : ContainerConfig) (k : Kernel) (t : Trace) (fd : Handle)
    → let u = (container_start config k t).1 in
      opened k u fd + closed t fd + times (config.fd ∷ []) fd ≤ closed u fd + opened k t fd
unfolding container_start steps
container_start_leaks_nothing config k t fd =
    let (prepared, u) = prepare config k t in
    let (restricted, v) = restrict config k u in
    let p = (prepare-Settles config).settled k t fd in
    let r = (restrict-Settles config).settled k u fd in
    elim (Bool-cases prepared) [
      | inr unprepared ↦ rw unprepared (omega (arith, p, fail_closes config k u fd))
      | inl ready ↦ elim (Bool-cases restricted) [
        | inr unrestricted ↦
            rw (ready, unrestricted) (omega (arith, p, r, fail_closes config k v fd))
        | inl done ↦ rw (ready, done) (omega (arith, p, r, execute_closes config k v fd))
      ]
    ]
