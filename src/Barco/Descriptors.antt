-- ===== src/Barco/Descriptors.antt =====
-- Which descriptors the parts of `main` in src/barco.c open and close, besides the socket pair.
pub mod Sockets
pub mod Kept
pub mod Held
pub mod Leaks
use docker.Base.{ℕ, zero, suc, ℤ, is_neg, refl, Bytes, Option, none, some, []}
use docker.Sys.Descriptors.{
  Settles, Settles-pure, Settles-if, Settles-bind, Settles-sys, Settles-sys_ret, Settles-close,
  Settles-open, Settles-branch, is_neg-Detects, quiet_rules,
}
use docker.Base.{arith}
use docker.Sys.{steps}
use docker.Netlink.Descriptors.{
  nl_del_link-Settles, nl_set_up-Settles, nl_create_veth-Settles, nl_add_addr-Settles,
  nl_move_to_ns-Settles,
}
use docker.Resources.{user_namespace_prepare_mappings-Settles, cgroups_init-Settles}
use docker.Container.{container_stop}
use docker.Barco.Names.{generate_random_suffix, random_chars}
use docker.Barco.Nat.{enable_ip_forward, detect_host_interface, setup_nat}
use docker.Barco.Defs.{Args, Locals}
use docker.Barco.Setup.{
  fill_config, fill_network, fill_network_of, choose_peer, base_config, make_stack, host_network,
  host_network_of, make_veth, configure_host, apply_nat, add_host_ip,
}
use docker.Barco.Run.{move_interface, move_link, confine, wait_exit, await_exit}

random_chars-Settles : (n : ℕ) → Settles [] (random_chars n)
unfolding random_chars
random_chars-Settles zero = Settles-pure _
random_chars-Settles (suc n) =
    Settles-bind (Settles-sys_ret _ (refl, λ fd. refl))
      λ r. Settles-bind (random_chars-Settles n) λ cs. Settles-pure _

generate_random_suffix-Settles : Settles [] generate_random_suffix
unfolding generate_random_suffix
generate_random_suffix-Settles = search (quiet_rules, random_chars-Settles) depth 40

choose_peer-Settles :
    (given : Option Bytes) (veth_name suffix : Bytes)
    → Settles [] (choose_peer given veth_name suffix)
unfolding choose_peer
choose_peer-Settles none veth_name suffix = search quiet_rules depth 40
choose_peer-Settles (some given) veth_name suffix = search quiet_rules depth 40

fill_network-Settles :
    (args : Args) (name ip : Bytes) (l : Locals) → Settles [] (fill_network args name ip l)
unfolding fill_network
fill_network-Settles args name ip l =
    search (quiet_rules, generate_random_suffix-Settles, choose_peer-Settles) depth 40

pub fill_config-Settles : (args : Args) (l : Locals) → Settles [] (fill_config args l)
unfolding fill_config
fill_config-Settles args l =
    go args.veth_name args.container_ip (record l { config = base_config args })
  where
    go : (name ip : Option Bytes) (l : Locals) → Settles [] (fill_network_of name ip args l)
    go none ip l = Settles-pure _
    go (some name) none l = Settles-pure _
    go (some name) (some ip) l = fill_network-Settles args name ip l

pub make_stack-Settles : (l : Locals) → Settles [] (make_stack l)
unfolding make_stack
make_stack-Settles l = search quiet_rules depth 40

setup_nat-Settles : (subnet host_if : Bytes) → Settles [] (setup_nat subnet host_if)
unfolding setup_nat
setup_nat-Settles subnet host_if = search quiet_rules depth 40

detect_host_interface-Settles : Settles [] detect_host_interface
unfolding detect_host_interface steps
detect_host_interface-Settles = record { settled = λ k t fd. ground arith }

apply_nat-Settles : (ip : Bytes) (l : Locals) → Settles [] (apply_nat ip l)
unfolding apply_nat
apply_nat-Settles ip l =
    search (quiet_rules, detect_host_interface-Settles, setup_nat-Settles) depth 40

add_host_ip-Settles :
    (host_ip : Option Bytes) (peer : Bytes) → Settles [] (add_host_ip host_ip peer)
add_host_ip-Settles none peer = Settles-pure _
add_host_ip-Settles (some host_ip) peer = search (quiet_rules, nl_add_addr-Settles) depth 40

enable_ip_forward-Settles : Settles [] enable_ip_forward
unfolding enable_ip_forward
enable_ip_forward-Settles =
    Settles-open _ refl (λ fd. refl)
      λ d. Settles-branch is_neg d is_neg-Detects (Settles-pure _) (
        Settles-bind (Settles-sys_ret _ (refl, λ fd. refl))
          λ n. Settles-close d λ r. Settles-pure _)

configure_host-Settles : (ip : Bytes) (l : Locals) → Settles [] (configure_host ip l)
unfolding configure_host
configure_host-Settles ip l =
    search
      (
        quiet_rules, add_host_ip-Settles, nl_set_up-Settles, enable_ip_forward-Settles,
        apply_nat-Settles,
      )
      depth 40

make_veth-Settles : (ip : Bytes) (l : Locals) → Settles [] (make_veth ip l)
unfolding make_veth
make_veth-Settles ip l =
    search (quiet_rules, nl_del_link-Settles, nl_create_veth-Settles, configure_host-Settles) depth
      40

pub host_network-Settles : (l : Locals) → Settles [] (host_network l)
unfolding host_network
host_network-Settles l = go l.config.veth_name l.config.container_ip
  where
    go : (name ip : Option Bytes) → Settles [] (host_network_of name ip l)
    go none ip = Settles-pure _
    go (some name) none = Settles-pure _
    go (some name) (some ip) = make_veth-Settles ip l

container_stop-Settles : (pid : ℤ) → Settles [] (container_stop pid)
unfolding container_stop
container_stop-Settles pid = search quiet_rules depth 40

move_link-Settles : (veth_tmp : Bytes) (l : Locals) → Settles [] (move_link veth_tmp l)
unfolding move_link
move_link-Settles veth_tmp l =
    Settles-open _ refl (λ fd. refl)
      λ d.
        Settles-branch is_neg d is_neg-Detects
          (search (quiet_rules, container_stop-Settles) depth 40)
          (Settles-bind (nl_move_to_ns-Settles veth_tmp d)
            λ moved. Settles-close d λ r. search (quiet_rules, container_stop-Settles) depth 40)

pub move_interface-Settles : (l : Locals) → Settles [] (move_interface l)
unfolding move_interface
move_interface-Settles l = search (quiet_rules, move_link-Settles) depth 40

pub confine-Settles : (l : Locals) → Settles [] (confine l)
unfolding confine
confine-Settles l =
    search
      (
        quiet_rules, cgroups_init-Settles, user_namespace_prepare_mappings-Settles,
        container_stop-Settles,
      )
      depth 40

wait_exit-Settles : (rounds : ℕ) (pid : ℤ) → Settles [] (wait_exit rounds pid)
unfolding wait_exit
wait_exit-Settles zero pid = Settles-pure _
wait_exit-Settles (suc rounds) pid = Settles-bind (Settles-sys _ (refl, λ fd. refl)) λ w.
    Settles-if _ (Settles-if _ (wait_exit-Settles rounds pid) (Settles-pure _))
      (Settles-if _ (Settles-pure _) (wait_exit-Settles rounds pid))

pub await_exit-Settles : (rounds : ℕ) (l : Locals) → Settles [] (await_exit rounds l)
unfolding await_exit
await_exit-Settles rounds l = search (quiet_rules, wait_exit-Settles) depth 40
