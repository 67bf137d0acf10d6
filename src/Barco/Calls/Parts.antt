-- ===== src/Barco/Calls/Parts.antt =====
-- The calls that the parts of `main` before the container's process make.
use docker.Base.{ℕ, zero, suc, Bytes, Option, none, some, refl}
use docker.Sys.Alphabet.{Only, only_rules, Only-pure, Only-bind, Only-weaken, Only-sys_ret}
use docker.Barco.Names.{generate_random_suffix, random_chars}
use docker.Barco.Nat.{enable_ip_forward, detect_host_interface, setup_nat}
use docker.Barco.Defs.{Args, Locals}
use docker.Barco.Setup.{
  fill_config, fill_network, fill_network_of, choose_peer, base_config, make_sockets, make_stack,
  host_network, host_network_of, make_veth, configure_host, apply_nat, add_host_ip,
}
use docker.Barco.Calls.{
  still_call, plain_call, calm_call, calm_part, plain_still, set_up, del_link, create_veth,
  add_addr,
}

random_chars-Only : (n : ℕ) → Only plain_call (random_chars n)
unfolding random_chars
random_chars-Only zero = Only-pure _
random_chars-Only (suc n) =
    Only-bind _ _ (Only-sys_ret _ refl) λ r. Only-bind _ _ (random_chars-Only n) λ cs. Only-pure _

pub generate_random_suffix-Only : Only plain_call generate_random_suffix
unfolding generate_random_suffix
generate_random_suffix-Only = search (only_rules, random_chars-Only) depth 40

choose_peer-Only :
    (given : Option Bytes) (veth_name suffix : Bytes)
    → Only still_call (choose_peer given veth_name suffix)
unfolding choose_peer
choose_peer-Only none veth_name suffix = search only_rules depth 40
choose_peer-Only (some given) veth_name suffix = search only_rules depth 40

suffix_still : Only still_call generate_random_suffix
suffix_still = Only-weaken plain_still generate_random_suffix-Only

fill_network-Only :
    (args : Args) (name ip : Bytes) (l : Locals) → Only still_call (fill_network args name ip l)
unfolding fill_network
fill_network-Only args name ip l = search (only_rules, suffix_still, choose_peer-Only) depth 40

pub fill_config-Only : (args : Args) (l : Locals) → Only still_call (fill_config args l)
unfolding fill_config
fill_config-Only args l =
    go args.veth_name args.container_ip (record l { config = base_config args })
  where
    go : (name ip : Option Bytes) (l : Locals) → Only still_call (fill_network_of name ip args l)
    go none ip l = Only-pure _
    go (some name) none l = Only-pure _
    go (some name) (some ip) l = fill_network-Only args name ip l

pub make_sockets-Only : (l : Locals) → Only plain_call (make_sockets l)
unfolding make_sockets
make_sockets-Only l = search only_rules depth 40

pub make_stack-Only : (l : Locals) → Only still_call (make_stack l)
unfolding make_stack
make_stack-Only l = search only_rules depth 40

setup_nat-Only : (subnet host_if : Bytes) → Only calm_call (setup_nat subnet host_if)
unfolding setup_nat
setup_nat-Only subnet host_if = search only_rules depth 40

pub detect_host_interface-Only : Only plain_call detect_host_interface
unfolding detect_host_interface
detect_host_interface-Only = search only_rules depth 40

apply_nat-Only : (ip : Bytes) (l : Locals) → Only calm_call (apply_nat ip l)
unfolding apply_nat
apply_nat-Only ip l =
    search (only_rules, calm_part, detect_host_interface-Only, setup_nat-Only) depth 40

pub add_host_ip-Only :
    (host_ip : Option Bytes) (peer : Bytes) → Only plain_call (add_host_ip host_ip peer)
add_host_ip-Only none peer = Only-pure _
add_host_ip-Only (some host_ip) peer = search (only_rules, add_addr) depth 40

pub enable_ip_forward-Only : Only plain_call enable_ip_forward
unfolding enable_ip_forward
enable_ip_forward-Only = search only_rules depth 40

configure_host-Only : (ip : Bytes) (l : Locals) → Only calm_call (configure_host ip l)
unfolding configure_host
configure_host-Only ip l =
    search (only_rules, calm_part, add_host_ip-Only, set_up, enable_ip_forward-Only, apply_nat-Only)
      depth 40

make_veth-Only : (ip : Bytes) (l : Locals) → Only calm_call (make_veth ip l)
unfolding make_veth
make_veth-Only ip l =
    search (only_rules, calm_part, del_link, create_veth, configure_host-Only) depth 40

pub host_network-Only : (l : Locals) → Only calm_call (host_network l)
unfolding host_network
host_network-Only l = go l.config.veth_name l.config.container_ip
  where
    go : (name ip : Option Bytes) → Only calm_call (host_network_of name ip l)
    go none ip = Only-pure _
    go (some name) none = Only-pure _
    go (some name) (some ip) = make_veth-Only ip l
