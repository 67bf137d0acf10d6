-- ===== src/Barco/Setup.antt =====
-- `main` up to the container process: the configuration, the sockets, the stack and the host's
-- network (its parts 3 to 6).
use docker.Base.{
  ◌^◌, pos, is_neg, nonzero, not, ◌&&◌, wrap, Bool, true, false, Bytes, Option, none, some, [],
  codes, get_or, if◌then◌else◌,
}
use docker.Sys.{M, Call, Block, pure, sys, sys_ret, ◌>>=◌, ◌>>◌}
use docker.Container.{ContainerConfig}
use docker.Netlink.Link.{nl_del_link, nl_create_veth, nl_set_up}
use docker.Netlink.Route.{nl_add_addr}
use docker.Barco.Names.{generate_random_suffix, peer_name, tmp_name}
use docker.Barco.Nat.{enable_ip_forward, detect_host_interface, setup_nat, setup_subnet}
use docker.Barco.Defs.{Args, Locals, Flow, next, failed}

-- The text of a pointer that the code takes not to be NULL.
abbrev pub text_of : Option Bytes → Bytes
text_of none = []
text_of (some s) = s

abbrev pub is_set : Option Bytes → Bool
is_set none = false
is_set (some s) = true

-- The fields that do not depend on the network.
unfoldable pub base_config : Args → ContainerConfig
base_config args = record {
  uid = wrap (2 ^ 32) args.uid;
  fd = pos 0;
  hostname = some (codes "barcontainer");
  cmd = args.cmd;
  arg = args.arg;
  mnt = args.mnt;
  veth_name = none;
  veth_peer = none;
  veth_tmp = none;
  container_ip = none;
  host_ip = none;
  dns_server = elim args.dns [ none ↦ some (codes "8.8.8.8") | some ip ↦ some ip ];
  enable_nat = false;
}

-- The peer's name, made up or copied; `none` where the allocation fails.
unfoldable pub choose_peer : Option Bytes → Bytes → Bytes → M (Option Bytes)
choose_peer none veth_name suffix = do
  r ← sys_ret (Call.asprintf Block.veth_peer)
  pure (if is_neg r then none else some (peer_name veth_name suffix))
choose_peer (some given) veth_name suffix = do
  p ← sys_ret (Call.strdup Block.veth_peer)
  pure (if nonzero p then some given else none)

-- The network's fields, where an interface and an address are given.
unfoldable pub fill_network : Args → Bytes → Bytes → Locals → M Flow
fill_network args veth_name container_ip l = do
  suffix ← generate_random_suffix
  let config = record (l.config) {
    veth_name = some veth_name;
    container_ip = some container_ip;
    host_ip = args.host_ip;
    enable_nat = args.nat;
  }
  peer ← choose_peer args.veth_peer veth_name suffix
  if not (is_set peer) then pure (failed (record l { config = config })) else do
    r ← sys_ret (Call.asprintf Block.veth_tmp)
    let named = record config { veth_peer = peer }
    pure (
        if is_neg r
        then failed (record l { config = named })
        else next (record l { config = record named { veth_tmp = some (tmp_name suffix) } }))

abbrev pub fill_network_of : Option Bytes → Option Bytes → Args → Locals → M Flow
fill_network_of none ip args l = pure (next l)
fill_network_of (some veth_name) none args l = pure (next l)
fill_network_of (some veth_name) (some ip) args l = fill_network args veth_name ip l

unfoldable pub fill_config : Args → Locals → M Flow
fill_config args l =
    fill_network_of args.veth_name args.container_ip args (record l { config = base_config args })

-- Part 4. The test of the effective user only warns.
unfoldable pub make_sockets : Locals → M Flow
make_sockets l = do
  sys_ret Call.geteuid
  pair ← sys Call.socketpair
  if is_neg pair.ret then pure (failed l) else do
    let open_pair = record l {
      socket0 = pos (get_or pair.out 0 0);
      socket1 = pos (get_or pair.out 1 0);
    }
    r ← sys_ret (Call.fcntl_cloexec (pos (get_or pair.out 0 0)))
    let config = record (l.config) { fd = pos (get_or pair.out 1 0) }
    pure (if is_neg r then failed open_pair else next (record open_pair { config = config }))

-- Part 5.
unfoldable pub make_stack : Locals → M Flow
make_stack l = do
  p ← sys_ret (Call.malloc Block.stack)
  pure (if nonzero p then next (record l { stack = true }) else failed l)

-- The masquerading of the container's subnet, if it is asked for.
unfoldable pub apply_nat : Bytes → Locals → M Flow
apply_nat container_ip l = do
  (status, line) ← detect_host_interface
  let host_if = if is_neg status then codes "eth0" else line
  r ← setup_nat (setup_subnet container_ip) host_if
  pure (next (record l { host_if = host_if; nat_applied = not (is_neg r) }))

abbrev pub add_host_ip : Option Bytes → Bytes → M (Unit {0})
add_host_ip none peer = pure tt
add_host_ip (some host_ip) peer = nl_add_addr peer host_ip >> pure tt

abbrev pub forward_if : Bool → M (Unit {0})
forward_if given = if given then enable_ip_forward >> pure tt else pure tt

-- Part 6 behind the creation of the pair: none of its failures is fatal.
unfoldable pub configure_host : Bytes → Locals → M Flow
configure_host container_ip l = do
  let peer = text_of l.config.veth_peer
  add_host_ip l.config.host_ip peer
  nl_set_up peer
  forward_if (is_set l.config.host_ip)
  if l.config.enable_nat && is_set l.config.host_ip then apply_nat container_ip l else pure (next l)

unfoldable pub make_veth : Bytes → Locals → M Flow
make_veth container_ip l = do
  let tmp = text_of l.config.veth_tmp
  let peer = text_of l.config.veth_peer
  nl_del_link tmp
  nl_del_link peer
  r ← nl_create_veth tmp peer
  if is_neg r
      then pure (failed l)
      else configure_host container_ip (record l { veth_created = true })

abbrev pub host_network_of : Option Bytes → Option Bytes → Locals → M Flow
host_network_of none ip l = pure (next l)
host_network_of (some veth_name) none l = pure (next l)
host_network_of (some veth_name) (some ip) l = make_veth ip l

unfoldable pub host_network : Locals → M Flow
host_network l = host_network_of l.config.veth_name l.config.container_ip l
