-- ===== src/Container/Network.antt =====
-- The container's end of the network: stage 2 of `container_start`, and the name server.
use docker.Base.{
  ℕ, zero, suc, ◌+◌, ℤ, pos, minus_one, is_neg, nonzero, not, ◌&&◌, ◌==ℤ◌, Bool, true, false, Bytes,
  Option, none, some, ◌∷◌, ◌++◌, codes, before, length, leb, ltb, snprintf, take, if◌then◌else◌,
}
use docker.Sys.{M, Call, OpenMode, pure, sys, sys_ret, ◌>>=◌, ◌>>◌}
use docker.Netlink.Link.{nl_set_up, nl_rename_link}
use docker.Netlink.Route.{nl_add_addr, nl_add_route}
use docker.Container.Defs.{ContainerConfig}

-- "/proc/sys/net/ipv4/ping_group_range"
unfoldable pub enable_ping_dgram : M ℤ
enable_ping_dgram = do
  fd ← sys_ret (Call.open_file (codes "/proc/sys/net/ipv4/ping_group_range") OpenMode.o_wronly)
  if is_neg fd then pure minus_one else do
    n ← sys_ret (Call.write fd (codes "0 65535\n"))
    sys_ret (Call.close fd)
    pure (if n ==ℤ pos 8 then pos 0 else minus_one)

unfoldable pub resolv_conf : Bytes → Bytes
resolv_conf dns_server =
    codes "# generated by barco\nnameserver "
    ++ (dns_server ++ codes "\nnameserver 8.8.4.4\noptions timeout:2 attempts:3\n")

-- `write(fd, buf, len)` where `len` is what `snprintf` returns, the length of the whole text, and
-- `buf` has 256 bytes: a longer text is cut, and the write goes on behind the array.
unfoldable pub buffered : Bytes → M Bytes
buffered text =
    if ltb (length text) 256
    then pure text
    else do r ← sys Call.indeterminate; pure (take (length text) (snprintf 256 text ++ (0 ∷ r.out)))

unfoldable pub setup_dns : Option Bytes → M ℤ
unfolding resolv_conf buffered
setup_dns none = pure (pos 0)
setup_dns (some dns_server) = do
  fd ← sys_ret (Call.open_file (codes "/etc/resolv.conf") OpenMode.o_wronly_creat_trunc)
  if is_neg fd then pure minus_one else do
    buf ← buffered (resolv_conf dns_server)
    n ← sys_ret (Call.write fd buf)
    sys_ret (Call.close fd)
    pure (if n ==ℤ pos (length (resolv_conf dns_server)) then pos 0 else minus_one)

-- The loop that waits for the temporary interface, with the milliseconds waited. Fuel counts the
-- rounds; 5000 ms take fifty of them.
unfoldable pub wait_visible : ℕ → Bytes → ℕ → M ℕ
wait_visible zero veth_tmp waited = pure waited
wait_visible (suc fuel) veth_tmp waited = do
  idx ← sys_ret (Call.if_nametoindex veth_tmp)
  let rest = (do sys_ret (Call.usleep 100000); wait_visible fuel veth_tmp (waited + 100))
  if not (nonzero idx) && ltb waited 5000 then rest else pure waited

-- The interface under its final name; `false` is the jump to `fail`.
unfoldable pub take_interface : Option Bytes → Bytes → M Bool
unfolding wait_visible
take_interface none veth_name = pure true
take_interface (some veth_tmp) veth_name = do
  waited ← wait_visible 51 veth_tmp 0
  if leb 5000 waited
      then pure false
      else do renamed ← nl_rename_link veth_tmp veth_name; pure (not (is_neg renamed))

-- The default route by the host's address. INET_ADDRSTRLEN is 16.
unfoldable pub default_route : Option Bytes → Bytes → M Bool
default_route none veth_name = pure true
default_route (some host_ip) veth_name =
    if leb 16 (length (before b'/' host_ip)) then pure false else do
      nl_add_route (some (codes "default")) (some (before b'/' host_ip)) (some veth_name)
      pure true

unfoldable pub configure_interface : ContainerConfig → Bytes → Bytes → M Bool
unfolding take_interface default_route
configure_interface config veth_name container_ip = do
  nl_set_up (codes "lo")
  taken ← take_interface config.veth_tmp veth_name
  if not taken then pure false else do
    added ← nl_add_addr veth_name container_ip
    if is_neg added then pure false else do
      up ← nl_set_up veth_name
      if is_neg up then pure false else default_route config.host_ip veth_name

-- Stage 2, where the network is asked for.
abbrev pub configure_network_of : ContainerConfig → Option Bytes → Option Bytes → M Bool
configure_network_of config none ip = pure true
configure_network_of config (some veth_name) none = pure true
configure_network_of config (some veth_name) (some container_ip) =
    configure_interface config veth_name container_ip

unfoldable pub configure_network : ContainerConfig → M Bool
unfolding configure_interface
configure_network config = configure_network_of config config.veth_name config.container_ip
