-- ===== src/Netlink/Link.antt =====
-- Links: the functions of src/netlink.c that send RTM_NEWLINK and RTM_DELLINK.
use docker.Base.{
  ℕ, ◌+◌, ℤ, pos, minus_one, is_neg, nonzero, wrap, ◌^◌, int_bytes, ◌||◌, not, Bytes, ◌==ℤ◌,
  if◌then◌else◌,
}
use docker.Sys.{M, Call, pure, sys_ret, ◌>>=◌, ◌>>◌}
use docker.Netlink.Message.{Request, start, put_attr, message, ifinfomsg, with_nul, veth_request}
use docker.Netlink.Message.MessageType
use docker.Netlink.Message.Flags
use docker.Netlink.Message.Attribute
use docker.Netlink.Socket.{nl_socket, nl_send_recv, wait_for_interface}

-- `nl_send_recv`, then `close`.
abbrev pub transact : ℤ → Bytes → ℕ → ℕ → M ℤ
transact sock nlh seq type = do
  ret ← nl_send_recv sock nlh seq type
  sys_ret (Call.close sock)
  pure ret

abbrev pub close_and_return : ℤ → ℤ → M ℤ
close_and_return sock ret = do sys_ret (Call.close sock); pure ret

abbrev pub close_and_fail : ℤ → M ℤ
close_and_fail sock = close_and_return sock minus_one

unfoldable pub delete_message : ℤ → Bytes
delete_message idx =
    message MessageType.dellink Flags.request 4 (start (ifinfomsg (wrap (2 ^ 32) idx) 0 0))

unfoldable pub nl_del_link : Bytes → M ℤ
nl_del_link ifname = do
  sock ← nl_socket
  if is_neg sock then pure minus_one else do
    idx ← sys_ret (Call.if_nametoindex ifname)
    if not (nonzero idx)
        then close_and_return sock (pos 0)
        else transact sock (delete_message idx) 4 MessageType.dellink

abbrev pub create_flags : ℕ
create_flags = Flags.request + Flags.create + Flags.excl + Flags.ack

unfoldable pub nl_create_veth : Bytes → Bytes → M ℤ
nl_create_veth name1 name2 = do
  sock ← nl_socket
  if is_neg sock then pure minus_one else do
    ret ←
        transact sock (message MessageType.newlink create_flags 1 (veth_request name1 name2)) 1
          MessageType.newlink
    if is_neg ret then pure minus_one else do
      idx1 ← wait_for_interface name1 5000
      idx2 ← wait_for_interface name2 5000
      if idx1 ==ℤ pos 0 || idx2 ==ℤ pos 0 then nl_del_link name1 >> pure minus_one else pure (pos 0)

-- IFF_UP is 1.
unfoldable pub up_message : ℤ → Bytes
up_message idx =
    message MessageType.newlink (Flags.request + Flags.ack) 2
      (start (ifinfomsg (wrap (2 ^ 32) idx) 1 1))

unfoldable pub nl_set_up : Bytes → M ℤ
nl_set_up ifname = do
  sock ← nl_socket
  if is_neg sock then pure minus_one else do
    idx ← wait_for_interface ifname 5000
    if not (nonzero idx)
        then close_and_fail sock
        else transact sock (up_message idx) 2 MessageType.newlink

unfoldable pub move_request : ℤ → ℤ → Request
move_request idx ns_fd =
    put_attr Attribute.ifla_net_ns_fd (int_bytes ns_fd) (start (ifinfomsg (wrap (2 ^ 32) idx) 0 0))

unfoldable pub nl_move_to_ns : Bytes → ℤ → M ℤ
nl_move_to_ns ifname ns_fd = do
  sock ← nl_socket
  if is_neg sock then pure minus_one else do
    idx ← sys_ret (Call.if_nametoindex ifname)
    if not (nonzero idx)
        then close_and_fail sock
        else transact sock
            (message MessageType.newlink (Flags.request + Flags.ack) 6 (move_request idx ns_fd)) 6
            MessageType.newlink

unfoldable pub rename_request : ℤ → Bytes → Request
rename_request idx newname =
    put_attr Attribute.ifla_ifname (with_nul newname) (start (ifinfomsg (wrap (2 ^ 32) idx) 0 0))

unfoldable pub nl_rename_link : Bytes → Bytes → M ℤ
nl_rename_link oldname newname = do
  sock ← nl_socket
  if is_neg sock then pure minus_one else do
    idx ← sys_ret (Call.if_nametoindex oldname)
    if not (nonzero idx)
        then close_and_fail sock
        else transact sock
            (message MessageType.newlink (Flags.request + Flags.ack) 7 (rename_request idx newname))
            7 MessageType.newlink
