-- ===== src/Tests/ConnectedRuns.antt =====
-- A start of a container with a network that reaches its command, and the theorem about it.
use docker.Base.{◌≡◌, refl, ℕ, pos, Bytes, [], ◌∷◌, ◌++◌, codes, none, some, drop}
use docker.Sys.{Kernel, Trace, Call, steps}
use docker.User.{user_namespace_init, switch_ids}
use docker.Sec.{
  sec_set_caps, sec_set_seccomp, drop_caps, rules, drop_bounding, all_done, seccomp_calls,
}
use docker.Mount.{mount_set, pivot_root, leave_old_root, all_zero}
use docker.Netlink.Socket.{nl_socket, nl_send_recv, scan, nlmsg_ok, wait_for_interface, wait_loop}
use docker.Netlink.Link.{nl_set_up, nl_rename_link}
use docker.Netlink.Route.{nl_add_addr, nl_add_route}
use docker.Netlink.Cidr.{parse_cidr}
use docker.Container.{
  ContainerConfig, container_start, prepare, restrict, execute, set_hostname, configure_network,
  configure_interface, take_interface, wait_visible,
}
use docker.Container.Configured.{Configured, container_start_connects}
use docker.Tests.Kernels.{answer, generous}
use docker.Tests.ProcessRuns.{shell}

-- A response that acknowledges a request.
abbrev ack : ℕ → Bytes
ack seq = 20 ∷ 0 ∷ 0 ∷ 0 ∷ 2 ∷ 0 ∷ 0 ∷ 0 ∷ seq ∷ 0 ∷ 0 ∷ 0 ∷ 0 ∷ 0 ∷ 0 ∷ 0 ∷ 0 ∷ 0 ∷ 0 ∷ 0 ∷ []

-- The kernel acknowledges the requests to set up, to add an address or a route, and to rename.
abbrev willing : Kernel
willing n (Call.recvmsg sock size) = answer (pos 80) (ack 2 ++ (ack 3 ++ (ack 5 ++ ack 7)))
willing n c = generous n c

abbrev connected : ContainerConfig
connected = record shell {
  veth_name = some (codes "eth0");
  veth_tmp = some (codes "veth-tmp-aaaaaa");
  container_ip = some (codes "10.0.0.2/24");
  host_ip = some (codes "10.0.0.1/24");
}

-- The calls of a start that reaches the command, but for the last.
abbrev before_command : Trace
before_command = drop 1 (container_start connected willing []).1

started :
    (container_start connected willing []).1
    ≡ Call.execve (codes "/bin/sh") (some (codes "/bin/sh") ∷ none ∷ none ∷ []) ∷ before_command
unfolding container_start steps prepare restrict execute mount_set pivot_root leave_old_root
    all_zero configure_network configure_interface take_interface wait_visible nl_set_up
    nl_rename_link nl_add_addr nl_add_route parse_cidr nl_socket nl_send_recv scan nlmsg_ok
    wait_for_interface wait_loop user_namespace_init switch_ids sec_set_caps drop_bounding drop_caps
    all_done sec_set_seccomp seccomp_calls rules
started = refl

container_start_connects_example :
    let u = (mount_set connected.mnt willing (set_hostname connected.hostname willing []).1).1 in
    Configured willing
      (codes "veth-tmp-aaaaaa")
      (codes "eth0")
      (codes "10.0.0.2/24")
      u
      (configure_network connected willing u).1
container_start_connects_example =
    container_start_connects connected (codes "veth-tmp-aaaaaa") (codes "eth0")
      (codes "10.0.0.2/24") willing [] (codes "/bin/sh") (some (codes "/bin/sh") ∷ none ∷ none ∷ [])
      before_command refl refl refl refl started
