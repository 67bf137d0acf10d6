-- ===== src/Tests/NetworkRuns.antt =====
-- The theorems about the pair of interfaces and the control group at concrete inputs.
use docker.Base.{◌∷◌, ◌≡◌, refl, codes, pos, minus_one, [], is_neg, false, arith, decimal_ℤ, Bytes}
use docker.Sys.{Kernel, Trace, Call, steps}
use docker.Netlink.Link.{nl_create_veth}
use docker.Netlink.Socket.{nl_socket, nl_send_recv, scan, nlmsg_ok, wait_for_interface}
use docker.Netlink.Create.{Seen, asked, nl_create_veth-Seen}
use docker.Barco.Defs.{next}
use docker.Barco.Setup.{base_config}
use docker.Barco.Run.{confine}
use docker.Barco.Leftover.{confine-IsTaken}
use docker.User.{user_namespace_prepare_mappings, map_ids, write_proc, proc_path, write_maps}
use docker.Cgroups.{cgroup_dir, enable_controllers}
use docker.Tests.Kernels.{crowded, generous}
use docker.Tests.MainRuns.{confined}

created : (nl_create_veth (codes "a") (codes "b") crowded []).0 ≡ pos 0
unfolding nl_create_veth nl_socket nl_send_recv scan nlmsg_ok wait_for_interface steps
created = refl

nl_create_veth-Seen_example :
    (is_neg (asked (codes "a") (codes "b") crowded []).0 ≡ false)
    × ((u : Trace) × Seen crowded (codes "a") (asked (codes "a") (codes "b") crowded []).1 u
        × Seen crowded (codes "b") u (nl_create_veth (codes "a") (codes "b") crowded []).1)
nl_create_veth-Seen_example = nl_create_veth-Seen (codes "a") (codes "b") crowded [] created

-- Another container holds the control group: EEXIST, and EBUSY.
abbrev busy : Kernel
busy n (Call.mkdir dir) = record { ret = minus_one; errno = 17; out = [] }
busy n (Call.rmdir dir) = record { ret = minus_one; errno = 16; out = [] }
busy n c = generous n c

abbrev group : Bytes
group = cgroup_dir (codes "barcontainer")

abbrev tried : Trace
tried = Call.rmdir group ∷ Call.mkdir group ∷ (enable_controllers busy []).1

maps : is_neg (user_namespace_prepare_mappings (pos 42) (pos 5) busy tried).0 ≡ false
unfolding user_namespace_prepare_mappings map_ids write_proc proc_path decimal_ℤ write_maps steps
maps = refl

confine-IsTaken_example :
    confine confined busy []
    ≡ (next confined, (user_namespace_prepare_mappings (pos 42) (pos 5) busy tried).1)
unfolding base_config
confine-IsTaken_example =
    confine-IsTaken confined busy []
      (record { refused = refl; there = refl; kept = refl; busy = omega arith }) maps
