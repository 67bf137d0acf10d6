-- ===== src/Tests/ProcessRuns.antt =====
-- The theorems about src/sec.c, src/mount.c, src/cgroups.c and src/container.c at concrete inputs.
use docker.Base.{◌∷◌, [], ◌≡◌, refl, pos, minus_one, is_neg, not, codes, none, some, true, false}
use docker.Sys.{Kernel, Trace, Call, steps}
use docker.User.{user_namespace_init, switch_ids}
use docker.Sec.{
  sec_set_caps, sec_set_seccomp, drop_caps, rules, drop_bounding, all_done, seccomp_calls,
}
use docker.Mount.{mount_set, pivot_root, leave_old_root, all_zero}
use docker.Container.{
  container_wait, prepare, fail, ContainerConfig, container_start, restrict, prepare,
  configure_network,
}
use docker.Container.Laws.{restrict-eq-namespace}
use docker.Container.Order.{container_start_order}
use docker.Container.{set_hostname, execute}
use docker.Base.{drop}
use docker.Sys.{Trace}
use docker.Tests.Kernels.{answer, generous, refusing}

abbrev pub shell : ContainerConfig
shell = record {
  uid = 0;
  fd = pos 6;
  hostname = some (codes "barcontainer");
  cmd = codes "/bin/sh";
  arg = none;
  mnt = codes "/srv/root";
  veth_name = none;
  veth_peer = none;
  veth_tmp = none;
  container_ip = none;
  host_ip = none;
  dns_server = some (codes "8.8.8.8");
  enable_nat = false;
}

restrict-eq-namespace_example :
    (restrict shell generous []).0 ≡ not (is_neg (user_namespace_init 0 (pos 6) generous []).0)
restrict-eq-namespace_example = restrict-eq-namespace shell generous []

not_started : (container_start shell refusing []).0 ≡ minus_one
unfolding container_start steps prepare fail
not_started = refl

-- SIGKILL, with the core flag.
abbrev killed : Kernel
killed n c = answer (pos 42) (137 ∷ [])

waits_killed : (container_wait (pos 42) killed []).0 ≡ pos 137
unfolding container_wait steps
waits_killed = refl

-- The calls of a start that reaches the command, but for the last.
abbrev before_command : Trace
before_command = drop 1 (container_start shell generous []).1

started :
    (container_start shell generous []).1
    ≡ Call.execve (codes "/bin/sh") (some (codes "/bin/sh") ∷ none ∷ none ∷ []) ∷ before_command
unfolding container_start steps prepare restrict execute mount_set pivot_root leave_old_root
    all_zero configure_network user_namespace_init switch_ids sec_set_caps drop_bounding drop_caps
    all_done sec_set_seccomp seccomp_calls rules
started = refl

container_start_order_example :
    (is_neg
        (mount_set
          (codes "/srv/root")
          generous
          (set_hostname (some (codes "barcontainer")) generous []).1).0
      ≡ false)
    × ((configure_network shell generous
          (mount_set
            (codes "/srv/root")
            generous
            (set_hostname (some (codes "barcontainer")) generous []).1).1).0
        ≡ true)
    × ((prepare shell generous []).0 ≡ true)
    × (is_neg (user_namespace_init 0 (pos 6) generous (prepare shell generous []).1).0 ≡ false)
container_start_order_example =
    container_start_order shell generous [] (codes "/bin/sh")
      (some (codes "/bin/sh") ∷ none ∷ none ∷ []) before_command refl started
