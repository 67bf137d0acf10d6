-- ===== src/Tests/MainRuns.antt =====
-- The theorems about `main` at concrete inputs.
use docker.User.{user_namespace_prepare_mappings, map_ids, write_proc, proc_path, write_maps}
use docker.Base.{
  ℕ, zero, suc, ◌<◌, ◌==◌, if◌then◌else◌, arith, ◌∷◌, [], ◌≡◌, ◌+◌, refl, pos, minus_one, codes,
  none, some, true, false, decimal_ℤ,
}
use docker.Cgroups.{
  cgroups_init, enable_controllers, make_dir, write_settings, write_setting, cgroups_setting_list,
}
use docker.Sys.{Kernel, Call, Block, Trace, steps}
use docker.Sys.Descriptors.{descriptor, opened, closed, times}
use docker.Barco.Descriptors.Held.{setup_holds_own_end}
use docker.Container.{container_init}
use docker.Barco.Defs.{Args, Locals, next, cleanup}
use docker.Barco.Setup.{base_config, fill_config, make_sockets, make_stack, host_network}
use docker.Barco.Run.{wait_exit, exited, start_container, status_of, move_interface, confine}
use docker.Barco.Main.{main, setup, initial}
use docker.Barco.ExitCode.{by_exit, main_failed, main_returns_status}
use docker.Barco.Setup.{fill_network, choose_peer, make_veth, configure_host, apply_nat}
use docker.Barco.Names.{generate_random_suffix, random_chars, alphabet, peer_name, tmp_name}
use docker.Netlink.Link.{nl_create_veth}
use docker.Netlink.Socket.{nl_socket, nl_send_recv, scan, nlmsg_ok, wait_for_interface}
use docker.Barco.Nat.{detect_host_interface, trim, setup_nat}
use docker.Tests.Kernels.{crowded, generous, socketless}

-- `barco -u 0 -m /srv/root -c /bin/sh`
abbrev pub plain : Args
plain = record {
  errors = 0;
  help = false;
  uid = pos 0;
  mnt = codes "/srv/root";
  cmd = codes "/bin/sh";
  arg = none;
  veth_name = none;
  veth_peer = none;
  container_ip = none;
  host_ip = none;
  verbose = false;
  nat = false;
  dns = none;
}

-- The same with a network.
abbrev pub networked : Args
networked = record plain {
  veth_name = some (codes "eth0");
  container_ip = some (codes "10.0.0.2/24");
  host_ip = some (codes "10.0.0.1/24");
  nat = true;
}

-- What `main` holds once the child runs.
abbrev running : Locals
running = record (initial plain) {
  stack = true;
  config = record (base_config plain) { fd = pos 6 };
  container_pid = pos 42;
  socket0 = pos 5;
  socket1 = pos 6;
}

-- What it holds once part 9 is done.
abbrev pub confined : Locals
confined = record running { config = record (running.config) { fd = minus_one } }

pub set_up :
    (setup plain (initial plain) generous (Call.calloc Block.config ∷ [])).0 ≡ next confined
unfolding setup steps fill_config make_sockets make_stack host_network base_config start_container
    container_init move_interface confine user_namespace_prepare_mappings map_ids write_proc
    proc_path decimal_ℤ write_maps
set_up = refl

pub waited :
    (wait_exit 1
      (pos 42)
      generous
      (setup plain (initial plain) generous (Call.calloc Block.config ∷ [])).1).0
    ≡ exited 768
unfolding wait_exit steps
waited = refl

-- The first wait, which is the call behind 36 others, is interrupted.
abbrev signalled : Kernel
signalled n (Call.waitpid pid) =
    if n == 36
    then record { ret = minus_one; errno = 4; out = [] }
    else generous n (Call.waitpid pid)
signalled n c = generous n c

set_up_signalled :
    (setup plain (initial plain) signalled (Call.calloc Block.config ∷ [])).0 ≡ next confined
unfolding setup steps fill_config make_sockets make_stack host_network base_config start_container
    container_init move_interface confine user_namespace_prepare_mappings map_ids write_proc
    proc_path decimal_ℤ write_maps
set_up_signalled = refl

first_interrupted :
    (i : ℕ)
    → i < 1
    → let reply = signalled (36 + i) (Call.waitpid (pos 42)) in
      (reply.ret ≡ minus_one) × (reply.errno ≡ 4)
first_interrupted zero h = (refl, refl)
first_interrupted (suc i) h = absurd (omega arith)

main_returns_status_example : (main 2 plain signalled []).0 ≡ some (pos 3)
unfolding status_of setup steps fill_config make_sockets make_stack host_network base_config
    start_container container_init move_interface confine user_namespace_prepare_mappings map_ids
    write_proc proc_path decimal_ℤ write_maps cgroups_init enable_controllers make_dir
    write_settings write_setting cgroups_setting_list
main_returns_status_example =
    main_returns_status 1 2 42 3 plain signalled [] confined refl refl refl set_up_signalled refl
      (omega arith) first_interrupted refl (by_exit 768 3 (omega arith) refl)

abbrev unconnected : Locals
unconnected = record (initial plain) { exitcode = pos 1 }

not_set_up :
    (setup plain (initial plain) socketless (Call.calloc Block.config ∷ [])).0 ≡ cleanup unconnected
unfolding setup steps fill_config make_sockets
not_set_up = refl

-- What `main` holds when the process could not be created.
abbrev childless : Locals
childless = record (initial networked) {
  stack = true;
  config = record (base_config networked) {
    fd = pos 6;
    veth_name = some (codes "eth0");
    veth_peer = some (codes "veth-eth0-aaaaa");
    veth_tmp = some (codes "veth-tmp-aaaaaa");
    container_ip = some (codes "10.0.0.2/24");
    host_ip = some (codes "10.0.0.1/24");
    enable_nat = true;
  };
  socket0 = pos 5;
  socket1 = pos 6;
  exitcode = pos 1;
  veth_created = true;
  nat_applied = true;
  host_if = codes "eth0";
}

without_child : (t : Trace) → (setup networked (initial networked) crowded t).0 ≡ cleanup childless
unfolding setup steps fill_config fill_network choose_peer generate_random_suffix random_chars
    alphabet peer_name tmp_name make_sockets make_stack host_network make_veth nl_create_veth
    nl_socket nl_send_recv scan nlmsg_ok wait_for_interface configure_host apply_nat
    detect_host_interface trim setup_nat start_container container_init
without_child t = refl

pub fails_crowded : (main 1 networked crowded []).0 ≡ some (pos 1)
fails_crowded =
    main_failed 1 networked crowded [] childless refl refl refl
      (without_child (Call.calloc Block.config ∷ []))

-- The descriptor 5 is the parent's end of the socket pair.
setup_holds_own_end_example :
    let t = Call.calloc Block.config ∷ [] in
    let u = (setup plain (initial plain) generous t).1 in
    opened generous u (descriptor 5) + closed t (descriptor 5)
    ≡ closed u (descriptor 5) + opened generous t (descriptor 5) + times (pos 5 ∷ []) (descriptor 5)
setup_holds_own_end_example =
    setup_holds_own_end plain confined generous (Call.calloc Block.config ∷ []) (descriptor 5)
      set_up
