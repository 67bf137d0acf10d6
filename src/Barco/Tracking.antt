-- ===== src/Barco/Tracking.antt =====
-- What `main` remembers of what it has set up, and how its parts end.
use docker.Base.{
  ◌≡◌, refl, pos, is_neg, not, ◌&&◌, ◌||◌, true, false, Bytes, arith, Bool-cases, inl, inr, Option,
  some, none,
}
use docker.Sys.{Kernel, Trace, M, steps}
use docker.Netlink.Link.{nl_create_veth, nl_del_link}
use docker.Container.{container_init}
use docker.Barco.Nat.{is_empty, detect_host_interface}
use docker.Barco.Defs.{Args, Locals, Flow, next, cleanup, waiting, go_on, ◌>=>◌}
use docker.Barco.Setup.{
  is_set, text_of, base_config, fill_config, fill_network, fill_network_of, make_sockets,
  make_stack, host_network, host_network_of, make_veth, configure_host, apply_nat,
}
use docker.Barco.Run.{start_container, move_interface, confine}
use docker.Barco.Main.{setup, initial}

-- What is applied is known well enough for `cleanup` to take it back: the tests there do not skip it.
pub record IsTracked (l : Locals) : Type 0 where
  pub nat_known :
      (not l.nat_applied || (is_set l.config.container_ip && not (is_empty l.host_if))) ≡ true
  pub veth_known : (not l.veth_created || is_set l.config.veth_peer) ≡ true

-- While nothing has failed, the exit code is 0, and a network that is asked for has its peer's name.
pub record IsReady (l : Locals) : Type 0 where
  pub tracked : IsTracked l
  pub unfailed : l.exitcode ≡ pos 0
  pub named :
      (not (is_set l.config.veth_name && is_set l.config.container_ip) || is_set l.config.veth_peer)
      ≡ true

-- A part that ends well is ready for the next; one that fails has set the exit code to 1.
abbrev pub Ends : Flow → Type 0
Ends (next l) = IsReady l
Ends (cleanup l) = IsTracked l × (l.exitcode ≡ pos 1)
Ends waiting = ⊥

pub record Keeps (f : Locals → M Flow) : Type 0 where
  pub at : (l : Locals) (k : Kernel) (t : Trace) → IsReady l → Ends (f l k t).0

go_on-Ends :
    {g : Locals → M Flow} (r : Flow) (k : Kernel) (t : Trace)
    → Keeps g
    → Ends r
    → Ends (go_on g r k t).0
unfolding steps
go_on-Ends (next l) k t q h = q.at l k t h
go_on-Ends (cleanup l) k t q h = h
go_on-Ends waiting k t q h = h

-- A chain of parts, started on given variables.
record EndsFrom (l : Locals) (f : Locals → M Flow) : Type 0 where
  from : (k : Kernel) (t : Trace) → Ends (f l k t).0

EndsFrom-seq : {l : Locals} {f g : Locals → M Flow} → EndsFrom l f → Keeps g → EndsFrom l (f >=> g)
unfolding steps
EndsFrom-seq {l} {f} p q = record {
  from = λ k t. go_on-Ends (f l k t).0 k (f l k t).1 q (p.from k t);
}

make_sockets-Keeps : Keeps make_sockets
unfolding make_sockets steps
make_sockets-Keeps = record { at = λ l k t h. ground (arith) }

make_stack-Keeps : Keeps make_stack
unfolding make_stack steps
make_stack-Keeps = record { at = λ l k t h. ground (arith) }

start_container-Keeps : Keeps start_container
unfolding start_container container_init steps
start_container-Keeps = record { at = λ l k t h. ground (arith) }

move_interface-Keeps : Keeps move_interface
unfolding move_interface steps
move_interface-Keeps = record { at = λ l k t h. ground (arith) }

confine-Keeps : Keeps confine
unfolding confine steps
confine-Keeps = record { at = λ l k t h. ground (arith) }

detected_nonempty :
    (k : Kernel) (t : Trace)
    → is_neg (detect_host_interface k t).0.0 ≡ false
    → is_empty (detect_host_interface k t).0.1 ≡ false
unfolding detect_host_interface steps
detected_nonempty k t h = ground arith

apply_nat-Ends :
    (ip : Bytes) (l : Locals) (k : Kernel) (t : Trace)
    → IsReady l
    → is_set l.config.container_ip ≡ true
    → Ends (apply_nat ip l k t).0
unfolding apply_nat steps
apply_nat-Ends ip l k t h given = ground (arith, detected_nonempty k t)

configure_host-Ends :
    (ip : Bytes) (l : Locals) (k : Kernel) (t : Trace)
    → IsReady l
    → is_set l.config.container_ip ≡ true
    → Ends (configure_host ip l k t).0
unfolding configure_host steps
configure_host-Ends ip l k t h given =
    elim (Bool-cases (l.config.enable_nat && is_set l.config.host_ip)) [
      | inl asked ↦ rw asked (apply_nat-Ends ip l k _ h given)
      | inr plain ↦ rw plain h
    ]

make_veth-Ends :
    (ip : Bytes) (l : Locals) (k : Kernel) (t : Trace)
    → IsReady l
    → is_set l.config.container_ip ≡ true
    → is_set l.config.veth_peer ≡ true
    → Ends (make_veth ip l k t).0
unfolding make_veth steps
make_veth-Ends ip l k t h given peer =
    let tmp = text_of l.config.veth_tmp in
    let name = text_of l.config.veth_peer in
    let u = (nl_del_link name k (nl_del_link tmp k t).1).1 in
    elim (Bool-cases (is_neg (nl_create_veth tmp name k u).0)) [
      | inl bad ↦ rw bad (ground arith)
      | inr good ↦ rw good (
          configure_host-Ends ip (record l { veth_created = true }) k
            (nl_create_veth tmp name k u).1 (ground arith) given)
    ]

host_network-Keeps : Keeps host_network
unfolding host_network steps
host_network-Keeps = record {
  at = λ l k t h. cases l k t h l.config.veth_name l.config.container_ip refl refl;
}
  where
    cases :
        (l : Locals) (k : Kernel) (t : Trace)
        → IsReady l
        → (name ip : Option Bytes) → l.config.veth_name ≡ name
        → l.config.container_ip ≡ ip
        → Ends (host_network_of name ip l k t).0
    cases l k t h none ip p q = h
    cases l k t h (some name) none p q = h
    cases l k t h (some name) (some ip) p q =
        make_veth-Ends ip l k t h (rw q) (rw (p, q) at h.named)

fill_network-Ends :
    (args : Args) (name ip : Bytes) (l : Locals) (k : Kernel) (t : Trace)
    → IsReady l
    → l.nat_applied ≡ false
    → l.veth_created ≡ false
    → Ends (fill_network args name ip l k t).0
unfolding fill_network steps
fill_network-Ends args name ip l k t h nat veth = ground arith

fill_config-Ends : (args : Args) → EndsFrom (initial args) (fill_config args)
unfolding fill_config base_config steps
fill_config-Ends args = record { from = λ k t. cases args.veth_name args.container_ip k t }
  where
    base : Locals
    base = record (initial args) { config = base_config args }

    ready : IsReady base
    ready = ground arith

    cases :
        (name ip : Option Bytes) (k : Kernel) (t : Trace)
        → Ends (fill_network_of name ip args base k t).0
    cases none ip k t = ready
    cases (some name) none k t = ready
    cases (some name) (some ip) k t = fill_network-Ends args name ip base k t ready refl refl

-- However the parts 3 to 9 of `main` end, what they have applied is tracked: if the address
-- translation is marked as applied, the container's address and the host's interface are set, and
-- if the pair is marked as created, the peer's name is set. A part that fails leaves the exit code
-- 1, and if none fails it is 0 and a network that is asked for has its peer's name.
pub setup-Ends : (args : Args) (k : Kernel) (t : Trace) → Ends (setup args (initial args) k t).0
unfolding setup
setup-Ends args =
    (EndsFrom-seq
      (EndsFrom-seq
        (EndsFrom-seq
          (EndsFrom-seq
            (EndsFrom-seq (EndsFrom-seq (fill_config-Ends args) make_sockets-Keeps)
              make_stack-Keeps)
            host_network-Keeps)
          start_container-Keeps)
        move_interface-Keeps)
      confine-Keeps).from
