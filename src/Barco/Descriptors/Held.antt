-- ===== src/Barco/Descriptors/Held.antt =====
-- What `main` of src/barco.c holds open while the container runs.
use docker.Base.{
  ◌+◌, ◌≡◌, refl, ap, ℤ, is_neg, true, List, [], ◌∷◌, Bytes, Option, none, some, arith, Bool-cases,
  inl, inr,
}
use docker.Sys.{Kernel, Trace, M, steps}
use docker.Sys.Descriptors.{Handle, Settles, opened, closed, times, is_neg-Detects}
use docker.Container.{container_init}
use docker.Netlink.Link.{nl_del_link, nl_create_veth}
use docker.Barco.Defs.{Args, Locals, Flow, next, cleanup, waiting, go_on, ◌>=>◌}
use docker.Barco.Setup.{
  text_of, fill_config, make_sockets, make_stack, host_network, host_network_of, make_veth,
  configure_host, apply_nat,
}
use docker.Barco.Run.{start_container, move_interface, move_link, confine}
use docker.Barco.Main.{setup, initial}
use docker.Barco.Descriptors.{
  fill_config-Settles, make_stack-Settles, host_network-Settles, move_interface-Settles,
  confine-Settles,
}

-- Both ends of the pair, as the variables have them.
abbrev pair : Locals → List ℤ
pair l = l.socket0 ∷ l.config.fd ∷ []

-- The end that is left to `main`.
abbrev own : Locals → List ℤ
own l = l.socket0 ∷ []

abbrev nothing : Locals → List ℤ
nothing l = []

-- From `t` to `u`, each number was given out as often as it was closed, and besides that as often as
-- it is held.
abbrev Holding : Kernel → Trace → List ℤ → Trace → Type 0
Holding k t held u =
    (fd : Handle) → opened k u fd + closed t fd ≡ closed u fd + opened k t fd + times held fd

-- Where a part runs on, this is held.
abbrev HoldingFlow : (Locals → List ℤ) → Kernel → Trace → Flow → Trace → Type 0
HoldingFlow held k t (next l) u = Holding k t (held l) u
HoldingFlow held k t _ u = Unit {0}

-- The same for one number.
abbrev HoldingAt : (Locals → List ℤ) → Kernel → Trace → Flow → Trace → Handle → Type 0
HoldingAt held k t (next l) u fd =
    opened k u fd + closed t fd ≡ closed u fd + opened k t fd + times (held l) fd
HoldingAt held k t _ u fd = Unit {0}

all_numbers :
    (held : Locals → List ℤ) (k : Kernel) (t : Trace) (r : Flow) (u : Trace)
    → ((fd : Handle) → HoldingAt held k t r u fd)
    → HoldingFlow held k t r u
all_numbers held k t (next l) u h = h
all_numbers held k t (cleanup l) u h = tt
all_numbers held k t waiting u h = tt

record Turns (before after : Locals → List ℤ) (f : Locals → M Flow) : Type 0 where
  turn :
      (l : Locals) (k : Kernel) (t u : Trace)
      → Holding k t (before l) u
      → HoldingFlow after k t (f l k u).0 (f l k u).1

-- A part that runs on leaves what is held in its variables.
abbrev Leaves : (Locals → List ℤ) → Locals → Flow → Type 0
Leaves held l (next m) = held m ≡ held l
Leaves held l _ = Unit {0}

settled-HoldingFlow :
    (held : Locals → List ℤ) (l : Locals) (k : Kernel) (t u v : Trace) (r : Flow)
    → ((fd : Handle) → opened k v fd + closed u fd + 0 ≡ closed v fd + opened k u fd)
    → Leaves held l r
    → Holding k t (held l) u
    → HoldingFlow held k t r v
settled-HoldingFlow held l k t u v (next m) s e h =
    λ fd. omega (arith, s fd, h fd, ap (λ ds. times ds fd) e)
settled-HoldingFlow held l k t u v (cleanup m) s e h = tt
settled-HoldingFlow held l k t u v waiting s e h = tt

Turns-settled :
    {held : Locals → List ℤ} {f : Locals → M Flow}
    → ((l : Locals) → Settles [] (f l))
    → ((l : Locals) (k : Kernel) (t : Trace) → Leaves held l (f l k t).0)
    → Turns held held f
Turns-settled {held} {f} s e = record {
  turn = λ l k t u h.
      settled-HoldingFlow held l k t u (f l k u).1 (f l k u).0 ((s l).settled k u) (e l k u) h;
}

-- A chain of parts from the variables that `main` starts with.
record TurnsFrom (args : Args) (after : Locals → List ℤ) (f : Locals → M Flow) : Type 0 where
  from :
      (k : Kernel) (t : Trace)
      → HoldingFlow after k t (f (initial args) k t).0 (f (initial args) k t).1

TurnsFrom-seq :
    {args : Args} {before after : Locals → List ℤ} {f g : Locals → M Flow}
    → TurnsFrom args before f
    → Turns before after g
    → TurnsFrom args after (f >=> g)
unfolding steps
TurnsFrom-seq {args} {before} {after} {f} {g} p q = record {
  from = λ k t. go k t (f (initial args) k t).0 (f (initial args) k t).1 (p.from k t);
}
  where
    go :
        (k : Kernel) (t : Trace) (r : Flow) (u : Trace)
        → HoldingFlow before k t r u
        → HoldingFlow after k t (go_on g r k u).0 (go_on g r k u).1
    go k t (next l) u h = q.turn l k t u h
    go k t (cleanup l) u h = tt
    go k t waiting u h = tt

fill_config-TurnsFrom : (args : Args) → TurnsFrom args nothing (fill_config args)
fill_config-TurnsFrom args = record {
  from = λ k t.
      settled-HoldingFlow nothing (initial args) k t t (fill_config args (initial args) k t).1
        (fill_config args (initial args) k t).0
        ((fill_config-Settles args (initial args)).settled k t)
        (same (fill_config args (initial args) k t).0) (λ fd. omega arith);
}
  where
    same : (r : Flow) → Leaves nothing (initial args) r
    same (next l) = refl
    same (cleanup l) = tt
    same waiting = tt

make_sockets-HoldingAt :
    (l : Locals) (k : Kernel) (t u : Trace) (fd : Handle)
    → opened k u fd + closed t fd ≡ closed u fd + opened k t fd
    → HoldingAt pair k t (make_sockets l k u).0 (make_sockets l k u).1 fd
unfolding make_sockets steps
make_sockets-HoldingAt l k t u fd h = ground arith

make_sockets-Turns : Turns nothing pair make_sockets
make_sockets-Turns = record {
  turn = λ l k t u h.
      all_numbers pair k t (make_sockets l k u).0 (make_sockets l k u).1
        λ fd. make_sockets-HoldingAt l k t u fd (omega (arith, h fd));
}

make_stack-Turns : Turns pair pair make_stack
unfolding make_stack steps
make_stack-Turns = Turns-settled make_stack-Settles λ l k t. ground arith

configure_host-Leaves :
    (ip : Bytes) (l : Locals) (k : Kernel) (t : Trace) → Leaves pair l (configure_host ip l k t).0
unfolding configure_host apply_nat steps
configure_host-Leaves ip l k t = ground arith

make_veth-Leaves :
    (ip : Bytes) (l : Locals) (k : Kernel) (t : Trace) → Leaves pair l (make_veth ip l k t).0
unfolding make_veth steps
make_veth-Leaves ip l k t =
    let name = text_of l.config.veth_peer in
    let tmp = text_of l.config.veth_tmp in
    let u = (nl_del_link name k (nl_del_link tmp k t).1).1 in
    elim (Bool-cases (is_neg (nl_create_veth tmp name k u).0)) [
      | inl bad ↦ rw bad tt
      | inr good ↦ rw good (
          configure_host-Leaves ip (record l { veth_created = true }) k
            (nl_create_veth tmp name k u).1)
    ]

host_network-Leaves : (l : Locals) (k : Kernel) (t : Trace) → Leaves pair l (host_network l k t).0
unfolding host_network
host_network-Leaves l k t = go l.config.veth_name l.config.container_ip
  where
    go : (name ip : Option Bytes) → Leaves pair l (host_network_of name ip l k t).0
    go none ip = unfold steps in refl
    go (some name) none = unfold steps in refl
    go (some name) (some ip) = make_veth-Leaves ip l k t

-- The child's end is closed, or its number is negative.
start_container-HoldingAt :
    (l : Locals) (k : Kernel) (t u : Trace) (fd : Handle)
    → opened k u fd + closed t fd ≡ closed u fd + opened k t fd + times (pair l) fd
    → HoldingAt own k t (start_container l k u).0 (start_container l k u).1 fd
unfolding start_container container_init steps
start_container-HoldingAt l k t u fd h = ground (arith, is_neg-Detects l.config.fd fd)

start_container-Turns : Turns pair own start_container
start_container-Turns = record {
  turn = λ l k t u h.
      all_numbers own k t (start_container l k u).0 (start_container l k u).1
        λ fd. start_container-HoldingAt l k t u fd (h fd);
}

move_interface-Turns : Turns own own move_interface
unfolding move_interface move_link steps
move_interface-Turns = Turns-settled move_interface-Settles λ l k t. ground arith

confine-Turns : Turns own own confine
unfolding confine steps
confine-Turns = Turns-settled confine-Settles λ l k t. ground arith

setup-TurnsFrom : (args : Args) → TurnsFrom args own (setup args)
unfolding setup
setup-TurnsFrom args =
    TurnsFrom-seq
      (TurnsFrom-seq
        (TurnsFrom-seq
          (TurnsFrom-seq
            (TurnsFrom-seq (TurnsFrom-seq (fill_config-TurnsFrom args) make_sockets-Turns)
              make_stack-Turns)
            (Turns-settled host_network-Settles host_network-Leaves))
          start_container-Turns)
        move_interface-Turns)
      confine-Turns

-- If the parts 3 to 9 of `main` end well, they have closed every descriptor, and every stream that popen
-- gave, exactly as often as their calls gave it out, but for the number of the parent's end of the socket
-- pair, which is closed once less: neither the child's end, nor a file or a netlink socket, nor the pipe
-- of a shell command is left open.
pub setup_holds_own_end :
    (args : Args) (l : Locals) (k : Kernel) (t : Trace) (fd : Handle)
    → (setup args (initial args) k t).0 ≡ next l
    → let u = (setup args (initial args) k t).1 in
      opened k u fd + closed t fd ≡ closed u fd + opened k t fd + times (l.socket0 ∷ []) fd
setup_holds_own_end args l k t fd e =
    let held = (setup-TurnsFrom args).from k t in (rw e at held) fd
