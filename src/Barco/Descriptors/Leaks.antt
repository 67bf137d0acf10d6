-- ===== src/Barco/Descriptors/Leaks.antt =====
-- The descriptors of a whole run of `main` in src/barco.c.
use docker.Base.{
  Bool, false, if◌then◌else◌, true, minus_one, Option, ℕ, ◌+◌, ◌≤◌, ℤ, pos, ◌≡◌, refl, ◌∷◌, [],
  some, arith,
}
use docker.Sys.{Kernel, Trace, M, pure, ◌>>=◌, ◌>>◌, steps}
use docker.Sys.Descriptors.{
  Handle, Settles-pure, Settles-append, Settles-bind, quiet_rules, quiet_sys_ret, Settles, opened,
  closed,
}
use docker.Container.{container_init}
use docker.Barco.Defs.{Args, Locals, Flow, next, cleanup, waiting, go_on, ◌>=>◌}
use docker.Barco.Setup.{fill_config, make_sockets, make_stack, host_network}
use docker.Barco.Run.{start_container, move_interface, confine, await_exit}
use docker.Barco.Main.{main, body, setup, finish, release, initial, clean_up}
use docker.Barco.Descriptors.{
  fill_config-Settles, make_stack-Settles, host_network-Settles, move_interface-Settles,
  confine-Settles, await_exit-Settles,
}
use docker.Barco.MainLaws.{locals, clean_up-Settles}
use docker.Barco.Descriptors.Sockets.{
  socks, SameSockets, same_socks, fill_config-SameSockets, make_stack-SameSockets,
  host_network-SameSockets, move_interface-SameSockets, confine-SameSockets, await_exit-SameSockets,
  start_container-SameSockets,
}
use docker.Barco.Descriptors.Kept.{KeptFlow, Keeps, Keeps-seq, same-KeptFlow, Settles-Keeps}

-- The child's end of the pair is closed here, and stays in its variable.
start_container_opens :
    (l : Locals) (k : Kernel) (t : Trace) (fd : Handle)
    → let u = (start_container l k t).1 in opened k u fd + closed t fd ≤ closed u fd + opened k t fd
unfolding start_container container_init steps
start_container_opens l k t fd = ground arith

start_container-Keeps : (l : Locals) → Keeps start_container l
start_container-Keeps l = record {
  keep = λ k t.
      same-KeptFlow k t l (start_container l k t).1 (start_container l k t).0
        (start_container_opens l k t) (start_container-SameSockets l k t);
}

-- The pair of sockets, before which there are none.
make_sockets_opens :
    (l : Locals) (k : Kernel) (t : Trace) (fd : Handle)
    → l.socket0 ≡ minus_one
    → l.socket1 ≡ minus_one
    → let (r, u) = make_sockets l k t in
      opened k u fd + closed t fd ≤ closed u fd + opened k t fd + socks (locals l r) fd
unfolding make_sockets steps
make_sockets_opens l k t fd = ground arith

from_initial :
    (args : Args) (l : Locals) (k : Kernel) (t : Trace) (v : Trace) (r : Flow)
    → ((fd : Handle)
        → opened k v fd + closed t fd ≤ closed v fd + opened k t fd + socks (locals l r) fd)
    → KeptFlow k t (initial args) v r
unfolding KeptFlow
from_initial args l k t v (next l') h = record { kept = λ fd. omega (arith, h fd) }
from_initial args l k t v (cleanup l') h = record { kept = λ fd. omega (arith, h fd) }
from_initial args l k t v waiting h = tt

sockets-Keeps : (args : Args) → Keeps (fill_config args >=> make_sockets) (initial args)
unfolding steps KeptFlow SameSockets
sockets-Keeps args = record {
  keep = λ k t.
      go k t (fill_config args (initial args) k t).1 (fill_config args (initial args) k t).0
        ((fill_config-Settles args (initial args)).settled k t)
        (fill_config-SameSockets args (initial args) k t);
}
  where
    go :
        (k : Kernel) (t : Trace) (u : Trace) (r : Flow)
        → ((fd : Handle) → opened k u fd + closed t fd + 0 ≡ closed u fd + opened k t fd)
        → SameSockets (initial args) r
        → KeptFlow k t (initial args) (go_on make_sockets r k u).1 (go_on make_sockets r k u).0
    go k t u (next l) h e =
        from_initial args l k t (make_sockets l k u).1 (make_sockets l k u).0
          λ fd. omega (arith, h fd, make_sockets_opens l k u fd e.0 e.1)
    go k t u (cleanup l) h e = record {
      kept = λ fd. omega (arith, h fd, same_socks (initial args) l fd e);
    }
    go k t u waiting h e = tt

body-Keeps : (rounds : ℕ) (args : Args) → Keeps (body rounds args) (initial args)
unfolding body setup
body-Keeps rounds args =
    Keeps-seq
      (Keeps-seq
        (Keeps-seq
          (Keeps-seq
            (Keeps-seq
              (Keeps-seq (sockets-Keeps args)
                (Settles-Keeps make_stack make_stack-Settles make_stack-SameSockets))
              (Settles-Keeps host_network host_network-Settles host_network-SameSockets))
            start_container-Keeps)
          (Settles-Keeps move_interface move_interface-Settles move_interface-SameSockets))
        (Settles-Keeps confine confine-Settles confine-SameSockets))
      (Settles-Keeps (await_exit rounds) (await_exit-Settles rounds)
        (await_exit-SameSockets rounds))

release-Settles : (code : ℤ) → Settles [] (release code)
unfolding release
release-Settles code = search quiet_rules depth 40

finish_closes :
    (l : Locals)
    → Settles
        (l.socket0 ∷ l.socket1 ∷ [])
        (do clean_up l; code ← release l.exitcode; pure (some code))
finish_closes l =
    Settles-append (l.socket0 ∷ l.socket1 ∷ []) [] (clean_up-Settles l)
      λ u. Settles-bind (release-Settles l.exitcode) λ code. Settles-pure _

-- The descriptors that a run of `main` opens are closed by it.
NoLeak : Kernel → Trace → Trace → Type 0
NoLeak k t u = (fd : Handle) → opened k u fd + closed t fd ≤ closed u fd + opened k t fd

finish-NoLeak :
    (args : Args) (k : Kernel) (t u : Trace) (r : Flow) (code : ℤ)
    → KeptFlow k t (initial args) u r
    → (finish r k u).0 ≡ some code
    → NoLeak k t (finish r k u).1
unfolding KeptFlow finish NoLeak
finish-NoLeak args k t u (next l) code h e fd =
    omega (arith, h.kept fd, (finish_closes l).settled k u fd)
finish-NoLeak args k t u (cleanup l) code h e fd =
    omega (arith, h.kept fd, (finish_closes l).settled k u fd)
finish-NoLeak args k t u waiting code h e fd = unfold steps in ground arith

record Clean (m : M (Option ℤ)) : Type 0 where
  clean : (k : Kernel) (t : Trace) (code : ℤ) → (m k t).0 ≡ some code → NoLeak k t (m k t).1

Settles-Clean : (m : M (Option ℤ)) → Settles [] m → Clean m
unfolding NoLeak
Settles-Clean m s = record { clean = λ k t code e fd. omega (arith, s.settled k t fd) }

Clean-if : (b : Bool) (m n : M (Option ℤ)) → Clean m → Clean n → Clean (if b then m else n)
Clean-if true m n p q = p
Clean-if false m n p q = q

Clean-bind :
    {A : Type 0} (m : M A) (f : A → M (Option ℤ))
    → Settles [] m
    → ((a : A) → Clean (f a))
    → Clean (m >>= f)
unfolding steps NoLeak
Clean-bind m f s q = record {
  clean =
      λ k t code e fd. omega (arith, s.settled k t fd, (q (m k t).0).clean k (m k t).1 code e fd);
}

run-Clean :
    (rounds : ℕ) (args : Args) → Clean (do flow ← body rounds args (initial args); finish flow)
unfolding steps
run-Clean rounds args = record {
  clean = λ k t code e.
      let r = body rounds args (initial args) k t in
      finish-NoLeak args k t r.1 r.0 code ((body-Keeps rounds args).keep k t) e;
}

main-Clean : (rounds : ℕ) (args : Args) → Clean (main rounds args)
unfolding main
main-Clean rounds args = Clean-bind _ _ (quiet_sys_ret _ refl) λ config.
    Clean-if _ _ _ (Settles-Clean _ (Settles-pure _))
      (Clean-if _ _ _ (exits (pos 1)) (Clean-if _ _ _ (exits (pos 0)) (run-Clean rounds args)))
  where
    exits : (code : ℤ) → Clean (release code >>= λ c. pure (some c))
    exits code = Settles-Clean _ (Settles-bind (release-Settles code) λ c. Settles-pure _)

-- A run of `main` that returns leaks no descriptor and no stream of popen(3): on every path, whichever of
-- its calls fail, each number that open, socket or socketpair gave out during the run is closed in it, and
-- each pointer that popen gave out is given to pclose, at least as often as it was given out.
pub main_leaks_nothing :
    (rounds : ℕ) (args : Args) (code : ℤ) (k : Kernel) (t : Trace) (fd : Handle)
    → (main rounds args k t).0 ≡ some code
    → let u = (main rounds args k t).1 in opened k u fd + closed t fd ≤ closed u fd + opened k t fd
unfolding NoLeak
main_leaks_nothing rounds args code k t fd done = (main-Clean rounds args).clean k t code done fd
