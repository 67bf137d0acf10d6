-- ===== src/Barco/Descriptors/Kept.antt =====
-- What the parts of `main` in src/barco.c keep of the count of descriptors.
use docker.Base.{◌+◌, ◌≤◌, [], arith}
use docker.Sys.{Kernel, Trace, M, steps}
use docker.Sys.Descriptors.{Handle, Settles, opened, closed}
use docker.Barco.Defs.{Locals, Flow, next, cleanup, waiting, go_on, ◌>=>◌}
use docker.Barco.Descriptors.Sockets.{socks, SameSockets, same_socks}

-- From `t` with the variables `l` to `u` with `l'`, what was opened was closed or is in the sockets.
pub record Kept (k : Kernel) (t : Trace) (l : Locals) (u : Trace) (l' : Locals) : Type 0 where
  pub kept :
      (fd : Handle)
      → opened k u fd + closed t fd + socks l fd ≤ closed u fd + opened k t fd + socks l' fd

unfoldable pub KeptFlow : Kernel → Trace → Locals → Trace → Flow → Type 0
KeptFlow k t l u (next l') = Kept k t l u l'
KeptFlow k t l u (cleanup l') = Kept k t l u l'
KeptFlow k t l u waiting = Unit {0}

Kept-trans :
    {k : Kernel} {t u v : Trace} {l l' l'' : Locals}
    → Kept k t l u l'
    → Kept k u l' v l''
    → Kept k t l v l''
Kept-trans p q = record { kept = λ fd. omega (arith, p.kept fd, q.kept fd) }

pub record Keeps (f : Locals → M Flow) (l : Locals) : Type 0 where
  pub keep : (k : Kernel) (t : Trace) → KeptFlow k t l (f l k t).1 (f l k t).0

KeptFlow-trans :
    {k : Kernel} {t u : Trace} (v : Trace) {l l' : Locals} (r : Flow)
    → Kept k t l u l'
    → KeptFlow k u l' v r
    → KeptFlow k t l v r
unfolding KeptFlow
KeptFlow-trans v (next l'') p q = Kept-trans p q
KeptFlow-trans v (cleanup l'') p q = Kept-trans p q
KeptFlow-trans v waiting p q = tt

pub Keeps-seq :
    {f g : Locals → M Flow} {l : Locals}
    → Keeps f l
    → ((l' : Locals) → Keeps g l')
    → Keeps (f >=> g) l
unfolding steps KeptFlow
Keeps-seq {f} {g} {l} p q = record { keep = λ k t. go k t (f l k t).0 (f l k t).1 (p.keep k t) }
  where
    go :
        (k : Kernel) (t : Trace) (r : Flow) (u : Trace)
        → KeptFlow k t l u r
        → KeptFlow k t l (go_on g r k u).1 (go_on g r k u).0
    go k t (next l') u h = KeptFlow-trans (g l' k u).1 (g l' k u).0 h ((q l').keep k u)
    go k t (cleanup l') u h = h
    go k t waiting u h = tt

pub same-KeptFlow :
    (k : Kernel) (t : Trace) (l : Locals) (u : Trace) (r : Flow)
    → ((fd : Handle) → opened k u fd + closed t fd ≤ closed u fd + opened k t fd)
    → SameSockets l r
    → KeptFlow k t l u r
unfolding KeptFlow SameSockets
same-KeptFlow k t l u (next l') h e = record {
  kept = λ fd. omega (arith, h fd, same_socks l l' fd e);
}
same-KeptFlow k t l u (cleanup l') h e = record {
  kept = λ fd. omega (arith, h fd, same_socks l l' fd e);
}
same-KeptFlow k t l u waiting h e = tt

pub Settles-Keeps :
    (f : Locals → M Flow)
    → ((l : Locals) → Settles [] (f l))
    → ((l : Locals) (k : Kernel) (t : Trace) → SameSockets l (f l k t).0)
    → (l : Locals) → Keeps f l
Settles-Keeps f s same l = record {
  keep = λ k t.
      same-KeptFlow k t l (f l k t).1 (f l k t).0 (λ fd. omega (arith, (s l).settled k t fd))
        (same l k t);
}
