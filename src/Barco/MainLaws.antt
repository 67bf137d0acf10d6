-- ===== src/Barco/MainLaws.antt =====
-- How `main` waits for the container, and what `cleanup` gives back.
use docker.Base.{
  ℕ, zero, suc, ◌+◌, ◌<◌, ◌≡◌, ◌≢◌, refl, ap, ◌∙◌, ℤ, pos, negsuc, minus_one, is_neg, Bool, true,
  false, Bytes, [], ◌∷◌, length, get_or, arith,
}
use docker.Sys.{Kernel, Trace, M, Call, Reply, steps}
use docker.Sys.Descriptors.{
  descriptor, Settles, Settles-pure, Settles-bind, Settles-append, Settles-sys_ret, Settles-close,
  opened, closed, times,
}
use docker.Netlink.Descriptors.{nl_del_link-Settles}
use docker.Cgroups.{cgroups_free}
use docker.Container.{container_init}
use docker.Barco.Nat.{cleanup_nat}
use docker.Barco.Defs.{Locals, Flow, next, cleanup, waiting}
use docker.Barco.Main.{
  clean_up, remove_nat, remove_veth, free_stack, close_socket, remove_cgroup, when,
}
use docker.Barco.Run.{start_container, wait_exit, exited}

Settles-when : (b : Bool) {m : M (Unit {0})} → Settles [] m → Settles [] (when b m)
Settles-when true p = p
Settles-when false p = Settles-pure tt

close_socket-Settles : (fd : ℤ) → Settles (fd ∷ []) (close_socket fd)
close_socket-Settles (pos n) = Settles-close (pos n) λ r. Settles-pure tt
close_socket-Settles (negsuc n) = record { settled = (Settles-pure tt).settled }

cleanup_nat-Settles : (subnet host_if : Bytes) → Settles [] (cleanup_nat subnet host_if)
unfolding cleanup_nat
cleanup_nat-Settles subnet host_if = Settles-bind (Settles-sys_ret _ (refl, λ fd. refl)) λ a.
    Settles-bind (Settles-sys_ret _ (refl, λ fd. refl))
      λ b. Settles-bind (Settles-sys_ret _ (refl, λ fd. refl)) λ c. Settles-pure tt

cgroups_free-Settles : (hostname : Bytes) → Settles [] (cgroups_free hostname)
unfolding cgroups_free
cgroups_free-Settles hostname =
    Settles-bind (Settles-sys_ret _ (refl, λ fd. refl)) λ r. Settles-pure _

-- On every path `cleanup` closes each descriptor as often as it opens it, and besides that each of
-- the two sockets of the pair once, unless its number is negative.
pub clean_up-Settles : (l : Locals) → Settles (l.socket0 ∷ l.socket1 ∷ []) (clean_up l)
unfolding clean_up remove_nat remove_veth free_stack remove_cgroup
clean_up-Settles l = Settles-bind (Settles-when _ (cleanup_nat-Settles _ _)) λ a.
    Settles-bind (Settles-when _ (Settles-bind (nl_del_link-Settles _) λ r. Settles-pure tt)) λ b.
      Settles-bind
        (Settles-when _ (Settles-bind (Settles-sys_ret _ (refl, λ fd. refl)) λ r. Settles-pure tt))
        λ c. Settles-append (l.socket0 ∷ []) (l.socket1 ∷ []) (close_socket-Settles l.socket0) λ d.
          Settles-append (l.socket1 ∷ []) [] (close_socket-Settles l.socket1)
            λ e. Settles-when _ (Settles-bind (cgroups_free-Settles _) λ r. Settles-pure tt)

shift : (s i : ℕ) → suc s + i ≡ s + suc i
shift s i = omega arith

module _ (pid : ℕ) (k : Kernel) where
  abbrev reply : ℕ → Reply
  reply i = k i (Call.waitpid (pos pid))

  wait_exit_from :
      (n rounds s : ℕ) (t : Trace)
      → length t ≡ s
      → n < rounds
      → ((i : ℕ) → i < n → ((reply (s + i)).ret ≡ minus_one) × ((reply (s + i)).errno ≡ 4))
      → (reply (s + n)).ret ≡ pos pid
      → (wait_exit rounds (pos pid) k t).0 ≡ exited (get_or (reply (s + n)).out 0 0)
  unfolding wait_exit steps
  wait_exit_from zero (suc rounds) s t e lt h r =
      let here : s + 0 ≡ length t = omega (arith, e) in rw here (ground (arith, rw here at r))
  wait_exit_from (suc n) (suc rounds) s t e lt h r =
      let here : s + 0 ≡ length t = omega (arith, e) in
      let first : ((reply (length t)).ret ≡ minus_one) × ((reply (length t)).errno ≡ 4) =
        rw here at (h 0 (omega arith)) in
      rw (first.0, first.1, ← shift s n)
        (wait_exit_from n rounds (suc s) (Call.waitpid (pos pid) ∷ t) (ap suc e) (omega arith)
          (λ i lt'. rw (shift s i) (h (suc i) (omega arith))) (rw (shift s n) r))
  wait_exit_from n zero s t e lt h r = absurd (omega arith)

-- If `waitpid` is interrupted `n` times and then returns the container's process, and there are
-- more than `n` rounds, the loop of `main` ends with the wait status that it stored.
pub wait_exit_retries :
    (n rounds pid : ℕ) (k : Kernel) (t : Trace)
    → n < rounds
    → ((i : ℕ)
        → i < n
        → ((k (length t + i) (Call.waitpid (pos pid))).ret ≡ minus_one)
          × ((k (length t + i) (Call.waitpid (pos pid))).errno ≡ 4))
    → (k (length t + n) (Call.waitpid (pos pid))).ret ≡ pos pid
    → (wait_exit rounds (pos pid) k t).0
      ≡ exited (get_or (k (length t + n) (Call.waitpid (pos pid))).out 0 0)
wait_exit_retries n rounds pid k t lt h r = wait_exit_from pid k n rounds (length t) t refl lt h r

-- The local variables that a part of `main` hands on.
abbrev pub locals : Locals → Flow → Locals
locals l (next l') = l'
locals l (cleanup l') = l'
locals l waiting = l

module _ (l : Locals) (n : ℕ) (k : Kernel) (t : Trace) where
  abbrev after : Flow × Trace
  after = start_container l k t

  start_container_closes :
      l.config.fd ≡ pos n
      → is_neg (container_init l.config k t).0.0 ≡ false
      → (closed after.1 (descriptor n) ≡ closed t (descriptor n) + 1)
        × (opened k after.1 (descriptor n) ≡ opened k t (descriptor n))
        × ((locals l after.0).socket0 ≡ l.socket0)
        × ((locals l after.0).socket1 ≡ l.socket1)
  unfolding start_container container_init steps
  start_container_closes fd started = ground arith

times_two :
    (a b : ℤ) (m n : ℕ) → a ≡ pos m → b ≡ pos n → m ≢ n → times (a ∷ b ∷ []) (descriptor n) ≡ 1
times_two a b m n p q ne = ground arith

-- Once the container process is created, the run closes the child's end of the socket pair twice: in
-- `container_init`, and in `cleanup` under the number that `sockets` still holds.
pub socket_closed_twice :
    (l : Locals) (n m : ℕ) (k : Kernel) (t : Trace)
    → l.config.fd ≡ pos n
    → l.socket0 ≡ pos m
    → l.socket1 ≡ pos n
    → m ≢ n
    → is_neg (container_init l.config k t).0.0 ≡ false
    → let (r, u) = start_container l k t in
      let v = (clean_up (locals l r) k u).1 in
      let d = descriptor n in closed v d + opened k t d ≡ closed t d + opened k v d + 2
socket_closed_twice l n m k t fd s0 s1 ne started =
    let s = start_container_closes l n k t fd started in
    let l' = locals l (start_container l k t).0 in
    omega (
      arith,
      s,
      times_two l'.socket0 l'.socket1 m n (s.2 ∙ s0) (s.3 ∙ s1) ne,
      (clean_up-Settles l').settled k (start_container l k t).1 (descriptor n),
    )
