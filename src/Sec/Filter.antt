-- ===== src/Sec/Filter.antt =====
-- What the rules of `sec_set_seccomp` refuse. Whether a masked argument equals the datum is libseccomp's
-- to say, so the comparison is a parameter.
use docker.Base.{ℕ, ◌≡◌, refl, Bool, true, false, ◌||◌, ◌&&◌, ◌==◌, arith, List, [], ◌∷◌}
use docker.Sys.{Syscall, Mask, Condition, always, masked_eq, Rule}
use docker.Sec.{rules}

-- `SCMP_SYS(a)` and `SCMP_SYS(b)` are the same system call.
abbrev number : Syscall → ℕ
number Syscall.chmod = 0
number Syscall.fchmod = 1
number Syscall.fchmodat = 2
number Syscall.unshare = 3
number Syscall.clone = 4
number Syscall.ioctl = 5
number Syscall.keyctl = 6
number Syscall.add_key = 7
number Syscall.request_key = 8
number Syscall.ptrace = 9
number Syscall.mbind = 10
number Syscall.migrate_pages = 11
number Syscall.move_pages = 12
number Syscall.set_mempolicy = 13
number Syscall.userfaultfd = 14
number Syscall.perf_event_open = 15

module _ (matches : ℕ → Mask → Bool) where
  abbrev pub holds : Condition → Bool
  holds always = true
  holds (masked_eq arg mask) = matches arg mask

  -- Some rule of the list is for this system call, and its condition holds.
  unfoldable pub refused : List Rule → Syscall → Bool
  refused [] s = false
  refused (r ∷ rs) s = ((number r.syscall == number s) && holds r.condition) || refused rs s

  -- The policy: no set-id bits by any of the chmod calls, no new user namespace, no TIOCSTI, and none
  -- of the calls on keys, tracing, memory policy, page faults and performance events.
  unfoldable pub forbidden : Syscall → Bool
  forbidden Syscall.chmod = matches 1 Mask.s_isuid || matches 1 Mask.s_isgid
  forbidden Syscall.fchmod = matches 1 Mask.s_isuid || matches 1 Mask.s_isgid
  forbidden Syscall.fchmodat = matches 2 Mask.s_isuid || matches 2 Mask.s_isgid
  forbidden Syscall.unshare = matches 0 Mask.clone_newuser
  forbidden Syscall.clone = matches 0 Mask.clone_newuser
  forbidden Syscall.ioctl = matches 1 Mask.tiocsti
  forbidden _ = true

-- However masked arguments compare, the rules of `sec_set_seccomp` refuse a system call that sec.c
-- names exactly where one of the comparisons of its comments holds. Which numbers pass a comparison is
-- not said.
pub rules_refuse :
    (matches : ℕ → Mask → Bool) (s : Syscall) → refused matches rules s ≡ forbidden matches s
unfolding refused forbidden rules
rules_refuse matches Syscall.chmod = ground arith
rules_refuse matches Syscall.fchmod = ground arith
rules_refuse matches Syscall.fchmodat = ground arith
rules_refuse matches Syscall.unshare = ground arith
rules_refuse matches Syscall.clone = ground arith
rules_refuse matches Syscall.ioctl = ground arith
rules_refuse matches Syscall.keyctl = refl
rules_refuse matches Syscall.add_key = refl
rules_refuse matches Syscall.request_key = refl
rules_refuse matches Syscall.ptrace = refl
rules_refuse matches Syscall.mbind = refl
rules_refuse matches Syscall.migrate_pages = refl
rules_refuse matches Syscall.move_pages = refl
rules_refuse matches Syscall.set_mempolicy = refl
rules_refuse matches Syscall.userfaultfd = refl
rules_refuse matches Syscall.perf_event_open = refl
