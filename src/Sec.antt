-- ===== src/Sec.antt =====
-- src/sec.c: the capabilities that are dropped, and the system calls that are filtered.
pub mod Laws
pub mod Capabilities
pub mod Filter
use docker.Base.{ℕ, ℤ, pos, nonzero, not, Bool, true, false, List, [], ◌∷◌, if◌then◌else◌}
use docker.Sys.{
  M, Call, Capability, Syscall, Mask, always, masked_eq, Rule, pure, sys_ret, ◌>>=◌, ◌>>◌,
}

unfoldable pub drop_caps : List Capability
drop_caps =
    Capability.audit_control ∷ Capability.audit_read ∷ Capability.audit_write
    ∷ Capability.block_suspend ∷ Capability.dac_read_search ∷ Capability.fsetid
    ∷ Capability.ipc_lock ∷ Capability.mac_admin ∷ Capability.mac_override ∷ Capability.mknod
    ∷ Capability.setfcap ∷ Capability.syslog ∷ Capability.sys_admin ∷ Capability.sys_boot
    ∷ Capability.sys_module ∷ Capability.sys_nice ∷ Capability.sys_rawio ∷ Capability.sys_resource
    ∷ Capability.sys_time ∷ Capability.wake_alarm ∷ []

-- The loop over the bounding set; `false` is the return at the first failure.
unfoldable pub drop_bounding : List Capability → M Bool
drop_bounding [] = pure true
drop_bounding (cap_id ∷ caps) = do
  r ← sys_ret (Call.prctl_capbset_drop cap_id)
  if nonzero r then pure false else drop_bounding caps

-- A chain `a || b || …` over calls on the resource; `true` where every call returns 0.
unfoldable pub all_done : List Call → M Bool
all_done [] = pure true
all_done (c ∷ cs) = do r ← sys_ret c; if nonzero r then pure false else all_done cs

-- The resource is given back on every path; the failure is reported by 1.
abbrev pub guarded : Call → List Call → M ℤ
guarded release calls = do
  done ← all_done calls
  sys_ret release
  pure (if done then pos 0 else pos 1)

unfoldable pub sec_set_caps : M ℤ
sec_set_caps = do
  bounded ← drop_bounding drop_caps
  if not bounded then pure (pos 1) else do
    caps ← sys_ret Call.cap_get_proc
    if not (nonzero caps)
        then pure (pos 1)
        else guarded Call.cap_free (Call.cap_clear_inheritable drop_caps ∷ Call.cap_set_proc ∷ [])

abbrev pub refuse : Syscall → Rule
refuse s = record { syscall = s; condition = always }

abbrev pub refuse_mask : Syscall → ℕ → Mask → Rule
refuse_mask s arg m = record { syscall = s; condition = masked_eq arg m }

-- The rules in the order in which they are added; the action of each is SEC_SCMP_FAIL.
unfoldable pub rules : List Rule
rules =
    refuse_mask Syscall.chmod 1 Mask.s_isuid
    ∷ refuse_mask Syscall.chmod 1 Mask.s_isgid
    ∷ refuse_mask Syscall.fchmod 1 Mask.s_isuid
    ∷ refuse_mask Syscall.fchmod 1 Mask.s_isgid
    ∷ refuse_mask Syscall.fchmodat 2 Mask.s_isuid
    ∷ refuse_mask Syscall.fchmodat 2 Mask.s_isgid
    ∷ refuse_mask Syscall.unshare 0 Mask.clone_newuser
    ∷ refuse_mask Syscall.clone 0 Mask.clone_newuser
    ∷ refuse_mask Syscall.ioctl 1 Mask.tiocsti
    ∷ refuse Syscall.keyctl
    ∷ refuse Syscall.add_key
    ∷ refuse Syscall.request_key
    ∷ refuse Syscall.ptrace
    ∷ refuse Syscall.mbind
    ∷ refuse Syscall.migrate_pages
    ∷ refuse Syscall.move_pages
    ∷ refuse Syscall.set_mempolicy
    ∷ refuse Syscall.userfaultfd
    ∷ refuse Syscall.perf_event_open
    ∷ []

-- The calls behind `seccomp_init`, as `||` chains them.
unfoldable pub seccomp_calls : List Rule → List Call
seccomp_calls [] = Call.seccomp_nnp_off ∷ Call.seccomp_load ∷ []
seccomp_calls (r ∷ rs) = Call.seccomp_rule_add r ∷ seccomp_calls rs

unfoldable pub sec_set_seccomp : M ℤ
sec_set_seccomp = do
  ctx ← sys_ret Call.seccomp_init
  if not (nonzero ctx) then pure (pos 1) else guarded Call.seccomp_release (seccomp_calls rules)
