-- ===== src/Tests/PrivilegeRuns.antt =====
-- The theorems about capabilities and ids with concrete kernels.
use docker.Base.{
  ℕ, ◌≡◌, refl, ap, pos, minus_one, Bool, true, false, ◌&&◌, ◌||◌, ◌==◌, not, codes, some, none,
  List, [], ◌∷◌, arith, if◌then◌else◌,
}
use docker.Sys.{Kernel, Trace, Call, Capability}
use docker.Sec.{sec_set_caps}
use docker.Sec.Capabilities.{Credentials, process}
use docker.Container.Privileges.{command_permits_none}
use docker.Sys.{steps}
use docker.User.{user_namespace_init, switch_ids}
use docker.User.Range.{is_mapped, RefusesUnmapped}
use docker.Mount.{mount_set, pivot_root, leave_old_root, all_zero}
use docker.Sec.{drop_bounding, drop_caps, all_done, sec_set_seccomp, seccomp_calls, rules}
use docker.Container.{container_start, prepare, restrict, execute, configure_network}
use docker.Container.Order.{container_start-root}
use docker.Base.{drop as behind_first}
use docker.Tests.Kernels.{answer, generous}
use docker.Tests.ProcessRuns.{shell}
use mathlib.Core.List.{Memᴰ}
use mathlib.Core.List.Memᴰ.{head, tail}

-- As linux/capability.h numbers them.
number : Capability → ℕ
number Capability.audit_control = 30
number Capability.audit_read = 37
number Capability.audit_write = 29
number Capability.block_suspend = 36
number Capability.dac_read_search = 2
number Capability.fsetid = 4
number Capability.ipc_lock = 14
number Capability.mac_admin = 33
number Capability.mac_override = 32
number Capability.mknod = 27
number Capability.setfcap = 31
number Capability.syslog = 34
number Capability.sys_admin = 21
number Capability.sys_boot = 22
number Capability.sys_module = 16
number Capability.sys_nice = 23
number Capability.sys_rawio = 17
number Capability.sys_resource = 24
number Capability.sys_time = 25
number Capability.wake_alarm = 35

abbrev among : Capability → List Capability → Bool
among c [] = false
among c (d ∷ ds) = number c == number d || among c ds

among_lem : (c : Capability) (cs : List Capability) → Memᴰ c cs → among c cs ≡ true
among_lem c [] m = elim m [ ]
among_lem c (d ∷ ds) (head e) = ground (arith, ap number e)
among_lem c (d ∷ ds) (tail m) = ground (arith, among_lem c ds m)

-- The two sets of a process.
record Sets : Type 0 where
  inheritable : Capability → Bool
  bounding : Capability → Bool

abbrev drop : Capability → Sets → Sets
drop c s = record s { bounding = λ d. s.bounding d && not (number c == number d) }

abbrev install : List Capability → Sets → Sets
install cs s = record s { inheritable = λ d. s.inheritable d && not (among d cs) }

drop_lem : (c : Capability) (s : Sets) → (drop c s).bounding c ≡ false
drop_lem c s = ground arith

drop_only : (c d : Capability) (s : Sets) → s.bounding c ≡ false → (drop d s).bounding c ≡ false
drop_only c d s h = ground arith

install_clears :
    (c : Capability) (cs : List Capability) (s : Sets)
    → Memᴰ c cs
    → (install cs s).inheritable c ≡ false
install_clears c cs s m = ground (arith, among_lem c cs m)

abbrev all_powerful : Sets
all_powerful = record { inheritable = λ c. true; bounding = λ c. true }

-- A command that root runs is permitted both sets, and a new user namespace gives all capabilities.
abbrev root : Credentials
root = record {
  State = Sets;
  inheritable = λ c s. s.inheritable c;
  bounding = λ c s. s.bounding c;
  permitted_after_exec = λ c s. s.inheritable c || s.bounding c;
  drop = drop;
  install = install;
  enter = λ s. all_powerful;
  dropped = drop_lem;
  drop_only_drops = drop_only;
  cleared = install_clears;
  install_bounded = λ c cs s. refl;
  exec_permits = λ c s h. h;
}

-- A kernel that refuses ids without a mapping, and nothing else.
abbrev mapping : Kernel
mapping n (Call.setresgid gid) = if is_mapped gid then answer (pos 0) [] else answer minus_one []
mapping n c = generous n c

mapping-RefusesUnmapped : RefusesUnmapped mapping
mapping-RefusesUnmapped n gid h = ground arith

-- The calls of a start that reaches the command, but for the last.
abbrev before_command : Trace
before_command = behind_first 1 (container_start shell mapping []).1

started :
    (container_start shell mapping []).1
    ≡ Call.execve (codes "/bin/sh") (some (codes "/bin/sh") ∷ none ∷ none ∷ []) ∷ before_command
unfolding container_start steps prepare restrict execute mount_set pivot_root leave_old_root
    all_zero configure_network user_namespace_init switch_ids sec_set_caps drop_bounding drop_caps
    all_done sec_set_seccomp seccomp_calls rules
started = refl

container_start-root_example : shell.uid ≡ 0
container_start-root_example =
    container_start-root shell mapping [] (codes "/bin/sh")
      (some (codes "/bin/sh") ∷ none ∷ none ∷ []) before_command refl mapping-RefusesUnmapped
      started

abbrev entered : Trace
entered = (user_namespace_init 0 (pos 6) mapping (prepare shell mapping []).1).1

drops : (sec_set_caps mapping entered).0 ≡ pos 0
unfolding sec_set_caps steps drop_bounding drop_caps all_done
drops = refl

command_permits_none_example :
    root.permitted_after_exec Capability.sys_admin
      (process root mapping all_powerful before_command).0
    ≡ false
command_permits_none_example =
    command_permits_none root Capability.sys_admin all_powerful shell mapping [] (codes "/bin/sh")
      (some (codes "/bin/sh") ∷ none ∷ none ∷ []) before_command refl started drops
