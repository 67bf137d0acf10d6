-- ===== src/Sys/Defs.antt =====
-- The alphabet of calls, a run's trace, and the monad of programs.
use docker.Base.{ℕ, ℤ, Bytes, List, [], ◌∷◌, ◌++◌, length, Option, ◌≡◌, refl}

-- The capabilities that sec.c names, as linux/capability.h spells them.
pub data Capability : Type 0 where
  audit_control audit_read audit_write block_suspend dac_read_search fsetid ipc_lock : Capability
  mac_admin mac_override mknod setfcap syslog sys_admin sys_boot sys_module sys_nice : Capability
  sys_rawio sys_resource sys_time wake_alarm : Capability

-- The system calls that sec.c filters.
pub data Syscall : Type 0 where
  chmod fchmod fchmodat unshare clone ioctl keyctl add_key request_key ptrace mbind : Syscall
  migrate_pages move_pages set_mempolicy userfaultfd perf_event_open : Syscall

-- The mask that SCMP_CMP_MASKED_EQ compares under; the datum is the mask itself.
pub data Mask : Type 0 where
  s_isuid s_isgid clone_newuser tiocsti : Mask

-- A condition on one argument: its index and the mask.
pub data Condition : Type 0 where
  always : Condition
  masked_eq : ℕ → Mask → Condition

pub record Rule : Type 0 where
  pub syscall : Syscall
  pub condition : Condition

-- Flags of open(2), as the program combines them.
pub data OpenMode : Type 0 where
  o_wronly o_rdonly o_wronly_creat_trunc : OpenMode

-- Flags of mount(2), as the program combines them.
pub data MountFlag : Type 0 where
  ms_rec ms_private ms_bind ms_nosuid ms_noexec ms_nodev ms_rdonly : MountFlag

-- Flags of clone(2).
pub data CloneFlag : Type 0 where
  newns newcgroup newpid newipc newnet newuts newuser sigchld : CloneFlag

-- The heap blocks of `main`.
pub data Block : Type 0 where
  config stack veth_peer veth_tmp : Block

pub data Call : Type 0 where
  -- unistd.h, fcntl.h, sys/stat.h; `mkdir` is called with mode 0700 alone
  open_file : Bytes → OpenMode → Call
  close : ℤ → Call
  write : ℤ → Bytes → Call
  read : ℤ → ℕ → Call
  mkdir rmdir : Bytes → Call
  mkdtemp : Bytes → Call
  chdir : Bytes → Call
  execve : Bytes → List (Option Bytes) → Call
  usleep : ℕ → Call
  getpid geteuid : Call
  clock_gettime : Call
  sethostname : Bytes → Call
  setresgid setresuid : ℕ → Call
  -- sys/mount.h: source, target, file system type, flags; `none` is NULL
  mount : Option Bytes → Bytes → Option Bytes → List MountFlag → Call
  umount2_detach : Bytes → Call
  pivot_root : Bytes → Bytes → Call
  -- sched.h, signal.h, sys/wait.h
  clone unshare : List CloneFlag → Call
  kill : ℤ → ℕ → Call
  waitpid : ℤ → Call
  -- sys/socket.h, net/if.h, arpa/inet.h
  socket : Call
  setsockopt : ℤ → Call
  sendmsg : ℤ → Bytes → Call
  recvmsg : ℤ → ℕ → Call
  socketpair : Call
  fcntl_cloexec : ℤ → Call
  if_nametoindex : Bytes → Call
  inet_pton : Bytes → Call
  -- stdlib.h, stdio.h
  srand : ℕ → Call
  rand : Call
  system popen : Bytes → Call
  fgets : ℕ → Call
  pclose : ℤ → Call
  malloc calloc strdup asprintf free : Block → Call
  -- argtable3
  arg_freetable : Call
  -- sys/prctl.h, sys/capability.h, seccomp.h
  prctl_capbset_drop : Capability → Call
  cap_get_proc : Call
  cap_clear_inheritable : List Capability → Call
  cap_set_proc cap_free : Call
  seccomp_init : Call
  seccomp_rule_add : Rule → Call
  seccomp_nnp_off seccomp_load seccomp_release : Call
  -- no call: what memory that was never written, or lies beyond an array, holds
  indeterminate : Call

-- What a call gives back: its value (for a pointer, 0 is NULL), errno, and what it stores through
-- its pointer arguments.
pub record Reply : Type 0 where
  pub ret : ℤ
  pub errno : ℕ
  pub out : Bytes

abbrev pub Kernel : Type 0
Kernel = ℕ → Call → Reply

-- The calls made so far, the newest first.
abbrev pub Trace : Type 0
Trace = List Call

abbrev pub M : Type 0 → Type 0
M A = Kernel → Trace → A × Trace

module _ {A : Type 0} where
  unfoldable pub pure : A → M A
  pure a k t = (a, t)

infixl 5 ◌>>=◌ ◌>>◌
unfoldable pub ◌>>=◌ : {A B : Type 0} → M A → (A → M B) → M B
◌>>=◌ m f k t = let (a, t') = m k t in f a k t'

abbrev pub ◌>>◌ : {A B : Type 0} → M A → M B → M B
m >> n = m >>= λ _. n

-- One call.
unfoldable pub sys : Call → M Reply
sys c k t = (k (length t) c, c ∷ t)

-- A call of which the program reads nothing but the value.
unfoldable pub sys_ret : Call → M ℤ
sys_ret c k t = ((k (length t) c).ret, c ∷ t)

-- Named on an `unfolding` line, it opens the four definitions above.
unfoldable pub steps : Unit {0}
unfolding pure ◌>>=◌ sys sys_ret
steps = tt

-- The trace with these calls made, first to last.
abbrev pub made : List Call → Trace → Trace
made [] t = t
made (c ∷ cs) t = made cs (c ∷ t)

pub made-append : (cs ds : List Call) (t : Trace) → made (cs ++ ds) t ≡ made ds (made cs t)
made-append [] ds t = refl
made-append (c ∷ cs) ds t = made-append cs ds (c ∷ t)
