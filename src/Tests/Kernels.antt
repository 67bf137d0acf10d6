-- ===== src/Tests/Kernels.antt =====
-- Kernels that answer every call, for runs on concrete inputs.
use docker.Base.{ℤ, pos, minus_one, Bytes, [], ◌∷◌}
use docker.Sys.{Kernel, Call, Reply}

abbrev pub answer : ℤ → Bytes → Reply
answer n bytes = record { ret = n; errno = 0; out = bytes }

-- Nothing fails: a transfer over a socket has four bytes, which are 0, a process that is created has
-- the number 42, and it exits with code 3.
abbrev pub generous : Kernel
generous n (Call.read fd size) = answer (pos 4) (0 ∷ 0 ∷ 0 ∷ 0 ∷ [])
generous n (Call.write fd bytes) = answer (pos 4) []
generous n (Call.clone flags) = answer (pos 42) []
generous n (Call.waitpid pid) = answer (pos 42) (768 ∷ [])
generous n Call.socketpair = answer (pos 0) (5 ∷ 6 ∷ [])
generous n (Call.calloc block) = answer (pos 1) []
generous n (Call.malloc block) = answer (pos 1) []
generous n (Call.open_file path mode) = answer (pos 9) []
generous n Call.cap_get_proc = answer (pos 1) []
generous n Call.seccomp_init = answer (pos 1) []
generous n (Call.mkdtemp template) = answer (pos 1) (97 ∷ 98 ∷ 99 ∷ 100 ∷ 101 ∷ 102 ∷ [])
generous n (Call.inet_pton text) = answer (pos 1) (10 ∷ 0 ∷ 0 ∷ 2 ∷ [])
generous n (Call.if_nametoindex name) = answer (pos 7) []
generous n _ = answer (pos 0) []

-- As before, without socket pairs.
abbrev pub socketless : Kernel
socketless n Call.socketpair = answer minus_one []
socketless n c = generous n c

-- A host whose process table is full: the network can be set up, and no process can be created. Each
-- netlink response acknowledges request 1.
abbrev pub crowded : Kernel
crowded n (Call.recvmsg sock size) =
    answer (pos 20)
      (20 ∷ 0 ∷ 0 ∷ 0 ∷ 2 ∷ 0 ∷ 0 ∷ 0 ∷ 1 ∷ 0 ∷ 0 ∷ 0 ∷ 0 ∷ 0 ∷ 0 ∷ 0 ∷ 0 ∷ 0 ∷ 0 ∷ 0 ∷ [])
crowded n (Call.asprintf block) = answer (pos 15) []
crowded n (Call.popen command) = answer (pos 1) []
crowded n (Call.fgets size) = answer (pos 1) (101 ∷ 116 ∷ 104 ∷ 48 ∷ 10 ∷ [])
crowded n (Call.clone flags) = answer minus_one []
crowded n c = generous n c

-- Nothing works.
abbrev pub refusing : Kernel
refusing n c = answer minus_one []
