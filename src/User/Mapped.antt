-- ===== src/User/Mapped.antt =====
-- What the parent's end of src/user.c has written, and what the kernel replied, when it reports success.
use docker.Base.{
  suc, ◌≡◌, ℤ, pos, minus_one, ◌==ℤ◌, false, ◌∷◌, [], ◌++◌, length, Bytes, codes, int_bytes,
  get_u32,
}
use docker.Sys.{Kernel, Trace, Call, OpenMode}
use docker.User.{proc_path}
use docker.User.Laws.{wrote}

-- What the write to a file under /proc/<pid> replies that is opened behind a trace.
abbrev pub wrote_reply : Kernel → ℤ → Bytes → Bytes → Trace → ℤ
wrote_reply k pid file text t =
    let opening = Call.open_file (proc_path pid file) OpenMode.o_wronly in
    let fd = (k (length t) opening).ret in (k (suc (length t)) (Call.write fd text)).ret

-- One line: id 0 of the container is id 10000 of the host, and no other id is mapped.
abbrev pub one_id : Bytes
one_id = codes "0 10000 1" ++ (10 ∷ [])

-- The traces behind the three files.
abbrev pub denied_at : Kernel → ℤ → ℤ → Trace → Trace
denied_at k pid fd t = wrote k pid (codes "setgroups") (codes "deny") (Call.read fd 4 ∷ t)

abbrev pub users_at : Kernel → ℤ → ℤ → Trace → Trace
users_at k pid fd t = wrote k pid (codes "uid_map") one_id (denied_at k pid fd t)

abbrev pub groups_at : Kernel → ℤ → ℤ → Trace → Trace
groups_at k pid fd t = wrote k pid (codes "gid_map") one_id (users_at k pid fd t)

-- What the kernel replied to them, and to the two messages.
pub record Replied (k : Kernel) (pid fd : ℤ) (t : Trace) : Type 0 where
  pub asked :
      ((k (length t) (Call.read fd 4)).ret ≡ pos 4)
      × (get_u32 (k (length t) (Call.read fd 4)).out 0 ≡ 0)
  pub denied : wrote_reply k pid (codes "setgroups") (codes "deny") (Call.read fd 4 ∷ t) ≡ pos 4
  pub users :
      (wrote_reply k pid (codes "uid_map") one_id (denied_at k pid fd t) ==ℤ minus_one) ≡ false
  pub groups :
      (wrote_reply k pid (codes "gid_map") one_id (users_at k pid fd t) ==ℤ minus_one) ≡ false
  pub told : (k (length (groups_at k pid fd t)) (Call.write fd (int_bytes (pos 0)))).ret ≡ pos 4
