-- ===== src/User/Laws.antt =====
-- The handshake of src/user.c, from each end and from both.
use docker.Base.{
  ℕ, suc, ◌≡◌, refl, ℤ, pos, minus_one, is_neg, not, ◌==ℤ◌, ◌==◌, Bool, true, ◌∷◌, length, Bytes,
  codes, arith, Bool-cases, inl, inr, ◌⊎◌, get_u32, int_bytes,
}
use docker.Sys.{Kernel, Trace, Call, OpenMode, steps}
use docker.User.{
  write_proc, write_maps, map_ids, id_map, proc_path, user_namespace_prepare_mappings,
  user_namespace_init,
}

-- The trace once a file under /proc/<pid> was opened, written and closed.
abbrev pub wrote : Kernel → ℤ → Bytes → Bytes → Trace → Trace
wrote k pid file text t =
    let opening = Call.open_file (proc_path pid file) OpenMode.o_wronly in
    let fd = (k (length t) opening).ret in Call.close fd ∷ Call.write fd text ∷ opening ∷ t

write_proc_done :
    (pid : ℤ) (file text : Bytes) (failed written : ℤ → Bool) (k : Kernel) (t : Trace)
    → (write_proc pid file text failed written k t).0 ≡ true
    → (write_proc pid file text failed written k t).1 ≡ wrote k pid file text t
unfolding write_proc steps
write_proc_done pid file text failed written k t h = ground arith

map_ids_done :
    (pid : ℤ) (k : Kernel) (t : Trace)
    → (map_ids pid k t).0 ≡ true
    → (map_ids pid k t).1
      ≡ wrote k pid
          (codes "gid_map")
          id_map
          (wrote k pid (codes "uid_map") id_map (wrote k pid (codes "setgroups") (codes "deny") t))
unfolding map_ids write_maps steps
map_ids_done pid k t h =
    let denied = write_proc pid (codes "setgroups") (codes "deny") is_neg (λ n. n ==ℤ pos 4) k t in
    let users =
      write_proc pid (codes "uid_map") id_map (λ fd. fd ==ℤ minus_one) (λ n. not (n ==ℤ minus_one))
        k denied.1 in
    ground (
      arith,
      write_proc_done pid (codes "setgroups") (codes "deny") is_neg (λ n. n ==ℤ pos 4) k t,
      write_proc_done pid (codes "uid_map") id_map (λ fd. fd ==ℤ minus_one)
          (λ n. not (n ==ℤ minus_one)) k denied.1,
      write_proc_done pid (codes "gid_map") id_map (λ fd. fd ==ℤ minus_one)
          (λ n. not (n ==ℤ minus_one)) k users.1,
    )

-- When the parent reports success, its calls were these: it read the child's message, wrote
-- `setgroups`, the user map and then the group map of that process, closing each file, and sent 0
-- to the child.
pub user_namespace_prepare_mappings_done :
    (pid fd : ℤ) (k : Kernel) (t : Trace)
    → (user_namespace_prepare_mappings pid fd k t).0 ≡ pos 0
    → (user_namespace_prepare_mappings pid fd k t).1
      ≡ Call.write fd (int_bytes (pos 0))
        ∷ wrote k pid (codes "gid_map") id_map (
            wrote k pid
              (codes "uid_map")
              id_map
              (wrote k pid (codes "setgroups") (codes "deny") (Call.read fd 4 ∷ t)))
unfolding user_namespace_prepare_mappings steps
user_namespace_prepare_mappings_done pid fd k t h =
    ground (arith, map_ids_done pid k (Call.read fd 4 ∷ t))

-- The last call of the run sends the child an answer, and it is 0 only if the maps are written.
abbrev pub Answers : ℤ → ℤ → Kernel → Trace → Trace → Type 0
Answers pid fd k t t' =
    (x : ℤ) × (rest : Trace) × (t' ≡ Call.write fd (int_bytes x) ∷ rest)
    × (((x ≡ pos 0) × ((map_ids pid k (Call.read fd 4 ∷ t)).0 ≡ true)) ⊎ (x ≡ minus_one))

-- Once the child's message has arrived in full, the parent's last call sends an answer: 0, and then
-- all three files were written, or -1.
pub user_namespace_prepare_mappings-Answers :
    (pid fd : ℤ) (k : Kernel) (t : Trace)
    → (k (length t) (Call.read fd 4)).ret ≡ pos 4
    → Answers pid fd k t (user_namespace_prepare_mappings pid fd k t).1
unfolding user_namespace_prepare_mappings steps
user_namespace_prepare_mappings-Answers pid fd k t h =
    elim (Bool-cases (get_u32 (k (length t) (Call.read fd 4)).out 0 == 0)) [
      | inr failed ↦ (minus_one, Call.read fd 4 ∷ t, ground arith, inr refl)
      | inl unshared ↦ elim (Bool-cases (map_ids pid k (Call.read fd 4 ∷ t)).0) [
        | inl mapped ↦
            (pos 0, (map_ids pid k (Call.read fd 4 ∷ t)).1, ground arith, inl (refl, mapped))
        | inr unmapped ↦ (minus_one, (map_ids pid k (Call.read fd 4 ∷ t)).1, ground arith, inr refl)
      ]
    ]

child_reads_zero :
    (uid : ℕ) (fd : ℤ) (k : Kernel) (t : Trace)
    → (user_namespace_init uid fd k t).0 ≡ pos 0
    → get_u32 (k (suc (suc (length t))) (Call.read fd 4)).out 0 ≡ 0
unfolding user_namespace_init steps
child_reads_zero uid fd k t h = ground arith

minus_one_read : ¬ (get_u32 (int_bytes minus_one) 0 ≡ 0)
unfolding int_bytes
minus_one_read h = omega arith

-- If the child's message arrives in full and the answer that the child reads is the one that the
-- parent's last call sends, then a child that goes on has its maps written.
pub handshake_agrees :
    (pid fd fd' : ℤ) (uid : ℕ) (k k' : Kernel) (t u : Trace) (x : ℤ) (rest : Trace)
    → (k (length t) (Call.read fd 4)).ret ≡ pos 4
    → (user_namespace_prepare_mappings pid fd k t).1 ≡ Call.write fd (int_bytes x) ∷ rest
    → (k' (suc (suc (length u))) (Call.read fd' 4)).out ≡ int_bytes x
    → (user_namespace_init uid fd' k' u).0 ≡ pos 0
    → (map_ids pid k (Call.read fd 4 ∷ t)).0 ≡ true
handshake_agrees pid fd fd' uid k k' t u x rest arrived sent got done =
    let (x', rest', e, answer) = user_namespace_prepare_mappings-Answers pid fd k t arrived in
    let zero_read : get_u32 (int_bytes x) 0 ≡ 0 = rw got at (child_reads_zero uid fd' k' u done) in
    let same : int_bytes x ≡ int_bytes x' = cc (sent, e) in
    elim answer [
      | inl written ↦ written.1
      | inr refused ↦ absurd (minus_one_read (rw refused at (rw same at zero_read)))
    ]
