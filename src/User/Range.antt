-- ===== src/User/Range.antt =====
-- Which ids the child of src/user.c can switch to: those that the map of the parent's end gives it.
use docker.Base.{
  ℕ, ◌+◌, ◌≡◌, ℤ, pos, int_bytes, [], ◌∷◌, is_neg, nonzero, Bool, true, false, ◌&&◌, length, leb,
  ltb, arith, Bool-cases, inl, inr,
}
use docker.Sys.{Kernel, Trace, Call, CloneFlag, steps}
use docker.User.{
  user_namespace_init, switch_ids, user_namespace_uid_child_range_start,
  user_namespace_uid_child_range_size,
}

abbrev pub is_mapped : ℕ → Bool
is_mapped uid =
    leb user_namespace_uid_child_range_start uid
    && ltb uid (user_namespace_uid_child_range_start + user_namespace_uid_child_range_size)

-- setresgid(2): an id that has no mapping in the user namespace is refused.
abbrev pub RefusesUnmapped : Kernel → Type 0
RefusesUnmapped k =
    (n gid : ℕ) → is_mapped gid ≡ false → nonzero (k n (Call.setresgid gid)).ret ≡ true

switch_ids-mapped :
    (uid : ℕ) (k : Kernel) (t : Trace)
    → RefusesUnmapped k
    → is_neg (switch_ids uid k t).0 ≡ false
    → is_mapped uid ≡ true
unfolding switch_ids steps
switch_ids-mapped uid k t refuses h = elim (Bool-cases (is_mapped uid)) [
  | inl mapped ↦ mapped
  | inr unmapped ↦ ground (arith, refuses (length t) uid unmapped)
]

-- Where the kernel refuses ids without a mapping, `user_namespace_init` succeeds only for an id of
-- the mapped range.
pub user_namespace_init-mapped :
    (uid : ℕ) (fd : ℤ) (k : Kernel) (t : Trace)
    → RefusesUnmapped k
    → is_neg (user_namespace_init uid fd k t).0 ≡ false
    → is_mapped uid ≡ true
unfolding user_namespace_init steps
user_namespace_init-mapped uid fd k t refuses h = ground (
  arith,
  switch_ids-mapped uid k
      (Call.read fd 4
        ∷ Call.write fd (int_bytes (pos 0))
        ∷ Call.unshare (CloneFlag.newuser ∷ [])
        ∷ t)
      refuses,
)
