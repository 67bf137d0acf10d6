-- ===== src/Barco/NatLaws.antt =====
-- The address translation of `main`: the subnet, the commands, and the line that `fgets` reads.
use docker.Base.{
  ℕ, ◌≤◌, ◌≡◌, refl, ap, Bytes, [], ◌∷◌, ◌++◌, length, before, behind, has, codes, some, none,
  length-append, arith, Bool, false, true, ◌&&◌, if◌then◌else◌, Option, Bool-cases, inl, inr,
}
use docker.Barco.Nat.{
  setup_subnet, cleanup_subnet, trim, is_newline, is_empty, add_command, remove_command,
  masquerade_rule, source_rule, return_rule,
}

split_at :
    (c : ℕ) (s : Bytes) (rest : Bytes)
    → behind c s ≡ some rest
    → (has c s ≡ true) × (before c s ++ (c ∷ rest) ≡ s)
split_at c [] rest h = cc
split_at c (x ∷ s) rest h = ground (arith, split_at c s rest)

no_split : (c : ℕ) (s : Bytes) → behind c s ≡ none → has c s ≡ false
no_split c [] h = refl
no_split c (x ∷ s) h = ground (arith, no_split c s)

-- `main` computes the subnet twice, in two ways; they agree for every address.
pub setup_subnet-eq-cleanup_subnet :
    (container_ip : Bytes) → setup_subnet container_ip ≡ cleanup_subnet container_ip
unfolding setup_subnet cleanup_subnet
setup_subnet-eq-cleanup_subnet ip = go (behind b'/' ip) refl
  where
    go : (o : Option Bytes) → behind b'/' ip ≡ o → setup_subnet ip ≡ cleanup_subnet ip
    go none e = rw (e, setup_subnet) (rw (no_split b'/' ip e))
    go (some rest) e =
        rw (e, setup_subnet) (rw ((split_at b'/' ip rest e).0, (split_at b'/' ip rest e).1))

-- A subnet from a buffer of 32 bytes and an interface from one of 64 leave all six commands whole in
-- the 512 bytes of `cmd`: no rule is cut short.
pub commands_fit :
    (subnet host_if : Bytes)
    → length subnet ≤ 31
    → length host_if ≤ 63
    → (length (add_command (codes " -t nat") (masquerade_rule subnet host_if)) ≤ 511)
      × (length (add_command [] (source_rule subnet)) ≤ 511)
      × (length (add_command [] (return_rule subnet)) ≤ 511)
      × (length (remove_command (codes " -t nat") (masquerade_rule subnet host_if)) ≤ 511)
      × (length (remove_command [] (source_rule subnet)) ≤ 511)
      × (length (remove_command [] (return_rule subnet)) ≤ 511)
unfolding add_command remove_command masquerade_rule source_rule return_rule
commands_fit subnet host_if h k = (
  simp length-append (omega arith),
  simp length-append (omega arith),
  simp length-append (omega arith),
  simp length-append (omega arith),
  simp length-append (omega arith),
  simp length-append (omega arith),
)

-- The last byte of a text is a newline or a carriage return.
abbrev pub ends_in_newline : Bytes → Bool
ends_in_newline [] = false
ends_in_newline (c ∷ []) = is_newline c
ends_in_newline (c ∷ d ∷ s) = ends_in_newline (d ∷ s)

abbrev pub all_newlines : Bytes → Bool
all_newlines [] = true
all_newlines (c ∷ s) = is_newline c && all_newlines s

trim_step :
    (c : ℕ) (r cut s : Bytes)
    → ends_in_newline r ≡ false
    → r ++ cut ≡ s
    → all_newlines cut ≡ true
    → let r' = if is_empty r && is_newline c then [] else c ∷ r in
      (ends_in_newline r' ≡ false)
      × ((cut' : Bytes) × (r' ++ cut' ≡ c ∷ s) × (all_newlines cut' ≡ true))
trim_step c [] cut s h e a = elim (Bool-cases (is_newline c)) [
  | inl newline ↦ rw newline (refl, (c ∷ cut, ap (λ r. c ∷ r) e, rw newline a))
  | inr other ↦ rw other (other, (cut, ap (λ r. c ∷ r) e, a))
]
trim_step c (d ∷ r) cut s h e a = (h, (cut, ap (λ r. c ∷ r) e, a))

-- What the loop behind `fgets` leaves of a line does not end in a newline or a carriage return, and
-- what it cut off consists of them.
pub trim_lem :
    (s : Bytes)
    → (ends_in_newline (trim s) ≡ false)
      × ((cut : Bytes) × (trim s ++ cut ≡ s) × (all_newlines cut ≡ true))
unfolding trim
trim_lem [] = (refl, ([], refl, refl))
trim_lem (c ∷ s) = let (h, (cut, e, a)) = trim_lem s in trim_step c (trim s) cut s h e a
