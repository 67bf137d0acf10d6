-- ===== src/Barco/NameLaws.antt =====
-- The interface names that `main` makes up.
use docker.Base.{
  ℕ, zero, suc, ◌≤◌, ◌<◌, ◌≡◌, refl, ap, Bytes, [], ◌∷◌, ◌++◌, length, take, before, codes, has,
  length-append, take-append, append_assoc, arith, false,
}
use docker.Barco.Names.{peer_name, tmp_name, suffix_buffer, unwritten}

take-take : (m n : ℕ) (s : Bytes) → m ≤ n → take m (take n s) ≡ take m s
take-take zero n s h = refl
take-take (suc m) zero s h = absurd (omega arith)
take-take (suc m) (suc n) [] h = refl
take-take (suc m) (suc n) (c ∷ s) h = ap (λ r. c ∷ r) (take-take m n s (omega arith))

-- What stands behind the cut does not matter.
take-take-append :
    (m n : ℕ) (s x y : Bytes)
    → m ≤ n
    → m ≤ length s
    → take m (take n (s ++ x)) ≡ take m (take n (s ++ y))
take-take-append m n s x y h k =
    rw
      (take-take m n (s ++ x) h, take-take m n (s ++ y) h, take-append m s x k, take-append m s y k)

-- Eight characters with no NUL among them come out whole, whatever stands behind.
before-append : (c : ℕ) (s t : Bytes) → has c s ≡ false → before c (s ++ t) ≡ s ++ before c t
before-append c [] t h = refl
before-append c (x ∷ s) t h = ground (arith, before-append c s t)

-- If the suffix has eight characters that are not NUL, the made-up names do not depend on the bytes
-- behind them that were never written: not the temporary name, and not the peer's, if the interface
-- has a name at all.
pub names_ignore_garbage :
    (veth_name chars garbage garbage' : Bytes)
    → length chars ≡ 8
    → has 0 chars ≡ false
    → 0 < length veth_name
    → (tmp_name (suffix_buffer chars garbage) ≡ tmp_name (suffix_buffer chars garbage'))
      × (peer_name veth_name (suffix_buffer chars garbage)
          ≡ peer_name veth_name (suffix_buffer chars garbage'))
unfolding tmp_name peer_name
names_ignore_garbage veth_name chars garbage garbage' len plain named = (
  rw
      (
        before-append 0 chars (unwritten garbage) plain,
        before-append 0 chars (unwritten garbage') plain,
      )
      (ap (λ s. codes "veth-tmp-" ++ s)
        (take-take-append 6 54 chars _ _ (omega arith) (omega arith))),
  rw
      (
        before-append 0 chars (unwritten garbage) plain,
        before-append 0 chars (unwritten garbage') plain,
        ← append_assoc veth_name (45 ∷ chars) (before 0 (unwritten garbage)),
        ← append_assoc veth_name (45 ∷ chars) (before 0 (unwritten garbage')),
      )
      (ap (λ s. codes "veth-" ++ s)
        (take-take-append 10 58 (veth_name ++ (45 ∷ chars)) _ _ (omega arith)
          (omega (arith, length-append veth_name (45 ∷ chars))))),
)

-- For an interface that is to be called "tmp" in the container the made-up name of the peer is the
-- temporary name.
pub names_clash : (suffix : Bytes) → peer_name (codes "tmp") suffix ≡ tmp_name suffix
unfolding peer_name tmp_name
names_clash suffix = refl
