-- ===== src/Tests/TextRuns.antt =====
-- The theorems about names, rules and lines of text in src/barco.c at concrete inputs.
use docker.Base.{◌≡◌, refl, codes}
use docker.Barco.Nat.{setup_subnet, cleanup_subnet}

subnet_given : setup_subnet (codes "10.0.0.2/16") ≡ codes "10.0.0.2/16"
unfolding setup_subnet
subnet_given = refl

subnet_made : cleanup_subnet (codes "10.0.0.2") ≡ codes "10.0.0.2/24"
unfolding cleanup_subnet
subnet_made = refl
