-- ===== src/Tests/FirewallRuns.antt =====
-- A packet filter that reads the commands of src/barco.c, and the theorems about it.
use docker.Base.{
  ℕ, ◌-◌, ◌≡◌, refl, pos, false, ◌==◌, Bytes, [], codes, eq_bytes, arith, if◌then◌else◌,
}
use docker.Barco.Nat.{setup_nat, cleanup_nat}
use docker.Barco.Firewall.{
  NatRule, same_rule, adding, removing, Iptables, tables, setup_nat_lists, cleanup_nat_takes,
}
use docker.Sys.{Trace, steps}
use docker.Barco.Main.{main}
use docker.Barco.Nat.{setup_subnet, detect_host_interface, trim}
use docker.Barco.Firewall.Applied.{chosen}
use docker.Barco.Firewall.Restored.{main_restores_tables}
use docker.Tests.Kernels.{crowded, generous}
use docker.Tests.MainRuns.{networked, fails_crowded}

abbrev subnet : Bytes
subnet = codes "10.0.0.2/24"

abbrev host_if : Bytes
host_if = codes "eth0"

-- A table is how often each rule is listed; a command is told by its text.
abbrev apply : Bytes → (NatRule → ℕ) → NatRule → ℕ
apply command s q =
    if eq_bytes command (adding subnet host_if q)
    then (if s q == 0 then 1 else s q)
    else if eq_bytes command (removing subnet host_if q)
    then s q - 1
    else s q

apply_added :
    (r : NatRule) (s : NatRule → ℕ)
    → apply (adding subnet host_if r) s r ≡ (if s r == 0 then 1 else s r)
apply_added NatRule.masquerade s = refl
apply_added NatRule.source s = refl
apply_added NatRule.returning s = refl

apply_removed : (r : NatRule) (s : NatRule → ℕ) → apply (removing subnet host_if r) s r ≡ s r - 1
apply_removed NatRule.masquerade s = refl
apply_removed NatRule.source s = refl
apply_removed NatRule.returning s = refl

apply_added_other :
    (r q : NatRule) (s : NatRule → ℕ)
    → same_rule r q ≡ false
    → apply (adding subnet host_if r) s q ≡ s q
apply_added_other NatRule.masquerade NatRule.source s h = refl
apply_added_other NatRule.masquerade NatRule.returning s h = refl
apply_added_other NatRule.source NatRule.masquerade s h = refl
apply_added_other NatRule.source NatRule.returning s h = refl
apply_added_other NatRule.returning NatRule.masquerade s h = refl
apply_added_other NatRule.returning NatRule.source s h = refl
apply_added_other NatRule.masquerade NatRule.masquerade s h = absurd (cc)
apply_added_other NatRule.source NatRule.source s h = absurd (cc)
apply_added_other NatRule.returning NatRule.returning s h = absurd (cc)

apply_removed_other :
    (r q : NatRule) (s : NatRule → ℕ)
    → same_rule r q ≡ false
    → apply (removing subnet host_if r) s q ≡ s q
apply_removed_other NatRule.masquerade NatRule.source s h = refl
apply_removed_other NatRule.masquerade NatRule.returning s h = refl
apply_removed_other NatRule.source NatRule.masquerade s h = refl
apply_removed_other NatRule.source NatRule.returning s h = refl
apply_removed_other NatRule.returning NatRule.masquerade s h = refl
apply_removed_other NatRule.returning NatRule.source s h = refl
apply_removed_other NatRule.masquerade NatRule.masquerade s h = absurd (cc)
apply_removed_other NatRule.source NatRule.source s h = absurd (cc)
apply_removed_other NatRule.returning NatRule.returning s h = absurd (cc)

abbrev counting : Iptables subnet host_if
counting = record {
  State = NatRule → ℕ;
  run = apply;
  listed = λ q s. s q;
  added = apply_added;
  removed = apply_removed;
  added_other = apply_added_other;
  removed_other = apply_removed_other;
}

-- Another container of the same subnet has its rule already.
abbrev shared : NatRule → ℕ
shared q = 1

setup_nat_lists_example :
    ((setup_nat subnet host_if generous []).0 ≡ pos 0)
    × (tables counting (λ q. 0) (setup_nat subnet host_if generous []).1 NatRule.source ≡ 1)
setup_nat_lists_example =
    setup_nat_lists counting NatRule.source (λ q. 0) generous [] (omega arith) (omega arith)
      (λ n command. refl)

cleanup_nat_takes_example :
    tables counting shared
      (cleanup_nat subnet host_if generous (setup_nat subnet host_if generous []).1).1
      NatRule.source
    ≡ 0
cleanup_nat_takes_example =
    cleanup_nat_takes counting NatRule.source shared generous [] (omega arith) (omega arith)
      (λ n command. refl)

finds_interface : (u : Trace) → chosen (detect_host_interface crowded u).0 ≡ host_if
unfolding detect_host_interface trim steps
finds_interface u = refl

-- The rules are added, no process can be created, and the rules are taken out again.
main_restores_tables_example :
    tables counting (λ q. 0) (main 1 networked crowded []).1 NatRule.masquerade ≡ 0
unfolding setup_subnet
main_restores_tables_example =
    main_restores_tables 1 networked host_if counting NatRule.masquerade (λ q. 0) (pos 1) crowded []
      (λ n command. refl) finds_interface refl fails_crowded
