-- ===== src/Barco/Firewall.antt =====
-- What `setup_nat` and `cleanup_nat` of src/barco.c leave of the packet filter. iptables is not part of
-- the program: it is an interface, with what its manual says of -C, -A and -D.
pub mod Silent
pub mod Kept
pub mod Applied
pub mod Restored
use docker.Base.{
  ℕ, ◌-◌, ◌≤◌, ◌≡◌, ◌++◌, refl, ap, ◌∙◌, pos, Bool, true, false, ◌==◌, Bytes, [], ◌∷◌, codes,
  length, take_all, arith, if◌then◌else◌,
}
use docker.Sys.{Kernel, Trace, Call, steps}
use docker.Barco.Nat.{
  setup_nat, cleanup_nat, add_command, remove_command, masquerade_rule, source_rule, return_rule,
}
use docker.Barco.NatLaws.{commands_fit}

pub data NatRule : Type 0 where
  masquerade source returning : NatRule

abbrev pub same_rule : NatRule → NatRule → Bool
same_rule NatRule.masquerade NatRule.masquerade = true
same_rule NatRule.source NatRule.source = true
same_rule NatRule.returning NatRule.returning = true
same_rule _ _ = false

-- The texts for which the manual of iptables promises something: the chain and the match of each rule,
-- the line of the shell that checks for a rule and else appends it, and the line that deletes one. They
-- are written out here, apart from the functions of the program that print its commands.
module _ (subnet host_if : Bytes) where
  abbrev pub manual : NatRule → Bytes
  manual NatRule.masquerade =
      codes "POSTROUTING -s " ++ (subnet ++ (codes " -o " ++ (host_if ++ codes " -j MASQUERADE")))
  manual NatRule.source = codes "FORWARD -s " ++ (subnet ++ codes " -j ACCEPT")
  manual NatRule.returning =
      codes "FORWARD -d " ++ (subnet ++ codes " -m state --state RELATED,ESTABLISHED -j ACCEPT")

  abbrev pub adding : NatRule → Bytes
  adding NatRule.masquerade =
      codes "iptables -t nat -C "
      ++ (manual NatRule.masquerade
          ++ (codes " 2>/dev/null || iptables -t nat -A " ++ manual NatRule.masquerade))
  adding NatRule.source =
      codes "iptables -C "
      ++ (manual NatRule.source ++ (codes " 2>/dev/null || iptables -A " ++ manual NatRule.source))
  adding NatRule.returning =
      codes "iptables -C "
      ++ (manual NatRule.returning
          ++ (codes " 2>/dev/null || iptables -A " ++ manual NatRule.returning))

  abbrev pub removing : NatRule → Bytes
  removing NatRule.masquerade =
      codes "iptables -t nat -D " ++ (manual NatRule.masquerade ++ codes " 2>/dev/null")
  removing NatRule.source = codes "iptables -D " ++ (manual NatRule.source ++ codes " 2>/dev/null")
  removing NatRule.returning =
      codes "iptables -D " ++ (manual NatRule.returning ++ codes " 2>/dev/null")

  -- The program prints these texts.
  printed_adding :
      (add_command (codes " -t nat") (masquerade_rule subnet host_if) ≡ adding NatRule.masquerade)
      × (add_command [] (source_rule subnet) ≡ adding NatRule.source)
      × (add_command [] (return_rule subnet) ≡ adding NatRule.returning)
  unfolding add_command masquerade_rule source_rule return_rule
  printed_adding = (refl, refl, refl)

  printed_removing :
      (remove_command (codes " -t nat") (masquerade_rule subnet host_if)
        ≡ removing NatRule.masquerade)
      × (remove_command [] (source_rule subnet) ≡ removing NatRule.source)
      × (remove_command [] (return_rule subnet) ≡ removing NatRule.returning)
  unfolding remove_command masquerade_rule source_rule return_rule
  printed_removing = (refl, refl, refl)

-- The tables, what a command that succeeds makes of them, and how often each of the three rules is
-- listed. The command that checks and then appends adds a rule that is not listed and nothing else; a
-- deletion takes one away; no command touches another rule.
pub record Iptables (subnet host_if : Bytes) : Type 1 where
  pub State : Type 0
  pub run : Bytes → State → State
  pub listed : NatRule → State → ℕ
  pub added :
      (r : NatRule) (s : State)
      → listed r (run (adding subnet host_if r) s) ≡ (if listed r s == 0 then 1 else listed r s)
  pub removed :
      (r : NatRule) (s : State) → listed r (run (removing subnet host_if r) s) ≡ listed r s - 1
  pub added_other :
      (r q : NatRule) (s : State)
      → same_rule r q ≡ false
      → listed q (run (adding subnet host_if r) s) ≡ listed q s
  pub removed_other :
      (r q : NatRule) (s : State)
      → same_rule r q ≡ false
      → listed q (run (removing subnet host_if r) s) ≡ listed q s

module _ {subnet host_if : Bytes} (ipt : Iptables subnet host_if) where
  open ipt use {State, run, listed, added, removed, added_other, removed_other}

  -- The tables after the commands of a trace, which all succeeded.
  abbrev pub tables : State → Trace → State
  tables s [] = s
  tables s (Call.system command ∷ t) = run command (tables s t)
  tables s (_ ∷ t) = tables s t

  listed_added :
      (q : NatRule) (s : State)
      → listed q (
          run (adding subnet host_if NatRule.returning) (
            run
              (adding subnet host_if NatRule.source)
              (run (adding subnet host_if NatRule.masquerade) s)))
        ≡ (if listed q s == 0 then 1 else listed q s)
  listed_added NatRule.masquerade s =
      rw
        (
          added_other NatRule.returning NatRule.masquerade _ refl,
          added_other NatRule.source NatRule.masquerade _ refl,
        )
        (added NatRule.masquerade s)
  listed_added NatRule.source s =
      rw
        (
          added_other NatRule.returning NatRule.source _ refl,
          added NatRule.source,
          added_other NatRule.masquerade NatRule.source _ refl,
        )
        refl
  listed_added NatRule.returning s =
      rw
        (
          added NatRule.returning,
          added_other NatRule.source NatRule.returning _ refl,
          added_other NatRule.masquerade NatRule.returning _ refl,
        )
        refl

  listed_removed :
      (q : NatRule) (s : State)
      → listed q (
          run (removing subnet host_if NatRule.returning) (
            run
              (removing subnet host_if NatRule.source)
              (run (removing subnet host_if NatRule.masquerade) s)))
        ≡ listed q s - 1
  listed_removed NatRule.masquerade s =
      rw
        (
          removed_other NatRule.returning NatRule.masquerade _ refl,
          removed_other NatRule.source NatRule.masquerade _ refl,
        )
        (removed NatRule.masquerade s)
  listed_removed NatRule.source s =
      rw
        (
          removed_other NatRule.returning NatRule.source _ refl,
          removed NatRule.source,
          removed_other NatRule.masquerade NatRule.source _ refl,
        )
        refl
  listed_removed NatRule.returning s =
      rw
        (
          removed NatRule.returning,
          removed_other NatRule.source NatRule.returning _ refl,
          removed_other NatRule.masquerade NatRule.returning _ refl,
        )
        refl

module _ (subnet host_if : Bytes) (k : Kernel) (short : length subnet ≤ 31)
    (brief : length host_if ≤ 63) where
  -- The traces of the two functions: all six commands go out whole.
  setup_nat_calls :
      (t : Trace)
      → ((n : ℕ) (command : Bytes) → (k n (Call.system command)).ret ≡ pos 0)
      → setup_nat subnet host_if k t ≡ (
        pos 0,
        Call.system (adding subnet host_if NatRule.returning)
            ∷ Call.system (adding subnet host_if NatRule.source)
            ∷ Call.system (adding subnet host_if NatRule.masquerade)
            ∷ t,
      )
  unfolding setup_nat steps
  setup_nat_calls t ok =
      let fits = commands_fit subnet host_if short brief in
      rw
        (
          ok,
          take_all 511 (add_command (codes " -t nat") (masquerade_rule subnet host_if)) fits.0,
          take_all 511 (add_command [] (source_rule subnet)) fits.1,
          take_all 511 (add_command [] (return_rule subnet)) fits.2,
          (printed_adding subnet host_if).0,
          (printed_adding subnet host_if).1,
          (printed_adding subnet host_if).2,
        )
        refl

  cleanup_nat_calls :
      (t : Trace)
      → (cleanup_nat subnet host_if k t).1
        ≡ Call.system (removing subnet host_if NatRule.returning)
          ∷ Call.system (removing subnet host_if NatRule.source)
          ∷ Call.system (removing subnet host_if NatRule.masquerade)
          ∷ t
  unfolding cleanup_nat steps
  cleanup_nat_calls t =
      let fits = commands_fit subnet host_if short brief in
      rw
        (
          take_all 511 (remove_command (codes " -t nat") (masquerade_rule subnet host_if)) fits.3,
          take_all 511 (remove_command [] (source_rule subnet)) fits.4,
          take_all 511 (remove_command [] (return_rule subnet)) fits.5,
          (printed_removing subnet host_if).0,
          (printed_removing subnet host_if).1,
          (printed_removing subnet host_if).2,
        )
        refl

-- If all commands succeed, and the subnet and the interface fit their buffers, `setup_nat` returns 0
-- and leaves each of the three rules listed: once if it was not, and as often as before if it was.
pub setup_nat_lists :
    {subnet host_if : Bytes} (ipt : Iptables subnet host_if) (q : NatRule) (s : ipt.State)
    (k : Kernel) (t : Trace)
    → length subnet ≤ 31
    → length host_if ≤ 63
    → ((n : ℕ) (command : Bytes) → (k n (Call.system command)).ret ≡ pos 0)
    → let before = ipt.listed q (tables ipt s t) in
      ((setup_nat subnet host_if k t).0 ≡ pos 0)
      × (ipt.listed q (tables ipt s (setup_nat subnet host_if k t).1)
          ≡ (if before == 0 then 1 else before))
setup_nat_lists {subnet} {host_if} ipt q s k t short brief ok =
    rw (setup_nat_calls subnet host_if k short brief t ok)
      (refl, listed_added ipt q (tables ipt s t))

pub cleanup_nat_lists :
    {subnet host_if : Bytes} (ipt : Iptables subnet host_if) (q : NatRule) (s : ipt.State)
    (k : Kernel) (t : Trace)
    → length subnet ≤ 31
    → length host_if ≤ 63
    → ipt.listed q (tables ipt s (cleanup_nat subnet host_if k t).1)
      ≡ ipt.listed q (tables ipt s t) - 1
cleanup_nat_lists {subnet} {host_if} ipt q s k t short brief =
    rw (cleanup_nat_calls subnet host_if k short brief t) (listed_removed ipt q (tables ipt s t))

-- If all commands succeed, and the subnet and the interface fit their buffers, `cleanup_nat` after
-- `setup_nat` leaves each of the three rules listed once less than before both: a rule that was not
-- listed is not listed, and one that was listed once, by someone else, is gone.
pub cleanup_nat_takes :
    {subnet host_if : Bytes} (ipt : Iptables subnet host_if) (q : NatRule) (s : ipt.State)
    (k : Kernel) (t : Trace)
    → length subnet ≤ 31
    → length host_if ≤ 63
    → ((n : ℕ) (command : Bytes) → (k n (Call.system command)).ret ≡ pos 0)
    → let u = (cleanup_nat subnet host_if k (setup_nat subnet host_if k t).1).1 in
      ipt.listed q (tables ipt s u) ≡ ipt.listed q (tables ipt s t) - 1
cleanup_nat_takes {subnet} {host_if} ipt q s k t short brief ok =
    let (done, lists) = setup_nat_lists ipt q s k t short brief ok in
    cleanup_nat_lists ipt q s k (setup_nat subnet host_if k t).1 short brief
    ∙ ap (λ n. n - 1) lists
    ∙ once (ipt.listed q (tables ipt s t))
  where
    once : (n : ℕ) → (if n == 0 then 1 else n) - 1 ≡ n - 1
    once n = ground arith
