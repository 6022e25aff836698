-- ===== src/Governance/Audit/Tests.antt =====
-- A small ledger, and the theorems at it, with a hash that can be read back.
use Prim.Native.Char.{Char, char}
use Prim.Native.String.compare
use text.Mathlib.Text.{is_eq}
use azienda.Base.{
  ℕ, zero, suc, ◌≡◌, refl, ap, String, true, false, some, none, List, [], ◌∷◌, str_eq, ◌⊎◌,
}
use azienda.Contracts.{end, TenantContext}
use azienda.Governance.Audit.{Hashing, AuditEntry, join, chain_hash, verify_chain, verify_rows}
use azienda.Governance.Audit.Chain.{Write, ledger, appended_verifies}
use azienda.Governance.Audit.Tamper.{has_nul, Same, Collide, tamper_evident, border_unseen}

abbrev mark : Char
mark = char 120 tt

abbrev tally : ℕ → String
tally zero = ""
tally (suc n) = String.◌∷◌ mark (tally n)

abbrev marked : Hashing
marked = record { sha256 = String.◌∷◌ mark; canonical_json = λ d. "{}"; str = tally }

not_empty : (s : String) → str_eq (String.◌∷◌ mark s) "" ≡ false
not_empty s = ap is_eq (compare.cons-nil mark s)

plain_tally : (n : ℕ) → has_nul (tally n) ≡ false
plain_tally zero = refl
plain_tally (suc n) = plain_tally n

abbrev keep : String → String → String → String
keep p r s = s

abbrev alice : TenantContext
alice = record { tenant_id = 7; user_id = some 41; agent_id = none; roles = [] }

abbrev bob : TenantContext
bob = record { tenant_id = 8; user_id = some 42; agent_id = none; roles = [] }

abbrev write : TenantContext → String → Write
write tenant action = record {
  now = 5;
  tenant = tenant;
  actor = "ann";
  action = action;
  payload = end;
}

abbrev writes : List Write
writes = write alice "pay" ∷ write bob "read" ∷ write alice "plan" ∷ []

appended_verifies_example :
    verify_chain marked alice 2 (ledger keep (λ s. s) marked not_empty writes) ≡ true
appended_verifies_example = appended_verifies keep (λ s. s) marked not_empty writes alice 2

abbrev first : AuditEntry
first = record {
  tenant_id = 7;
  seq = 1;
  actor = "ann";
  action = "plan";
  payload = end;
  prev_hash = "GENESIS";
  hash = "xGENESIS\0x\0ann\0plan\0{}";
  occurred_at = 5;
}

abbrev forged : AuditEntry
forged = record first { occurred_at = 9 }

forged_action : verify_chain marked alice 0 (record first { action = "pay" } ∷ []) ≡ false
unfolding verify_chain verify_rows chain_hash
forged_action = refl

first_verifies : verify_chain marked alice 0 (first ∷ []) ≡ true
unfolding verify_chain verify_rows chain_hash
first_verifies = refl

forged_verifies : verify_chain marked alice 0 (forged ∷ []) ≡ true
unfolding verify_chain verify_rows chain_hash
forged_verifies = refl

-- the time is outside of what the hash covers
tamper_evident_example :
    Same marked (first ∷ []) (forged ∷ []) ⊎ Collide marked (first ∷ []) (forged ∷ [])
tamper_evident_example =
    tamper_evident marked plain_tally alice (first ∷ []) (forged ∷ []) first_verifies
      forged_verifies refl refl (record { prev_hash = refl; actor = refl; action = refl }, tt)
      (record { prev_hash = refl; actor = refl; action = refl }, tt)

border_unseen_example :
    chain_hash marked "p" 1 (join "a" "b") "c" end ≡ chain_hash marked "p" 1 "a" (join "b" "c") end
border_unseen_example = border_unseen marked "p" 1 "a" "b" "c" end
