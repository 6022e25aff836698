-- ===== src/Governance/Audit.antt =====
-- backend/app/governance/audit/ledger.py: the append-only ledger whose entries are chained by
-- their hashes. `Hashing` is `hashlib.sha256(...).hexdigest()` of a text's UTF-8, `json.dumps` with
-- sorted keys, and `str` of an int. A call of `append` is one step: two that race for a number are
-- kept apart by the table's unique constraint, which is the database's.
pub mod Chain
pub mod Tamper
mod Tests
use Prim.Native.Char.{nul}
use Prim.Native.String
use azienda.Base.{
  ℕ, suc, ◌+◌, ◌-◌, String, Bool, true, false, ◌&&◌, Option, none, some, List, [], ◌∷◌, ◌++◌,
  str_eq, ltb, leb, str_append, ◌==◌, if◌then◌else◌, select, find, null, sort_asc, length, take,
  drop, sort_desc,
}
use azienda.Contracts.{TenantId, Time, Fields, TenantContext}
use azienda.Governance.Redact.{redact_mapping}

pub record Hashing : Type 0 where
  pub sha256 : String → String
  pub canonical_json : Fields → String
  pub str : ℕ → String

pub record AuditEntry : Type 0 where
  pub tenant_id : TenantId
  pub seq : ℕ
  pub actor : String
  pub action : String
  pub payload : Fields
  pub prev_hash : String
  pub hash : String
  pub occurred_at : Time

abbrev pub genesis_hash : String
genesis_hash = "GENESIS"

-- `prev \x00 seq \x00 actor \x00 action \x00 payload`
abbrev pub join : String → String → String
join s t = str_append s (String.◌∷◌ nul t)

module _ (h : Hashing) where
  -- `chain_hash`
  pub chain_hash : String → ℕ → String → String → Fields → String
  chain_hash prev_hash seq actor action payload =
      h.sha256
        (join prev_hash (join (h.str seq) (join actor (join action (h.canonical_json payload)))))

abbrev pub mine : TenantId → AuditEntry → Bool
mine t e = e.tenant_id == t

-- `select(func.max(AuditRow.seq))`, or 0
abbrev pub max_seq : List AuditEntry → ℕ
max_seq [] = 0
max_seq (e ∷ es) = let m = max_seq es in if ltb m e.seq then e.seq else m

abbrev pub hash_of : Option AuditEntry → Option String
hash_of none = none
hash_of (some e) = some e.hash

-- `select(AuditRow.hash).where(tenant, seq)`
abbrev pub hash_at : TenantId → ℕ → List AuditEntry → Option String
hash_at t seq rows = hash_of (find (λ e. mine t e && e.seq == seq) rows)

-- `last or GENESIS_HASH`
abbrev pub or_genesis : Option String → String
or_genesis none = genesis_hash
or_genesis (some s) = if str_eq s "" then genesis_hash else s

module _ (re_sub : String → String → String → String) (lower : String → String) (h : Hashing) where
  -- `append`, at a time
  pub append :
      Time
      → TenantContext
      → (actor action : String) → Fields
      → List AuditEntry
      → AuditEntry × List AuditEntry
  append now tenant actor action payload rows =
      let clean = redact_mapping re_sub lower payload in
      let last_seq = max_seq (select (mine tenant.tenant_id) rows) in
      let last = if ltb 0 last_seq then hash_at tenant.tenant_id last_seq rows else none in
      let prev_hash = or_genesis last in
      let row : AuditEntry = record {
        tenant_id = tenant.tenant_id;
        seq = last_seq + 1;
        actor = actor;
        action = action;
        payload = clean;
        prev_hash = prev_hash;
        hash = chain_hash h prev_hash (last_seq + 1) actor action clean;
        occurred_at = now;
      } in
      (row, rows ++ row ∷ [])

-- `expected_prev is not None and row.prev_hash != expected_prev`
abbrev pub breaks : Option String → AuditEntry → Bool
breaks none e = false
breaks (some s) e = if str_eq e.prev_hash s then false else true

-- the rows that a verification reads
abbrev pub rows_from : TenantId → ℕ → List AuditEntry → List AuditEntry
rows_from t from_seq rows =
    sort_asc (λ e. e.seq) (select (λ e. mine t e && leb from_seq e.seq) rows)

module _ (h : Hashing) where
  -- the loop of `verify_chain`
  pub verify_rows : Option String → List AuditEntry → Bool
  verify_rows expected_prev [] = true
  verify_rows expected_prev (e ∷ es) =
      if breaks expected_prev e
      then false
      else if str_eq (chain_hash h e.prev_hash e.seq e.actor e.action e.payload) e.hash
      then verify_rows (some e.hash) es
      else false

  -- `verify_chain`
  pub verify_chain : TenantContext → ℕ → List AuditEntry → Bool
  unfolding verify_rows
  verify_chain tenant from_seq rows =
      let es = rows_from tenant.tenant_id from_seq rows in
      let expected_prev =
        if leb from_seq 1
        then some genesis_hash
        else if null es
        then none
        else hash_at tenant.tenant_id (from_seq - 1) rows in
      verify_rows expected_prev es

-- `if action:` and `if actor:`, of an optional filter
abbrev pub wanted : Option String → String → Bool
wanted none s = true
wanted (some f) s = if str_eq f "" then true else str_eq s f

-- `list_entries`: a page of the newest first, and how many there are
pub list_entries :
    TenantContext
    → (limit offset : ℕ) → (action actor : Option String) → List AuditEntry
    → List AuditEntry × ℕ
list_entries tenant limit offset action actor rows =
    let q =
      select (λ e. mine tenant.tenant_id e && wanted action e.action && wanted actor e.actor)
        rows in
    (take limit (drop offset (sort_desc (λ e. e.seq) q)), length q)

-- `get_by_seq`
pub get_by_seq : TenantContext → ℕ → List AuditEntry → Option AuditEntry
get_by_seq tenant seq rows = find (λ e. mine tenant.tenant_id e && e.seq == seq) rows
