-- ===== src/Governance/Redact.antt =====
-- backend/app/core/redact.py, and `sanitize_audit_payload` of backend/app/governance/dlp.py: what is
-- taken out of a payload before it is stored. `re_sub` is `re.sub(pattern, replacement, text)`.
mod Masks
pub mod Masked
mod Tests
use azienda.Base.{String, str_append, Bool, true, false, ◌||◌, List, [], ◌∷◌, str_eq, if◌then◌else◌}
use azienda.Contracts.{
  Value, null, flag, num, real, text, items, dict, Items, nil, cons, Fields, end, field,
}

-- `_PATTERNS`: a kind, and the pattern of its secrets
abbrev pub patterns : List (String × String)
patterns =
    ("azienda_api_key", "azk_[A-Za-z0-9]{16,}")
    ∷ ("bearer_token", "[Bb]earer\\s+[A-Za-z0-9\\-._~+/=]{16,}")
    ∷ ("aws_access_key", "AKIA[0-9A-Z]{16}")
    ∷ ("aws_secret", "(?i)aws[_-]?secret[_-]?access[_-]?key[\"'\\s:=]+[A-Za-z0-9/+=]{32,}")
    ∷ (
      "generic_api_key",
      "(?i)(api[_-]?key|apikey|client[_-]?secret|auth[_-]?token)[\"'\\s:=]+[A-Za-z0-9\\-._~+/=]{16,}",
    )
    ∷ (
      "private_key", "-----BEGIN [A-Z ]*PRIVATE KEY-----[\\s\\S]*?-----END [A-Z ]*PRIVATE KEY-----",
    )
    ∷ ("jwt", "eyJ[A-Za-z0-9_-]{8,}\\.[A-Za-z0-9_-]{8,}\\.[A-Za-z0-9_-]{8,}")
    ∷ ("credit_card", "\\b(?:\\d[ -]?){13,19}\\b")
    ∷ ("ssn", "\\b\\d{3}-\\d{2}-\\d{4}\\b")
    ∷ []

-- `_SENSITIVE_KEYS`
abbrev pub sensitive_keys : List String
sensitive_keys =
    "password" ∷ "password_hash" ∷ "secret" ∷ "client_secret" ∷ "api_key" ∷ "apikey"
    ∷ "access_token" ∷ "refresh_token" ∷ "id_token" ∷ "private_key" ∷ "seed_phrase"
    ∷ "authorization" ∷ "cookie" ∷ "set-cookie" ∷ "token" ∷ "key_hash" ∷ []

abbrev pub member : String → List String → Bool
member k [] = false
member k (x ∷ xs) = str_eq x k || member k xs

-- `value not in (None, "")`
abbrev pub is_blank : Value → Bool
is_blank null = true
is_blank (text s) = str_eq s ""
is_blank _ = false

pub is_sensitive : (lower : String → String) → String → Bool
is_sensitive lower key = member (lower key) sensitive_keys

module _ (re_sub : (pattern replacement : String) → String → String) (lower : String → String) where
  -- `"<REDACTED:{kind}>"`
  abbrev mask : String → String
  mask kind = str_append "<REDACTED:" (str_append kind ">")

  abbrev sub_all : List (String × String) → String → String
  sub_all [] s = s
  sub_all (p ∷ ps) s = sub_all ps (re_sub p.1 (mask p.0) s)

  -- `redact_text`
  pub redact_text : String → String
  redact_text s = if str_eq s "" then s else sub_all patterns s

  abbrev pub redact_plain : Value → Value
  redact_plain (text s) = text (redact_text s)
  redact_plain v = v

  -- `redact_value`
  abbrev pub redact_value : String → Value → Value
  redact_value key v =
      if is_sensitive lower key then if is_blank v then v else text "<REDACTED>" else redact_plain v

  -- `redact_mapping`, with its tests on a value and on a member of a list
  mutual
    pub redact_mapping : Fields → Fields
    redact_mapping end = end
    redact_mapping (field k v rest) = field k (redact_entry k v) (redact_mapping rest)

    pub redact_entry : String → Value → Value
    redact_entry k (dict d) = dict (redact_mapping d)
    redact_entry k (items vs) = items (redact_items k vs)
    redact_entry k v = redact_value k v

    pub redact_items : String → Items → Items
    redact_items k nil = nil
    redact_items k (cons v vs) = cons (redact_member k v) (redact_items k vs)

    pub redact_member : String → Value → Value
    redact_member k (dict d) = dict (redact_mapping d)
    redact_member k v = redact_value k v
