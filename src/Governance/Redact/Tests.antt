-- ===== src/Governance/Redact/Tests.antt =====
-- A payload with a secret in a nested list, and the theorem at it.
use azienda.Base.{String, true, false, ◌≡◌, refl}
use azienda.Contracts.{text, items, dict, nil, cons, Fields, end, field, flag}
use azienda.Governance.Redact.{is_sensitive, redact_mapping, redact_text}
use azienda.Governance.Redact.Masks.{masks, is_masked}
use azienda.Governance.Redact.Masked.{At, in_member, further, value, first, redact_masks}

abbrev login : Fields
login = field "user" (text "ann") (field "token" (text "t-1") end)

abbrev payload : Fields
payload =
    field "tries" (items (cons (dict login) (cons (flag true) nil)))
      (field "password" (text "") end)

abbrev keep : String → String → String → String
keep p r s = s

before : masks (λ s. s) payload ≡ false
unfolding is_sensitive
before = refl

abbrev masked_login : Fields
masked_login = field "user" (text "ann") (field "token" (text "<REDACTED>") end)

token_reached : At (redact_mapping keep (λ s. s) payload) "token" (text "<REDACTED>")
unfolding redact_mapping is_sensitive redact_text
token_reached =
    in_member "tries" "token" (text "<REDACTED>") masked_login
      (cons (dict masked_login) (cons (flag true) nil)) (field "password" (text "") end)
      (first (cons (flag true) nil))
      (further "user" "token" (text "<REDACTED>") (text "ann") _
        (value "token" (text "<REDACTED>") end refl refl))

token_sensitive : is_sensitive (λ s. s) "token" ≡ true
unfolding is_sensitive
token_sensitive = refl

redact_masks_example : is_masked (text "<REDACTED>") ≡ true
redact_masks_example =
    redact_masks keep (λ s. s) payload "token" (text "<REDACTED>") token_reached token_sensitive
