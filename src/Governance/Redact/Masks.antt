-- ===== src/Governance/Redact/Masks.antt =====
-- What `redact_mapping` leaves under a sensitive key, in the mappings that it visits. It visits a
-- mapping that is the value of a key or a member of a list that is; it does not visit what stands
-- in a list in a list, and masks no mapping as a whole.
use azienda.Base.{
  String, Bool, true, false, ◌≡◌, refl, str_eq, Bool-cases, inl, inr, arith, ◌&&◌, ◌||◌, not,
}
use azienda.Contracts.{
  Value, null, flag, num, real, text, items, dict, Items, nil, cons, Fields, end, field,
}
use azienda.Governance.Redact.{
  is_sensitive, is_blank, redact_plain, redact_value, redact_mapping, redact_entry, redact_items,
  redact_member,
}

-- `None`, the empty text or the mark
abbrev pub is_masked : Value → Bool
is_masked (text s) = str_eq s "" || str_eq s "<REDACTED>"
is_masked v = is_blank v

module _ (lower : String → String) where
  -- In no mapping that is visited a sensitive key has a value, or a member of its list, that is
  -- neither masked nor a mapping. A list in a list counts as one value.
  abbrev mutual
    pub masks : Fields → Bool
    masks end = true
    masks (field k v rest) = masks_value k v && masks rest

    pub masks_value : String → Value → Bool
    masks_value k (dict d) = masks d
    masks_value k (items vs) = masks_items k vs
    masks_value k v = not (is_sensitive lower k) || is_masked v

    pub masks_items : String → Items → Bool
    masks_items k nil = true
    masks_items k (cons v vs) = masks_member k v && masks_items k vs

    pub masks_member : String → Value → Bool
    masks_member k (dict d) = masks d
    masks_member k v = not (is_sensitive lower k) || is_masked v

module _ (re_sub : String → String → String → String) (lower : String → String) where
  abbrev is_nested : Value → Bool
  is_nested (items vs) = true
  is_nested (dict d) = true
  is_nested _ = false

  abbrev is_dict : Value → Bool
  is_dict (dict d) = true
  is_dict _ = false

  open_masks :
      (k : String) (v : Value)
      → is_nested v ≡ false
      → is_sensitive lower k ≡ false
      → masks_value lower k (redact_plain re_sub lower v) ≡ true
  open_masks k (items vs) h e = cc
  open_masks k (dict d) h e = cc
  open_masks k null h e = rw e refl
  open_masks k (flag b) h e = rw e refl
  open_masks k (num n) h e = rw e refl
  open_masks k (real n) h e = rw e refl
  open_masks k (text s) h e = rw e refl

  open_member :
      (k : String) (v : Value)
      → is_dict v ≡ false
      → is_sensitive lower k ≡ false
      → masks_member lower k (redact_plain re_sub lower v) ≡ true
  open_member k (items vs) h e = rw e refl
  open_member k (dict d) h e = cc
  open_member k null h e = rw e refl
  open_member k (flag b) h e = rw e refl
  open_member k (num n) h e = rw e refl
  open_member k (real n) h e = rw e refl
  open_member k (text s) h e = rw e refl

  value_masks :
      (k : String) (v : Value)
      → is_nested v ≡ false
      → masks_value lower k (redact_value re_sub lower k v) ≡ true
  value_masks k v h = elim (Bool-cases (is_sensitive lower k)) [
    | inl secret ↦
        rw secret
          (elim (Bool-cases (is_blank v)) [ inl blank ↦ ground arith | inr other ↦ ground arith ])
    | inr public ↦ rw public (open_masks k v h public)
  ]

  item_masks :
      (k : String) (v : Value)
      → is_dict v ≡ false
      → masks_member lower k (redact_value re_sub lower k v) ≡ true
  item_masks k v h = elim (Bool-cases (is_sensitive lower k)) [
    | inl secret ↦
        rw secret
          (elim (Bool-cases (is_blank v)) [ inl blank ↦ ground arith | inr other ↦ ground arith ])
    | inr public ↦ rw public (open_member k v h public)
  ]

  mutual
    unfolding redact_mapping redact_entry redact_items redact_member

    pub fields_mask : (d : Fields) → masks lower (redact_mapping re_sub lower d) ≡ true
    fields_mask end = refl
    fields_mask (field k v rest) = ground (arith, entry_masks k v, fields_mask rest)

    entry_masks :
        (k : String) (v : Value) → masks_value lower k (redact_entry re_sub lower k v) ≡ true
    entry_masks k null = value_masks k null refl
    entry_masks k (flag b) = value_masks k (flag b) refl
    entry_masks k (num n) = value_masks k (num n) refl
    entry_masks k (real n) = value_masks k (real n) refl
    entry_masks k (text s) = value_masks k (text s) refl
    entry_masks k (items vs) = items_mask k vs
    entry_masks k (dict d) = fields_mask d

    items_mask :
        (k : String) (vs : Items) → masks_items lower k (redact_items re_sub lower k vs) ≡ true
    items_mask k nil = refl
    items_mask k (cons v vs) = ground (arith, member_masks k v, items_mask k vs)

    member_masks :
        (k : String) (v : Value) → masks_member lower k (redact_member re_sub lower k v) ≡ true
    member_masks k null = item_masks k null refl
    member_masks k (flag b) = item_masks k (flag b) refl
    member_masks k (num n) = item_masks k (num n) refl
    member_masks k (real n) = item_masks k (real n) refl
    member_masks k (text s) = item_masks k (text s) refl
    member_masks k (items vs) = item_masks k (items vs) refl
    member_masks k (dict d) = fields_mask d
