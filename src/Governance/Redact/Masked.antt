-- ===== src/Governance/Redact/Masked.antt =====
-- What stands under a sensitive key after `redact_mapping`.
use azienda.Base.{String, Bool, true, false, ◌≡◌, refl, arith, ◌&&◌}
use azienda.Contracts.{Value, null, flag, num, real, text, items, dict, Items, cons, Fields, field}
use azienda.Governance.Redact.{is_sensitive, redact_mapping}
use azienda.Governance.Redact.Masks.{
  is_masked, masks, masks_value, masks_items, masks_member, fields_mask,
}

left : (a b : Bool) → (a && b) ≡ true → a ≡ true
left a b h = ground arith

right : (a b : Bool) → (a && b) ≡ true → b ≡ true
right a b h = ground arith

abbrev pub is_dict : Value → Bool
is_dict (dict d) = true
is_dict _ = false

abbrev pub is_list : Value → Bool
is_list (items vs) = true
is_list _ = false

-- a member of a list
pub data In (v : Value) : Items → Type 0 where
  first : (vs : Items) → In v (cons v vs)
  after : (w : Value) {vs : Items} → In v vs → In v (cons w vs)

-- `At d k v`: in `d`, or in a mapping that is visited from it, `v` is the value of the key `k`, or
-- a member of the list that is its value, and `v` is no mapping. A list in a list is such a member.
pub data At : Fields → String → Value → Type 0 where
  value :
      (k : String) (v : Value) (rest : Fields)
      → is_dict v ≡ false
      → is_list v ≡ false
      → At (field k v rest) k v
  in_list :
      (k : String) (v : Value) (vs : Items) (rest : Fields)
      → is_dict v ≡ false
      → In v vs
      → At (field k (items vs) rest) k v
  in_mapping :
      (j k : String) (v : Value) (d rest : Fields) → At d k v → At (field j (dict d) rest) k v
  in_member :
      (j k : String) (v : Value) (d : Fields) (vs : Items) (rest : Fields)
      → In (dict d) vs
      → At d k v
      → At (field j (items vs) rest) k v
  further : (j k : String) (v w : Value) (rest : Fields) → At rest k v → At (field j w rest) k v

module _ (lower : String → String) where
  member_of_masks :
      (k : String) (v : Value) {vs : Items}
      → In v vs
      → masks_items lower k vs ≡ true
      → masks_member lower k v ≡ true
  member_of_masks k v (first vs) h = left (masks_member lower k v) (masks_items lower k vs) h
  member_of_masks k v (after w {vs} i) h =
      member_of_masks k v i (right (masks_member lower k w) (masks_items lower k vs) h)

  value_of_masks :
      (k : String) (v : Value)
      → is_dict v ≡ false
      → masks_member lower k v ≡ true
      → is_sensitive lower k ≡ true
      → is_masked v ≡ true
  value_of_masks k (dict d) n h s = cc
  value_of_masks k null n h s = refl
  value_of_masks k (flag b) n h s = cc (rw s at h)
  value_of_masks k (num m) n h s = cc (rw s at h)
  value_of_masks k (real m) n h s = cc (rw s at h)
  value_of_masks k (text t) n h s = rw s at h
  value_of_masks k (items vs) n h s = cc (rw s at h)

  -- a value that is no list is masked as a member is
  as_member :
      (k : String) (v : Value)
      → is_list v ≡ false
      → masks_value lower k v ≡ true
      → masks_member lower k v ≡ true
  as_member k (items vs) l h = cc
  as_member k (dict d) l h = h
  as_member k null l h = h
  as_member k (flag b) l h = h
  as_member k (num m) l h = h
  as_member k (real m) l h = h
  as_member k (text t) l h = h

  At-masked :
      {d : Fields} {k : String} {v : Value}
      → At d k v
      → masks lower d ≡ true
      → is_sensitive lower k ≡ true
      → is_masked v ≡ true
  At-masked (value k v rest n l) h s =
      value_of_masks k v n (as_member k v l (left (masks_value lower k v) (masks lower rest) h)) s
  At-masked (in_list k v vs rest n i) h s =
      value_of_masks k v n
        (member_of_masks k v i (left (masks_items lower k vs) (masks lower rest) h)) s
  At-masked (in_mapping j k v d rest at_d) h s =
      At-masked at_d (left (masks lower d) (masks lower rest) h) s
  At-masked (in_member j k v d vs rest i at_d) h s =
      At-masked at_d
        (member_of_masks j (dict d) i (left (masks_items lower j vs) (masks lower rest) h)) s
  At-masked (further j k v w rest at_rest) h s =
      At-masked at_rest (right (masks_value lower j w) (masks lower rest) h) s

-- After `redact_mapping` every value of a sensitive key, and every member of a list that is its
-- value, is None, the empty text or the mark, unless it is a mapping. This holds in the mapping and
-- in those that are visited from it: the value of a key, or a member of a list that is one. It says
-- nothing of a mapping in a list in a list, nor of the other keys of a mapping under a sensitive one.
pub redact_masks :
    (re_sub : String → String → String → String) (lower : String → String) (d : Fields) (k : String)
    (v : Value)
    → At (redact_mapping re_sub lower d) k v
    → is_sensitive lower k ≡ true
    → is_masked v ≡ true
redact_masks re_sub lower d k v found s = At-masked lower found (fields_mask re_sub lower d) s
