-- ===== src/Governance/Audit/Tamper.antt =====
-- What two ledgers that verify and end in one hash have in common, and what the hash does not see.
use Prim.Native.Char.{Char, nul, code}
use Prim.Native.String.append
use azienda.Base.{
  ℕ, ◌≡◌, refl, sym, ap, ◌∙◌, String, Bool, true, false, ◌||◌, some, List, [], ◌∷◌, arith,
  str_append, ◌==◌, All, length, eq_iff, ◌≢◌, ◌⊎◌, inl, inr, Bool-cases, str_eq,
}
use azienda.Contracts.{Fields, TenantContext}
use azienda.Governance.Audit.{
  Hashing, AuditEntry, join, genesis_hash, chain_hash, rows_from, verify_rows, verify_chain,
}
use azienda.Governance.Audit.Chain.{tip}

-- whether the text has the separator
abbrev pub has_nul : String → Bool
has_nul String.[] = false
has_nul (String.◌∷◌ c s) = code c == 0 || has_nul s

or_false : (a b : Bool) → (a || b) ≡ false → b ≡ false
or_false a b h = ground arith

no_head : (c : Char) (s : String) → has_nul (String.◌∷◌ c s) ≡ false → nul ≡ c → ⊥
no_head c s h e = ground (arith, ap code e, h)

-- a text without the separator can be told from what follows it
split_join :
    (s s' t t' : String)
    → has_nul s ≡ false
    → has_nul s' ≡ false
    → join s t ≡ join s' t'
    → (s ≡ s') × (t ≡ t')
split_join String.[] String.[] t t' h h' e =
    (refl, cc (append.nil (String.◌∷◌ nul t), append.nil (String.◌∷◌ nul t'), e))
split_join String.[] (String.◌∷◌ c s') t t' h h' e =
    let q : String.◌∷◌ nul t ≡ String.◌∷◌ c (join s' t') =
      sym (append.nil (String.◌∷◌ nul t)) ∙ e ∙ append.cons c s' (String.◌∷◌ nul t') in
    absurd (no_head c s' h' (cc q))
split_join (String.◌∷◌ c s) String.[] t t' h h' e =
    let q : String.◌∷◌ nul t' ≡ String.◌∷◌ c (join s t) =
      sym (append.nil (String.◌∷◌ nul t')) ∙ sym e ∙ append.cons c s (String.◌∷◌ nul t) in
    absurd (no_head c s h (cc q))
split_join (String.◌∷◌ c s) (String.◌∷◌ c' s') t t' h h' e =
    let q : String.◌∷◌ c (join s t) ≡ String.◌∷◌ c' (join s' t') =
      sym (append.cons c s (String.◌∷◌ nul t)) ∙ e ∙ append.cons c' s' (String.◌∷◌ nul t') in
    let (front, back) =
      split_join s s' t t' (or_false (code c == 0) (has_nul s) h)
        (or_false (code c' == 0) (has_nul s') h') (cc q) in
    (cc (q, front), back)

-- texts that PostgreSQL stores: no NUL in them
pub record IsPlain (e : AuditEntry) : Type 0 where
  pub prev_hash : has_nul e.prev_hash ≡ false
  pub actor : has_nul e.actor ≡ false
  pub action : has_nul e.action ≡ false

module _ (h : Hashing) where
  -- the parts of a row that its hash covers, and the text that is hashed
  abbrev pub covered : AuditEntry → String × String × String × String × String
  covered e = (e.prev_hash, h.str e.seq, e.actor, e.action, h.canonical_json e.payload)

  abbrev pub hashed : AuditEntry → String
  hashed e =
      join e.prev_hash
        (join (h.str e.seq) (join e.actor (join e.action (h.canonical_json e.payload))))

  -- Rows that agree one by one in all that the hash covers, and in the hash.
  abbrev pub Same : List AuditEntry → List AuditEntry → Type 0
  Same [] [] = Unit
  Same (e ∷ es) (d ∷ ds) = (covered e ≡ covered d) × (e.hash ≡ d.hash) × Same es ds
  Same _ _ = ⊥

  -- Two rows at one place whose texts differ and have one SHA-256.
  abbrev pub Collide : List AuditEntry → List AuditEntry → Type 0
  Collide (e ∷ es) (d ∷ ds) =
      ((hashed e ≢ hashed d) × (h.sha256 (hashed e) ≡ h.sha256 (hashed d))) ⊎ Collide es ds
  Collide _ _ = ⊥

  module _ (plain_str : (n : ℕ) → has_nul (h.str n) ≡ false) where
    same_row :
        (e d : AuditEntry) → IsPlain e → IsPlain d → hashed e ≡ hashed d → covered e ≡ covered d
    same_row e d pe pd q =
        let rest = λ (x : AuditEntry).
          join (h.str x.seq) (join x.actor (join x.action (h.canonical_json x.payload))) in
        let (prev, r) =
          split_join e.prev_hash d.prev_hash (rest e) (rest d) pe.prev_hash pd.prev_hash q in
        let (seq, r') =
          split_join (h.str e.seq) (h.str d.seq)
            (join e.actor (join e.action (h.canonical_json e.payload)))
            (join d.actor (join d.action (h.canonical_json d.payload))) (plain_str e.seq)
            (plain_str d.seq) r in
        let (actor, r'') =
          split_join e.actor d.actor (join e.action (h.canonical_json e.payload))
            (join d.action (h.canonical_json d.payload)) pe.actor pd.actor r' in
        let (action, body) =
          split_join e.action d.action (h.canonical_json e.payload) (h.canonical_json d.payload)
            pe.action pd.action r'' in
        cc (prev, seq, actor, action, body)

    verified :
        (p : String) (e : AuditEntry) (es : List AuditEntry)
        → verify_rows h (some p) (e ∷ es) ≡ true
        → (e.prev_hash ≡ p)
          × (chain_hash h e.prev_hash e.seq e.actor e.action e.payload ≡ e.hash)
          × (verify_rows h (some e.hash) es ≡ true)
    unfolding verify_rows
    verified p e es v = ground (
      arith,
      eq_iff e.prev_hash p,
      eq_iff (chain_hash h e.prev_hash e.seq e.actor e.action e.payload) e.hash,
    )

    Same-rows :
        (p q : String) (es ds : List AuditEntry)
        → verify_rows h (some p) es ≡ true
        → verify_rows h (some q) ds ≡ true
        → length es ≡ length ds
        → tip h p es ≡ tip h q ds
        → All IsPlain es
        → All IsPlain ds
        → ((p ≡ q) × Same es ds) ⊎ Collide es ds
    unfolding chain_hash
    Same-rows p q [] [] ve vd n t pe pd = inl (t, tt)
    Same-rows p q [] (d ∷ ds) ve vd n t pe pd = absurd (ground (arith, n))
    Same-rows p q (e ∷ es) [] ve vd n t pe pd = absurd (ground (arith, n))
    Same-rows p q (e ∷ es) (d ∷ ds) ve vd n t pe pd =
        let (prev, made, rest) = verified p e es ve in
        let (prev', made', rest') = verified q d ds vd in
        elim (Same-rows e.hash d.hash es ds rest rest' (ground (arith, n)) t pe.1 pd.1) [
          | inr later ↦ inr (inr later)
          | inl (hash, same) ↦ elim (Bool-cases (str_eq (hashed e) (hashed d))) [
            | inr differ ↦ inr (
                inl (
                  λ one. cc (differ, (eq_iff (hashed e) (hashed d)).1 one),
                  made ∙ hash ∙ sym made',
                ))
            | inl agree ↦
                let row = same_row e d pe.0 pd.0 ((eq_iff (hashed e) (hashed d)).0 agree) in
                inl (sym prev ∙ ap (λ c. c.0) row ∙ prev', (row, hash, same))
          ]
        ]

    -- Take two ledgers of a tenant that both verify from the start, with as many rows and the same
    -- last hash, no stored text and no printed number having a NUL. Either they agree row by row in
    -- the hashes and in all that a hash covers, so that no row of one was changed in the other, or
    -- two rows that stand at the same place are a collision of SHA-256: the texts that were hashed
    -- for them differ and have one hash.
    pub tamper_evident :
        (tenant : TenantContext) (rows rows' : List AuditEntry)
        → let es = rows_from tenant.tenant_id 0 rows in
          let ds = rows_from tenant.tenant_id 0 rows' in
          verify_chain h tenant 0 rows ≡ true
          → verify_chain h tenant 0 rows' ≡ true
          → length es ≡ length ds
          → tip h genesis_hash es ≡ tip h genesis_hash ds
          → All IsPlain es
          → All IsPlain ds
          → Same es ds ⊎ Collide es ds
    unfolding verify_chain
    tamper_evident tenant rows rows' v v' n t p p' =
        elim (Same-rows genesis_hash genesis_hash (rows_from tenant.tenant_id 0 rows)
          (rows_from tenant.tenant_id 0 rows') v v' n t p p') [
            | inl (_, same) ↦ inl same
            | inr found ↦ inr found
          ]

-- what is joined is not told apart by where it was joined
join-join : (a b t : String) → join (join a b) t ≡ join a (join b t)
join-join String.[] b t =
    ap (λ s. str_append s (String.◌∷◌ nul t)) (append.nil (String.◌∷◌ nul b))
    ∙ append.cons nul b (String.◌∷◌ nul t)
    ∙ sym (append.nil (String.◌∷◌ nul (join b t)))
join-join (String.◌∷◌ c a) b t =
    ap (λ s. str_append s (String.◌∷◌ nul t)) (append.cons c a (String.◌∷◌ nul b))
    ∙ append.cons c (join a b) (String.◌∷◌ nul t)
    ∙ ap (λ s. String.◌∷◌ c s) (join-join a b t)
    ∙ sym (append.cons c a (String.◌∷◌ nul (join b t)))

-- A hash does not see where the actor ends and the action begins, if one of them has a NUL: the
-- two rows that a text moved over the border makes have one hash, with whatever SHA-256.
pub border_unseen :
    (h : Hashing) (prev : String) (seq : ℕ) (a b c : String) (payload : Fields)
    → chain_hash h prev seq (join a b) c payload ≡ chain_hash h prev seq a (join b c) payload
unfolding chain_hash
border_unseen h prev seq a b c payload =
    ap (λ s. h.sha256 (join prev (join (h.str seq) s)))
      (join-join a b (join c (h.canonical_json payload))
        ∙ ap (λ s. join a s) (sym (join-join b c (h.canonical_json payload))))
