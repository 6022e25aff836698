-- ===== src/Governance/Audit/Chain.antt =====
-- A ledger that only `append` has written verifies, from every number on.
use azienda.Base.{
  ℕ, zero, suc, ◌+◌, ◌-◌, ◌≤◌, ◌≡◌, refl, sym, ap, ◌∙◌, subst, String, Bool, true, false, Option,
  none, some, List, [], ◌∷◌, ◌++◌, arith, ◌⊎◌, str_eq, ltb, leb, ◌==◌, if◌then◌else◌, inl, inr,
  Bool-cases, select, find, null, sort_asc, length, eq_iff, select-select, select_last, select_skip,
  find-select, eq_of_==, ==_refl,
}
use azienda.Contracts.{TenantId, Time, Fields, TenantContext}
use azienda.Governance.Audit.{
  Hashing, AuditEntry, join, genesis_hash, chain_hash, mine, max_seq, hash_of, hash_at, or_genesis,
  append, rows_from, verify_rows, verify_chain,
}

module _ (h : Hashing) where
  -- rows that are numbered on from `k` and chained on from the hash `p`
  abbrev pub Linked : String → ℕ → List AuditEntry → Type 0
  Linked p k [] = Unit
  Linked p k (e ∷ es) =
      (e.seq ≡ suc k)
      × (e.prev_hash ≡ p)
      × (e.hash ≡ chain_hash h p (suc k) e.actor e.action e.payload)
      × Linked e.hash (suc k) es

  -- the hash that the next row is chained to
  abbrev pub tip : String → List AuditEntry → String
  tip p [] = p
  tip p (e ∷ es) = tip e.hash es

  Linked-append :
      (p : String) (k : ℕ) (es : List AuditEntry) (e : AuditEntry)
      → Linked p k es
      → e.seq ≡ suc (k + length es)
      → e.prev_hash ≡ tip p es
      → e.hash ≡ chain_hash h (tip p es) (suc (k + length es)) e.actor e.action e.payload
      → Linked p k (es ++ e ∷ [])
  Linked-append p k [] e l n q c = ground arith
  Linked-append p k (x ∷ es) e l n q c =
      let (seq, prev, made, rest) = l in
      (
        seq,
        prev,
        made,
        Linked-append x.hash (suc k) es e rest (omega arith) q (
            subst (λ m. e.hash ≡ chain_hash h (tip x.hash es) (suc m) e.actor e.action e.payload)
              (omega arith) c),
      )

  verify-Linked :
      (p : String) (k : ℕ) (es : List AuditEntry) → Linked p k es → verify_rows h (some p) es ≡ true
  unfolding verify_rows
  verify-Linked p k [] l = refl
  verify-Linked p k (e ∷ es) l = ground (
    arith,
    verify-Linked e.hash (suc k) es l.3,
    eq_iff e.prev_hash p,
    eq_iff (chain_hash h e.prev_hash e.seq e.actor e.action e.payload) e.hash,
  )

  max-Linked :
      (p : String) (k : ℕ) (es : List AuditEntry)
      → Linked p k es
      → (null es ≡ true) ⊎ (max_seq es ≡ k + length es)
  max-Linked p k [] l = inl refl
  max-Linked p k (e ∷ es) l = ground (arith, max-Linked e.hash (suc k) es l.3)

  sort-Linked :
      (p : String) (k : ℕ) (es : List AuditEntry) → Linked p k es → sort_asc (λ e. e.seq) es ≡ es
  sort-Linked p k [] l = refl
  sort-Linked p k (e ∷ []) l = refl
  sort-Linked p k (e ∷ d ∷ es) l = ground (arith, sort-Linked e.hash (suc k) (d ∷ es) l.3)

  tip-Linked :
      (p : String) (k : ℕ) (e : AuditEntry) (es : List AuditEntry)
      → Linked p k (e ∷ es)
      → hash_of (find (λ x. x.seq == suc (k + length es)) (e ∷ es)) ≡ some (tip p (e ∷ es))
  tip-Linked p k e [] l = ground arith
  tip-Linked p k e (d ∷ es) l = ground (arith, tip-Linked e.hash (suc k) d es l.3)

  kept-Linked :
      (p : String) (k f : ℕ) (es : List AuditEntry)
      → Linked p k es
      → f ≤ suc k
      → select (λ e. leb f e.seq) es ≡ es
  kept-Linked p k f [] l lo = refl
  kept-Linked p k f (e ∷ es) l lo = ground (arith, kept-Linked e.hash (suc k) f es l.3)

  -- what follows row `m` of a chain is linked to that row's hash
  from_Linked :
      (p : String) (k m : ℕ) (es : List AuditEntry)
      → Linked p k es
      → suc k ≤ m
      → (select (λ e. leb (suc m) e.seq) es ≡ [])
        ⊎ ((s : String) × (hash_of (find (λ e. e.seq == m) es) ≡ some s)
            × Linked s m (select (λ e. leb (suc m) e.seq) es))
  from_Linked p k m [] l lo = inl refl
  from_Linked p k m (e ∷ es) l lo =
      let skip : select (λ x. leb (suc m) x.seq) (e ∷ es) ≡ select (λ x. leb (suc m) x.seq) es =
        ground arith in
      elim (Bool-cases (e.seq == m)) [
        | inl here ↦ inr (
          e.hash,
          ground arith,
          subst (λ es'. Linked e.hash m es')
              (sym (skip ∙ kept-Linked e.hash (suc k) (suc m) es l.3 (ground arith)))
              (subst (λ j. Linked e.hash j es) (ground arith) l.3),
        )
        | inr past ↦ elim (from_Linked e.hash (suc k) m es l.3 (ground arith)) [
          | inl gone ↦ inl (skip ∙ gone)
          | inr (s, found, rest) ↦
              inr (s, ground arith, subst (λ es'. Linked s m es') (sym skip) rest)
        ]
      ]

  sorted_from :
      (p : String) (f : ℕ) (es : List AuditEntry)
      → Linked p 0 es
      → sort_asc (λ e. e.seq) (select (λ e. leb f e.seq) es) ≡ select (λ e. leb f e.seq) es
  sorted_from p zero es l = rw (kept-Linked p 0 zero es l (omega arith)) (sort-Linked p 0 es l)
  sorted_from p (suc zero) es l =
      rw (kept-Linked p 0 (suc zero) es l (omega arith)) (sort-Linked p 0 es l)
  sorted_from p (suc (suc m)) es l = elim (from_Linked p 0 (suc m) es l (omega arith)) [
    | inl gone ↦ rw gone refl
    | inr (s, found, rest) ↦ sort-Linked s (suc m) (select (λ e. leb (suc (suc m)) e.seq) es) rest
  ]

  -- what `verify_chain` starts from, where the rows that it reads are `rest`
  abbrev start_of : Bool → List AuditEntry → Option String → Option String
  start_of first rest anchor =
      if first then some genesis_hash else if null rest then none else anchor

  verify_after :
      (s : String) (k : ℕ) (rest : List AuditEntry) {anchor : Option String}
      → Linked s k rest
      → (null rest ≡ true) ⊎ (anchor ≡ some s)
      → verify_rows h (start_of false rest anchor) rest ≡ true
  unfolding verify_rows
  verify_after s k [] l a = refl
  verify_after s k (e ∷ es) l (inl n) = cc
  verify_after s k (e ∷ es) l (inr a) = rw a (verify-Linked s k (e ∷ es) l)

  verify_from :
      (f : ℕ) (es : List AuditEntry)
      → Linked genesis_hash 0 es
      → let rest = select (λ e. leb f e.seq) es in
        verify_rows h (start_of (leb f 1) rest (hash_of (find (λ e. e.seq == f - 1) es))) rest
        ≡ true
  verify_from zero es l =
      rw (kept-Linked genesis_hash 0 zero es l (omega arith)) (verify-Linked genesis_hash 0 es l)
  verify_from (suc zero) es l =
      rw (kept-Linked genesis_hash 0 (suc zero) es l (omega arith))
        (verify-Linked genesis_hash 0 es l)
  verify_from (suc (suc m)) es l =
      let later : leb (suc (suc m)) 1 ≡ false = ground arith in
      let before : suc (suc m) - 1 ≡ suc m = omega arith in
      elim (from_Linked genesis_hash 0 (suc m) es l (omega arith)) [
        | inl gone ↦
            rw (before, later, gone)
              (verify_after genesis_hash 0 [] {anchor = hash_of (find (λ e. e.seq == suc m) es)} tt
                (inl refl))
        | inr (s, found, rest) ↦
            rw (before, later, found)
              (verify_after s (suc m) (select (λ e. leb (suc (suc m)) e.seq) es) {anchor = some s}
                rest (inr refl))
      ]

  tip_is_hash :
      (hex : (s : String) → str_eq (h.sha256 s) "" ≡ false) (p : String) (k : ℕ) (e : AuditEntry)
      (es : List AuditEntry)
      → Linked p k (e ∷ es)
      → or_genesis (some (tip p (e ∷ es))) ≡ tip p (e ∷ es)
  unfolding chain_hash
  tip_is_hash hex p k e [] l = ground (
    arith,
    hex (join p (join (h.str (suc k)) (join e.actor (join e.action (h.canonical_json e.payload))))),
  )
  tip_is_hash hex p k e (d ∷ es) l = tip_is_hash hex e.hash (suc k) d es l.3

-- what a call of `append` is given
pub record Write : Type 0 where
  pub now : Time
  pub tenant : TenantContext
  pub actor : String
  pub action : String
  pub payload : Fields

module _ (re_sub : String → String → String → String) (lower : String → String) (h : Hashing)
    (hex : (s : String) → str_eq (h.sha256 s) "" ≡ false) where
  -- the ledger after the calls `ws`, of which the first is the last made
  abbrev pub ledger : List Write → List AuditEntry
  ledger [] = []
  ledger (w ∷ ws) = (append re_sub lower h w.now w.tenant w.actor w.action w.payload (ledger ws)).1

  last_of_Linked :
      (es : List AuditEntry)
      → Linked h genesis_hash 0 es
      → let m = max_seq es in
        (m ≡ length es)
        × (or_genesis (if ltb 0 m then hash_of (find (λ e. e.seq == m) es) else none)
            ≡ tip h genesis_hash es)
  last_of_Linked [] l = (refl, refl)
  last_of_Linked (e ∷ es) l =
      let found = tip-Linked h genesis_hash 0 e es l in
      let top : max_seq (e ∷ es) ≡ suc (0 + length es) =
        ground (arith, max-Linked h genesis_hash 0 (e ∷ es) l) in
      (
        omega (arith, top),
        subst
            (λ m.
              or_genesis (if ltb 0 m then hash_of (find (λ x. x.seq == m) (e ∷ es)) else none)
              ≡ tip h genesis_hash (e ∷ es))
            (sym top) (rw found (ground (arith, tip_is_hash h hex genesis_hash 0 e es l))),
      )

  -- the hash that `append` chains the new row to
  last_hash :
      (t : TenantId) (rows : List AuditEntry)
      → Linked h genesis_hash 0 (select (mine t) rows)
      → let m = max_seq (select (mine t) rows) in
        (m ≡ length (select (mine t) rows))
        × (or_genesis (if ltb 0 m then hash_at t m rows else none)
            ≡ tip h genesis_hash (select (mine t) rows))
  last_hash t rows l = ground (
    arith,
    last_of_Linked (select (mine t) rows) l,
    find-select (λ e. e.seq == max_seq (select (mine t) rows)) (mine t) rows,
  )

  row-Linked :
      (t : TenantId) (rows : List AuditEntry) (e : AuditEntry)
      → Linked h genesis_hash 0 (select (mine t) rows)
      → mine t e ≡ true
      → let m = max_seq (select (mine t) rows) in
        let prev = or_genesis (if ltb 0 m then hash_at t m rows else none) in
        e.seq ≡ m + 1
        → e.prev_hash ≡ prev
        → e.hash ≡ chain_hash h prev (m + 1) e.actor e.action e.payload
        → Linked h genesis_hash 0 (select (mine t) (rows ++ e ∷ []))
  row-Linked t rows e l ours n q c =
      let (top, last) = last_hash t rows l in
      let es = select (mine t) rows in
      let count : max_seq es + 1 ≡ suc (0 + length es) = omega (arith, top) in
      subst (λ es'. Linked h genesis_hash 0 es') (sym (select_last (mine t) rows e ours))
        (Linked-append h genesis_hash 0 es e l (n ∙ count) (q ∙ last) (
          subst (λ s. e.hash ≡ chain_hash h s (suc (0 + length es)) e.actor e.action e.payload) last
            (subst
              (λ m.
                e.hash
                ≡ chain_hash h
                    (or_genesis (if ltb 0 (max_seq es) then hash_at t (max_seq es) rows else none))
                    m e.actor e.action e.payload)
              count c)))

  append-Linked :
      (w : Write) (rows : List AuditEntry) (t : TenantId)
      → ((t : TenantId) → Linked h genesis_hash 0 (select (mine t) rows))
      → Linked h genesis_hash 0
          (select (mine t) (append re_sub lower h w.now w.tenant w.actor w.action w.payload rows).1)
  unfolding append
  append-Linked w rows t l =
      let row = (append re_sub lower h w.now w.tenant w.actor w.action w.payload rows).0 in
      elim (Bool-cases (mine t row)) [
        | inl ours ↦
            subst (λ t'. Linked h genesis_hash 0 (select (mine t') (rows ++ row ∷ [])))
              (eq_of_== w.tenant.tenant_id t ours)
              (row-Linked w.tenant.tenant_id rows row (l w.tenant.tenant_id)
                (==_refl w.tenant.tenant_id) refl refl refl)
        | inr others ↦
            subst (λ es. Linked h genesis_hash 0 es) (sym (select_skip (mine t) rows row others))
              (l t)
      ]

  ledger-Linked :
      (ws : List Write) (t : TenantId) → Linked h genesis_hash 0 (select (mine t) (ledger ws))
  ledger-Linked [] t = tt
  ledger-Linked (w ∷ ws) t = append-Linked w (ledger ws) t (ledger-Linked ws)

  -- Whatever calls of `append` wrote the ledger, for whatever tenants, `verify_chain` answers true
  -- for each tenant, from each number on. The hash is never the empty text.
  pub appended_verifies :
      (ws : List Write) (tenant : TenantContext) (from_seq : ℕ)
      → verify_chain h tenant from_seq (ledger ws) ≡ true
  unfolding verify_chain
  appended_verifies ws tenant from_seq =
      let t = tenant.tenant_id in
      let es = select (mine t) (ledger ws) in
      let l = ledger-Linked ws t in
      let read : rows_from t from_seq (ledger ws) ≡ select (λ e. leb from_seq e.seq) es =
        ap (sort_asc (λ e. e.seq))
          (sym (select-select (λ e. leb from_seq e.seq) (mine t) (ledger ws)))
        ∙ sorted_from h genesis_hash from_seq es l in
      let anchor : hash_at t (from_seq - 1) (ledger ws)
          ≡ hash_of (find (λ e. e.seq == from_seq - 1) es) =
        ap hash_of (sym (find-select (λ e. e.seq == from_seq - 1) (mine t) (ledger ws))) in
      subst
        (λ rest.
          verify_rows h (start_of h (leb from_seq 1) rest (hash_at t (from_seq - 1) (ledger ws)))
            rest
          ≡ true)
        (sym read) (rw anchor (verify_from h from_seq es l))
