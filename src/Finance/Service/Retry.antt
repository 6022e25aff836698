-- ===== src/Finance/Service/Retry.antt =====
-- A payment that is sent again with its idempotency key.
use azienda.Base.{
  ◌≡◌, refl, sym, ap, ◌∙◌, String, true, false, Option, none, some, str_eq, eq_iff, inl, inr,
  Bool-cases, Option-cases, ltb, ==_refl, Result, ok, err,
}
use azienda.Contracts.{TenantId, TenantContext, Uuid}
use azienda.Finance.{
  Repo, Payment, Invoice, invoice_row, payment_by_key, register_key, put_payment, put_invoice,
  is_key, is_payment,
}
use azienda.Finance.Policy.{Env, FinanceError, refused, enforce_policy, emit}
use azienda.Finance.Invoices.{
  is_open, payment_request, PaymentCreate, new_payment, acknowledged_payment, settled, with_key,
  take_payment, record_payment, replay,
}
use azienda.Finance.Books.Frozen.{find-put_hit}

same_text : (s : String) → str_eq s s ≡ true
same_text s = (eq_iff s s).1 refl

replay-emit :
    (env : Env) (tenant : TenantContext) (topic : String) (i : Uuid) (key : Option String)
    (r : Repo)
    → replay tenant key (emit env tenant topic i r).1 ≡ replay tenant key r
replay-emit env tenant topic i none r = refl
replay-emit env tenant topic i (some k) r = elim (Bool-cases env.has_bus) [
  | inl e ↦ rw e refl
  | inr e ↦ rw e refl
]

-- a registered payment is found by its key
by_key-register_key :
    (t : TenantId) (k : String) (p : Payment) (r : Repo)
    → p.tenant_id ≡ t
    → payment_by_key t k (register_key t k p.id (put_payment p r)) ≡ some p
by_key-register_key t k p r own =
    rw
      (
        payment_by_key,
        find-put_hit (is_key t k) (is_key t k)
            (record { tenant_id = t; key = k; payment_id = p.id }) r.payment_idem (λ x. refl)
            (rw (==_refl t, same_text k) refl),
      )
      (find-put_hit (is_payment t p.id) (is_payment p.tenant_id p.id) p r.payments
        (λ x. rw own refl) (rw (own, ==_refl t, ==_refl p.id) refl))

abbrev Sent : TenantContext → PaymentCreate → Payment → Repo → Type 0
Sent tenant d p r =
    (q : Payment) × (replay tenant d.idempotency_key r ≡ some q)
    × (q.id ≡ p.id)
    × (q.amount ≡ p.amount)

abbrev payment_of : Payment → Result FinanceError Payment → Payment
payment_of p (ok q) = q
payment_of p (err _) = p

acknowledged_id :
    (o : Option String) (p : Payment)
    → (p.id ≡ (acknowledged_payment o p).id) × (p.amount ≡ (acknowledged_payment o p).amount)
acknowledged_id none p = (refl, refl)
acknowledged_id (some x) p = (refl, refl)

replay-with_key :
    (tenant : TenantContext) (key : Option String) (k : String) (p : Payment) (v : Invoice)
    (r : Repo)
    → key ≡ some k
    → str_eq k "" ≡ false
    → p.tenant_id ≡ tenant.tenant_id
    → replay tenant key
        (put_invoice v (with_key key (λ k. register_key tenant.tenant_id k p.id) (put_payment p r)))
      ≡ some p
replay-with_key tenant key k p v r e text own =
    rw (e, text) (by_key-register_key tenant.tenant_id k p r own)

took :
    (env : Env) (tenant : TenantContext) (d : PaymentCreate) (k : String) (v : Invoice) (j : Uuid)
    (topic : String) (r s : Repo) (p : Payment)
    → d.idempotency_key ≡ some k
    → str_eq k "" ≡ false
    → (q : Payment) → q.tenant_id ≡ tenant.tenant_id
    → Path
        (Result FinanceError Payment × Repo)
        (
          ok (acknowledged_payment (env.push_payment q) q),
          (emit env tenant topic j (
              put_invoice v (
                with_key d.idempotency_key
                  (λ k. register_key tenant.tenant_id k q.id)
                  (put_payment q r)))).1,
        )
        (ok p, s)
    → Sent tenant d p s
took env tenant d k v j topic r s p key text q own e =
    let (same_id, same_amount) = acknowledged_id (env.push_payment q) q in
    let same : acknowledged_payment (env.push_payment q) q ≡ p =
      ap (λ (x : Result FinanceError Payment × Repo). payment_of p x.0) e in
    (
      q,
      ap (λ (x : Result FinanceError Payment × Repo). replay tenant d.idempotency_key x.1) (sym e)
          ∙ (replay-emit env tenant topic j d.idempotency_key _
              ∙ replay-with_key tenant d.idempotency_key k q v r key text own),
      same_id ∙ ap (λ (x : Payment). x.id) same,
      same_amount ∙ ap (λ (x : Payment). x.amount) same,
    )

take_payment-Sent :
    (env : Env) (tenant : TenantContext) (v : Invoice) (d : PaymentCreate) (k : String) (r s : Repo)
    (p : Payment)
    → d.idempotency_key ≡ some k
    → str_eq k "" ≡ false
    → take_payment env tenant v d r ≡ (ok p, s)
    → Sent tenant d p s
unfolding take_payment
take_payment-Sent env tenant v d k r s p key text e =
    elim (Bool-cases (ltb v.balance_due d.amount)) [
      | inl over ↦ cc (rw (over, take_payment) at e)
      | inr enough ↦
          elim (Option-cases (refused env (payment_request env tenant v d.amount d.method))) [
            | inr (why, shut) ↦ cc (rw (enough, enforce_policy, shut, take_payment) at e)
            | inl clear ↦
                took env tenant d k (settled env d.amount v) env.fresh "finance.payment.recorded" r
                  s p key text (new_payment env tenant v.id d) refl
                  (rw (enough, enforce_policy, clear, take_payment) at e)
          ]
    ]

record_payment-Sent :
    (env : Env) (tenant : TenantContext) (id : Uuid) (d : PaymentCreate) (k : String) (r s : Repo)
    (p : Payment)
    → d.idempotency_key ≡ some k
    → str_eq k "" ≡ false
    → record_payment env tenant id d r ≡ (ok p, s)
    → Sent tenant d p s
unfolding record_payment
record_payment-Sent env tenant id d k r s p key text e =
    elim (Option-cases (invoice_row tenant.tenant_id id r)) [
      | inl missing ↦ cc (rw (missing, record_payment) at e)
      | inr (v, found) ↦ elim (Bool-cases (is_open v.status)) [
        | inr closed ↦ cc (rw (found, closed, record_payment) at e)
        | inl o ↦ elim (Option-cases (replay tenant d.idempotency_key r)) [
          | inr (q, again) ↦
              let same : Path (Result FinanceError Payment × Repo) (ok q, r) (ok p, s) =
                rw (found, o, again, record_payment) at e in
              (
                q,
                ap (λ (x : Result FinanceError Payment × Repo). replay tenant d.idempotency_key x.1)
                      (sym same)
                    ∙ again,
                ap (λ (x : Result FinanceError Payment × Repo). (payment_of p x.0).id) same,
                ap (λ (x : Result FinanceError Payment × Repo). (payment_of p x.0).amount) same,
              )
          | inl once ↦
              take_payment-Sent env tenant v d k r s p key text
                (rw (found, o, once, record_payment) at e)
        ]
      ]
    ]

-- After a payment that was accepted with a key that is not empty, a second `record_payment` of the tenant
-- with this key, at any time, on any invoice that takes payments and for any amount, changes nothing and answers
-- the stored payment, which has the id and the amount of the first answer.
pub retry_replays :
    (env again : Env) (tenant : TenantContext) (id id' : Uuid) (d d' : PaymentCreate) (k : String)
    (r s : Repo) (p : Payment) (v : Invoice)
    → d.idempotency_key ≡ some k
    → d'.idempotency_key ≡ some k
    → str_eq k "" ≡ false
    → record_payment env tenant id d r ≡ (ok p, s)
    → invoice_row tenant.tenant_id id' s ≡ some v
    → is_open v.status ≡ true
    → (q : Payment) × (record_payment again tenant id' d' s ≡ (ok q, s))
      × (q.id ≡ p.id)
      × (q.amount ≡ p.amount)
unfolding record_payment
retry_replays env again tenant id id' d d' k r s p v key key' text e found o =
    let (q, stored, same_id, same_amount) =
      record_payment-Sent env tenant id d k r s p key text e in
    let stored' : replay tenant d'.idempotency_key s ≡ some q =
      ap (λ k. replay tenant k s) (key' ∙ sym key) ∙ stored in
    (q, rw (found, o, stored', record_payment) refl, same_id, same_amount)
