-- ===== src/Governance/Approvals/Decisions.antt =====
-- Who can decide what and when; what a decision leaves alone; sweeps and repeated requests.
use azienda.Base.{
  ℕ, ◌≤◌, ◌<◌, ◌≡◌, ◌≢◌, ◌↔◌, refl, String, Bool, true, false, ◌&&◌, Option, none, some, List, [],
  ◌∷◌, ◌++◌, arith, ◌==◌, str_eq, eq_iff, inl, inr, Option-cases, select, map, find, update_where,
  Result, ok, err,
}
use azienda.Contracts.{Factor, Uuid, Time, TenantContext, ActionRequest, PolicyDecision, pending}
use azienda.Governance.Approvals.{
  ApprovalRecord, ApprovalEvent, expiry_event, Store, Error, is_pending, owned_by, expire, settle,
  swept, same_request, get_record, new_record, request, write, decide, get_approval, escalate,
  sweep_expired, list_pending,
}
use azienda.Governance.Approvals.Sweep.{Sweeps, rows-Sweeps}
use azienda.Governance.Approvals.Rows.{rows_of, closed_rows_pending}
use azienda.Governance.Approvals.Trail.{
  IsConsistent, Step, requested, decided, got, escalated, swept_out, listed, Reach, here, next,
  Reach-IsConsistent,
}

abbrev pub is_ok : {A : Type 0} → Result Error A → Bool
is_ok (ok _) = true
is_ok (err _) = false

-- A decision, granting or refusing, is taken exactly if the tenant has a row with that id which is
-- still pending and whose expiry lies after the time that the call reads first.
pub decide_iff :
    (clock : ℕ → Time) (tenant : TenantContext) (id : Uuid) (verdict : Bool) (note : String)
    (s : Store)
    → (is_ok (decide clock tenant id verdict note s).0 ≡ true) ↔ (
        (r : ApprovalRecord) × (get_record tenant id s ≡ some r)
        × (r.status ≡ pending)
        × (clock 0 < r.expires_at))
unfolding decide
decide_iff clock tenant id verdict note s = (there, back)
  where
    there :
        is_ok (decide clock tenant id verdict note s).0 ≡ true
        → (r : ApprovalRecord) × (get_record tenant id s ≡ some r)
          × (r.status ≡ pending)
          × (clock 0 < r.expires_at)
    there h = ground arith

    back :
        (r : ApprovalRecord) × (get_record tenant id s ≡ some r)
          × (r.status ≡ pending)
          × (clock 0 < r.expires_at)
        → is_ok (decide clock tenant id verdict note s).0 ≡ true
    back h = ground arith

-- A sweep at `now` sets every row in its scope that is pending and due to `expired`, adds one event
-- of the expiry for each of them, in their order, after the events that were there, and returns
-- how many they were. Every other row stays as it was.
pub sweep_complete :
    (now : Time) (scope : Option TenantContext) (s : Store)
    → let (n, s') = sweep_expired now scope s in
      (new : List ApprovalEvent) × (s'.events ≡ s.events ++ new)
      × Sweeps now scope s.approvals s'.approvals new n
unfolding sweep_expired
sweep_complete now scope s = (
  map expiry_event (select (swept scope now) s.approvals),
  refl,
  rows-Sweeps now scope s.approvals,
)

abbrev pub row : Uuid → Store → Option ApprovalRecord
row id s = find (λ r. r.id == id) s.approvals

-- an update that changes pending rows alone leaves a closed row
find-update_closed :
    (p : ApprovalRecord → Bool) (f : ApprovalRecord → ApprovalRecord)
    (keeps : (x : ApprovalRecord) → (f x).id ≡ x.id)
    (only : (x : ApprovalRecord) → is_pending x.status ≡ false → p x ≡ false) (id : Uuid)
    (r : ApprovalRecord) (rows : List ApprovalRecord)
    → find (λ x. x.id == id) rows ≡ some r
    → is_pending r.status ≡ false
    → find (λ x. x.id == id) (update_where p f rows) ≡ some r
find-update_closed p f keeps only id r [] e h = cc
find-update_closed p f keeps only id r (x ∷ rows) e h =
    ground (arith, keeps x, only x, find-update_closed p f keeps only id r rows)

-- a write to the row of another id
find-update_ne :
    (j : Uuid) (f : ApprovalRecord → ApprovalRecord)
    (keeps : (x : ApprovalRecord) → (f x).id ≡ x.id) (id : Uuid) (rows : List ApprovalRecord)
    → id ≢ j
    → find (λ x. x.id == id) (update_where (λ x. x.id == j) f rows) ≡ find (λ x. x.id == id) rows
find-update_ne j f keeps id [] ne = refl
find-update_ne j f keeps id (x ∷ rows) ne =
    ground (arith, keeps x, find-update_ne j f keeps id rows ne)

-- one row to an id: what a query by id and owner finds is what the id finds
row-get_record :
    (tenant : TenantContext) (id : Uuid) (r : ApprovalRecord) (rows : List ApprovalRecord)
    → rows_of id rows ≤ 1
    → find (λ x. x.id == id && owned_by tenant x) rows ≡ some r
    → find (λ x. x.id == id) rows ≡ some r
row-get_record tenant id r [] u e = cc
row-get_record tenant id r (x ∷ rows) u e =
    ground (arith, none_left rows, row-get_record tenant id r rows)
  where
    none_left :
        (ys : List ApprovalRecord)
        → rows_of id ys ≤ 0
        → find (λ y. y.id == id && owned_by tenant y) ys ≡ none
    none_left [] h = refl
    none_left (y ∷ ys) h = ground (arith, none_left ys)

module _ (id : Uuid) (r : ApprovalRecord) (s : Store) (h : IsConsistent s) (e : row id s ≡ some r)
    (closed : is_pending r.status ≡ false) where
  -- a write to a pending row that was loaded leaves the closed one
  row-write :
      (tenant : TenantContext) (j : Uuid) (loaded : ApprovalRecord)
      (f : ApprovalRecord → ApprovalRecord)
      → get_record tenant j s ≡ some loaded
      → is_pending loaded.status ≡ true
      → ((x : ApprovalRecord) → (f x).id ≡ x.id)
      → row id (write loaded.id f s) ≡ some r
  unfolding get_record
  row-write tenant j loaded f found waiting keeps = ground (
    arith,
    find-update_ne loaded.id f keeps id s.approvals,
    row-get_record tenant j loaded s.approvals (h.one_row j) found,
    closed_rows_pending (owned_by tenant) j loaded s.approvals (h.one_row j) found waiting,
  )

  row-decide :
      (clock : ℕ → Time) (tenant : TenantContext) (j : Uuid) (verdict : Bool) (note : String)
      → row id (decide clock tenant j verdict note s).1 ≡ some r
  unfolding decide
  row-decide clock tenant j verdict note = elim (Option-cases (get_record tenant j s)) [
    | inl missing ↦ rw (missing, decide) e
    | inr (x, found) ↦ ground (
      arith,
      row-write tenant j x expire found,
      row-write tenant j x (settle verdict tenant.user_id (clock 1) note) found,
    )
  ]

  row-escalate :
      (now : Time) (tenant : TenantContext) (j : Uuid) (note : String)
      → row id (escalate now tenant j note s).1 ≡ some r
  unfolding escalate
  row-escalate now tenant j note = elim (Option-cases (get_record tenant j s)) [
    | inl missing ↦ rw (missing, escalate) e
    | inr (x, found) ↦ ground (arith, row-write tenant j x expire found)
  ]

  row-get_approval :
      (now : Time) (tenant : TenantContext) (j : Uuid)
      → row id (get_approval now tenant j s).1 ≡ some r
  unfolding get_approval
  row-get_approval now tenant j = elim (Option-cases (get_record tenant j s)) [
    | inl missing ↦ rw (missing, get_approval) e
    | inr (x, found) ↦ ground (arith, row-write tenant j x expire found)
  ]

  row-sweep_expired :
      (now : Time) (scope : Option TenantContext) → row id (sweep_expired now scope s).1 ≡ some r
  unfolding sweep_expired
  row-sweep_expired now scope =
      find-update_closed (swept scope now) expire (λ _. refl) (λ x c. ground arith) id r s.approvals
        e closed

  row-request :
      (ttl : ℕ) (now : Time) (j : Uuid) (decision : PolicyDecision) (req : ActionRequest)
      (score : ℕ) (factors : List Factor)
      → row id (request ttl now j decision req score factors s).1 ≡ some r
  unfolding request
  row-request ttl now j decision req score factors =
      ground
        (arith, found_first s.approvals (new_record ttl now j decision req score factors ∷ []) e)
    where
      found_first :
          (xs ys : List ApprovalRecord)
          → find (λ x. x.id == id) xs ≡ some r
          → find (λ x. x.id == id) (xs ++ ys) ≡ some r
      found_first [] ys f = cc
      found_first (x ∷ xs) ys f = ground (arith, found_first xs ys)

row-Step :
    (id : Uuid) (r : ApprovalRecord) {s t : Store}
    → Step s t
    → IsConsistent s
    → row id s ≡ some r
    → is_pending r.status ≡ false
    → row id t ≡ some r
row-Step id r (requested ttl now j decision req score factors s unused) h e c =
    row-request id r s h e c ttl now j decision req score factors
row-Step id r (decided clock tenant j verdict note s) h e c =
    row-decide id r s h e c clock tenant j verdict note
row-Step id r (got now tenant j s) h e c = row-get_approval id r s h e c now tenant j
row-Step id r (escalated now tenant j note s) h e c = row-escalate id r s h e c now tenant j note
row-Step id r (swept_out now scope s) h e c = row-sweep_expired id r s h e c now scope
row-Step id r (listed now tenant limit offset s) h e c =
    unfold list_pending in row-sweep_expired id r s h e c now (some tenant)

-- From a consistent store, an approval that is approved, denied or expired stays as it is, in
-- every field, through any further calls: it is never decided again, reopened or overwritten.
pub decided_stays :
    (id : Uuid) (r : ApprovalRecord) {s t : Store}
    → Reach s t
    → IsConsistent s
    → row id s ≡ some r
    → is_pending r.status ≡ false
    → row id t ≡ some r
decided_stays id r here h e c = e
decided_stays id r (next before st) h e c =
    row-Step id r st (Reach-IsConsistent before h) (decided_stays id r before h e c) c

-- A request that names a key other than the empty text, repeated with the same key while the
-- approval of the first is pending, gets the approval of the first and writes nothing, whatever the
-- decision, the time and the score of the second.
pub request_replay :
    (ttl ttl' : ℕ) (now now' : Time) (id id' : Uuid) (d d' : PolicyDecision) (req : ActionRequest)
    (score score' : ℕ) (factors factors' : List Factor) (key : String) (s : Store)
    → req.idempotency_key ≡ some key
    → str_eq key "" ≡ false
    → let (a, s') = request ttl now id d req score factors s in
      request ttl' now' id' d' req score' factors' s' ≡ (a, s')
unfolding request
request_replay ttl ttl' now now' id id' d d' req score score' factors factors' key s named filled =
    ground
      (arith, eq_iff key key, found_last s.approvals (new_record ttl now id d req score factors))
  where
    found_last :
        (xs : List ApprovalRecord) (x : ApprovalRecord)
        → find (same_request req.tenant key) xs ≡ none
        → same_request req.tenant key x ≡ true
        → find (same_request req.tenant key) (xs ++ x ∷ []) ≡ some x
    found_last [] x none_yet new = ground arith
    found_last (y ∷ ys) x none_yet new = ground (arith, found_last ys x)
