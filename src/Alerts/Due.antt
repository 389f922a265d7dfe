-- ===== src/Alerts/Due.antt =====
-- `list_due_delivery_ids` of app/repositories/alert_repository.py, which the scheduler queues.
use global_news_intelligence.Prelude.{
  ℕ, zero, suc, ◌≤◌, ◌≡◌, refl, ◌==◌, Bool, true, false, ◌&&◌, ◌||◌, Option, none, some, List, [],
  ◌∷◌, any, filter, map, All, Time, ltb, leb, if◌then◌else◌, arith, Bool-cases, inl, inr,
}
use global_news_intelligence.Alerts.Tables.{
  Destination, Delivery, AlertDb, is_processing, is_waiting, is_final,
}
use global_news_intelligence.Alerts.{claim, close_stale, open_attempt, is_ahead, is_held}

-- `column <= now`, which a null does not satisfy
abbrev is_past : Option Time → Time → Bool
is_past none now = false
is_past (some t) now = leb t now

-- The join with the destination, and the condition of the query.
pub is_due : Time → List Destination → Delivery → Bool
is_due now destinations d =
    any (λ (x : Destination). x.id == d.destination_id && x.is_active) destinations
    && (is_waiting d.status && is_past d.next_attempt_at now
        || is_processing d.status && is_past d.claim_expires_at now)

-- `ORDER BY column ASC NULLS LAST, rest`
pub orders : Option Time → Option Time → Bool → Bool
orders none none rest = rest
orders none (some u) rest = false
orders (some t) none rest = true
orders (some t) (some u) rest = ltb t u || t == u && rest

-- The order of the query.
pub precedes : Delivery → Delivery → Bool
unfolding orders
precedes a b =
    orders a.next_attempt_at b.next_attempt_at
      (orders a.claim_expires_at b.claim_expires_at (ltb a.id b.id))

insert_ordered : Delivery → List Delivery → List Delivery
insert_ordered d [] = d ∷ []
insert_ordered d (x ∷ xs) = if precedes d x then d ∷ x ∷ xs else x ∷ insert_ordered d xs

ordered : List Delivery → List Delivery
unfolding insert_ordered
ordered [] = []
ordered (d ∷ ds) = insert_ordered d (ordered ds)

-- `LIMIT`
limited : ℕ → List Delivery → List Delivery
limited zero ds = []
limited (suc n) [] = []
limited (suc n) (d ∷ ds) = d ∷ limited n ds

-- The rows of `list_due_delivery_ids`, which returns their ids.
pub due_deliveries : Time → ℕ → AlertDb → List Delivery
unfolding is_due ordered limited
due_deliveries now limit s =
    limited limit (ordered (filter (is_due now s.destinations) s.deliveries))

pub list_due_delivery_ids : Time → ℕ → AlertDb → List ℕ
unfolding due_deliveries
list_due_delivery_ids now limit s = map (λ (d : Delivery). d.id) (due_deliveries now limit s)

insert_ordered-All {κ} :
    (P : Delivery → Type κ) (d : Delivery) (ds : List Delivery)
    → P d
    → All P ds
    → All P (insert_ordered d ds)
unfolding insert_ordered
insert_ordered-All P d [] p v = (p, tt)
insert_ordered-All P d (x ∷ xs) p v = elim (Bool-cases (precedes d x)) [
  | inl e ↦ rw e (p, v)
  | inr e ↦ rw e (v.0, insert_ordered-All P d xs p v.1)
]

ordered-All {κ} : (P : Delivery → Type κ) (ds : List Delivery) → All P ds → All P (ordered ds)
unfolding ordered
ordered-All P [] v = tt
ordered-All P (d ∷ ds) v = insert_ordered-All P d (ordered ds) v.0 (ordered-All P ds v.1)

limited-All {κ} :
    (P : Delivery → Type κ) (n : ℕ) (ds : List Delivery) → All P ds → All P (limited n ds)
unfolding limited
limited-All P zero ds v = tt
limited-All P (suc n) [] v = tt
limited-All P (suc n) (d ∷ ds) v = (v.0, limited-All P n ds v.1)

filter-All {κ} :
    (P : Delivery → Type κ) (p : Delivery → Bool) (ds : List Delivery)
    → ((d : Delivery) → p d ≡ true → P d)
    → All P (filter p ds)
unfolding filter
filter-All P p [] h = tt
filter-All P p (d ∷ ds) h = elim (Bool-cases (p d)) [
  | inl e ↦ rw e (h d e, filter-All P p ds h)
  | inr e ↦ rw e (filter-All P p ds h)
]

due_opened :
    (now later : Time) (token : ℕ) (s : AlertDb) (destinations : List Destination) (d : Delivery)
    → now ≤ later
    → is_due now destinations d ≡ true
    → claim later token d s
      ≡ open_attempt later token d
          (if is_processing d.status then close_stale later d.id d.claim_token s else s)
unfolding claim is_due
due_opened now later token s destinations d h e =
    let unfinished : is_final d.status ≡ false = ground arith in
    let started : (is_waiting d.status && is_ahead d.next_attempt_at later) ≡ false =
      ground arith in
    let lapsed : (is_processing d.status && is_held d.claim_expires_at later) ≡ false =
      ground arith in
    rw (unfinished, started, lapsed) refl

-- A delivery that is listed as due is not put off when a worker gets to it at that time or later,
-- unless its row has changed since: it is neither not due yet nor held by another worker.
pub listed_opened :
    (now later : Time) (limit token : ℕ) (s : AlertDb)
    → now ≤ later
    → All
        (λ (d : Delivery).
          claim later token d s
          ≡ open_attempt later token d
              (if is_processing d.status then close_stale later d.id d.claim_token s else s))
        (due_deliveries now limit s)
unfolding due_deliveries
listed_opened now later limit token s h = limited-All _ limit _ (
    ordered-All _ _ (
      filter-All _ (is_due now s.destinations) s.deliveries
        (λ d e. due_opened now later token s s.destinations d h e)))
