-- ===== src/Monitors/Recording.antt =====
-- The matches that a run of `_evaluate_monitor` in app/services/monitor_service.py records.
use global_news_intelligence.Prelude.{
  ℕ, ◌≡◌, refl, sym, subst, Bool, true, false, Option, none, some, List, [], ◌∷◌, All, All-mono,
  any, any-append, any-update, any-find?-none, any_of_find?, find?, find?-holds, ok-injective,
  guard-ok, ok, Time, ltb, arith,
}
use global_news_intelligence.Monitors.Tables.{MonitorMatch, MonitorDb}
use global_news_intelligence.Monitors.Evaluation.{
  matches_document, new_match, observed, record_found, record_match, record_each, add_new,
}
use global_news_intelligence.Monitors.Savepoints.{record_each-parts}

abbrev pub is_matched : ℕ → List MonitorMatch → ℕ → Bool
is_matched monitor xs d = any (matches_document monitor d) xs

-- One document: it has a match afterwards, other matches stay, and a new match was not there.
abbrev Recorded : ℕ → ℕ → MonitorDb → MonitorDb → MonitorMatch × Bool → Type 0
Recorded monitor d s u x =
    (is_matched monitor u.matches d ≡ true)
    × ((e : ℕ) → is_matched monitor s.matches e ≡ true → is_matched monitor u.matches e ≡ true)
    × (x.1 ≡ true → (x.0.document_id ≡ d) × (is_matched monitor s.matches d ≡ false))

record_found-Recorded :
    (monitor d revision run : ℕ) (now : Time) (o : Option MonitorMatch) (s u : MonitorDb)
    (x : MonitorMatch × Bool)
    → find? (matches_document monitor d) s.matches ≡ o
    → record_found monitor d revision run now o s ≡ ok (u, x)
    → Recorded monitor d s u x
unfolding record_found new_match observed any
record_found-Recorded monitor d revision run now none s u x h k =
    subst (λ (y : MonitorDb × (MonitorMatch × Bool)). Recorded monitor d s y.0 y.1)
      (ok-injective _ _ k)
      (
        rw (any-append (matches_document monitor d) s.matches _) (ground arith),
        λ e v. rw (any-append (matches_document monitor e) s.matches _) (ground (arith, v)),
        λ _. (refl, any-find?-none (matches_document monitor d) s.matches h),
      )
record_found-Recorded monitor d revision run now (some y) s u x h k =
    let (_, l) = guard-ok (ltb now y.first_matched_at) _ _ _ k in
    subst (λ (z : MonitorDb × (MonitorMatch × Bool)). Recorded monitor d s z.0 z.1)
      (ok-injective _ _ l)
      (
        rw
            (any-update (matches_document monitor d) (matches_document monitor d)
              (observed revision run now) s.matches (λ a. refl))
            (any_of_find? (matches_document monitor d) (matches_document monitor d) s.matches y h
              (find?-holds (matches_document monitor d) s.matches y h)),
        λ e v.
            rw
              (any-update (matches_document monitor e) (matches_document monitor d)
                (observed revision run now) s.matches (λ a. refl))
              v,
        λ f. absurd (ground arith),
      )

record_match-Recorded :
    (monitor d revision run : ℕ) (now : Time) (s u : MonitorDb) (x : MonitorMatch × Bool)
    → record_match monitor d revision run now s ≡ ok (u, x)
    → Recorded monitor d s u x
unfolding record_match
record_match-Recorded monitor d revision run now s u x h =
    record_found-Recorded monitor d revision run now (find? (matches_document monitor d) s.matches)
      s u x refl h

-- All documents of a run
abbrev pub RecordedAll : ℕ → List ℕ → MonitorDb → MonitorDb → List ℕ → Type 0
RecordedAll monitor ds s t new =
    All (λ d. is_matched monitor t.matches d ≡ true) ds
    × All (λ d. is_matched monitor s.matches d ≡ false) new
    × ((e : ℕ) → is_matched monitor s.matches e ≡ true → is_matched monitor t.matches e ≡ true)

add_new-All :
    (P : ℕ → Type 0) (x : MonitorMatch × Bool) (d : ℕ) (new : List ℕ × List ℕ)
    → (x.1 ≡ true → (x.0.document_id ≡ d) × P d)
    → All P new.0
    → All P (add_new x new).0
add_new-All P (m, true) d (a, b) h v = (subst P (sym ((h refl).0)) ((h refl).1), v)
add_new-All P (m, false) d (a, b) h v = v

pub record_each-Recorded :
    (monitor revision run : ℕ) (now : Time) (ds : List ℕ) (s t : MonitorDb) (new : List ℕ × List ℕ)
    → record_each monitor revision run now ds s ≡ ok (t, new)
    → RecordedAll monitor ds s t new.0
unfolding record_each
record_each-Recorded monitor revision run now [] s t new h =
    subst (λ (y : MonitorDb × (List ℕ × List ℕ)). RecordedAll monitor [] s y.0 y.1.0)
      (ok-injective _ _ h) (tt, tt, λ e v. v)
record_each-Recorded monitor revision run now (d ∷ ds) s t new h =
    let (u, x, rest, first, later, same) =
      record_each-parts monitor revision run now d ds s t new h in
    let (here, grows, flag) = record_match-Recorded monitor d revision run now s u x first in
    let (all, fresh, more) = record_each-Recorded monitor revision run now ds u t rest later in
    (
      (more d here, all),
      subst (λ (y : List ℕ × List ℕ). All (λ e. is_matched monitor s.matches e ≡ false) y.0) same
          (add_new-All (λ e. is_matched monitor s.matches e ≡ false) x d rest flag
            (All-mono _ _ rest.0 (λ e k. ground (arith, grows e, k)) fresh)),
      λ e v. more e (grows e v),
    )
