-- ===== src/Workers/Examples.antt =====
-- An endpoint that is due twice, and two tasks for it.
use global_news_intelligence.Prelude.{
  ℕ, ◌+◌, ◌≡◌, ◌≤◌, refl, true, none, [], ◌∷◌, find?, count, length, arith,
}
use global_news_intelligence.Workers.Claims.{Claim, get_owner}
use global_news_intelligence.Workers.Dispatch.{
  Turn, Broker, dispatch_due_source_endpoints, begin_poll, end_poll,
}
use global_news_intelligence.Workers.Tally.{dispatch-tally}
use global_news_intelligence.Workers.Exclusion.{is_for, dispatch_once, own_poll}

abbrev hourly : Broker
hourly = record { ttl = 3600; accepts = λ _. true }

abbrev round : ℕ → ℕ → Turn
round task now = record {
  endpoint_id = 7;
  configuration_version = none;
  task_id = task;
  now = now;
  meanwhile = λ cs. cs;
}

dispatch-tally_example :
    ((dispatch_due_source_endpoints hourly 100 (round 1 100 ∷ round 2 101 ∷ []) [] []).due
      ≡ (dispatch_due_source_endpoints hourly 100
          (round 1 100 ∷ round 2 101 ∷ [])
          []
          []).cycle.queued
        + (dispatch_due_source_endpoints hourly 100
            (round 1 100 ∷ round 2 101 ∷ [])
            []
            []).cycle.already_claimed
        + (dispatch_due_source_endpoints hourly 100
            (round 1 100 ∷ round 2 101 ∷ [])
            []
            []).cycle.enqueue_failed)
    × (length
          (dispatch_due_source_endpoints hourly 100
            (round 1 100 ∷ round 2 101 ∷ [])
            []
            []).cycle.queue
        ≡ 0
          + (dispatch_due_source_endpoints hourly 100
              (round 1 100 ∷ round 2 101 ∷ [])
              []
              []).cycle.queued)
dispatch-tally_example = dispatch-tally hourly 100 (round 1 100 ∷ round 2 101 ∷ []) [] []

dispatch_once_example :
    count
      (is_for 7)
      (dispatch_due_source_endpoints hourly 100 (round 1 100 ∷ round 2 101 ∷ []) [] []).cycle.queue
    ≤ 0 + 1
unfolding count
dispatch_once_example =
    dispatch_once hourly 100 100 (round 1 100 ∷ round 2 101 ∷ []) [] [] 7
      (omega arith, (omega arith, tt)) (omega arith, (omega arith, tt))
      ((λ _ _ h. h), ((λ _ _ h. h), tt))

abbrev held : Claim
held = record { endpoint_id = 7; owner = 1; expires_at = 3700 }

own_poll_example :
    (begin_poll 200 3600 7 1 (held ∷ []) ≡ (true, held ∷ []))
    × (get_owner 300 7 (end_poll true 300 7 1 (held ∷ [])) ≡ none)
unfolding get_owner find?
own_poll_example = own_poll 200 300 3600 7 1 (held ∷ []) refl refl
