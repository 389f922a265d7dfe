-- ===== src/RateLimit/Windows.antt =====
-- One bucket under its policy: `_refresh_windows`, `_next_eligible` and the counters that a
-- reservation raises (app/services/acquisition_rate_limit_service.py).
pub mod Bounds
use global_news_intelligence.Prelude.{
  ℕ, ◌+◌, ◌-◌, max, Bool, true, false, Option, none, some, List, [], ◌∷◌, ◌++◌, Time, seconds,
  one_day, ltb, leb, if◌then◌else◌,
}
use global_news_intelligence.RateLimit.Tables.{Bucket, Policy}

unfoldable pub refresh_windows : Bucket → Policy → Time → Bucket
refresh_windows b p now =
    let period =
      if leb (b.window_started_at + seconds p.period_seconds) now
      then record b { window_started_at = now; request_count = 0 }
      else b in
    if leb (period.daily_window_started_at + one_day) now
    then record period { daily_window_started_at = now; daily_request_count = 0 }
    else period

-- A hold that lies ahead is a candidate.
unfoldable pub hold : Option Time → Time → List Time
hold none now = []
hold (some t) now = if ltb now t then t ∷ [] else []

unfoldable pub over_budget : Option ℕ → ℕ → Bool
over_budget none n = false
over_budget (some budget) n = leb budget n

-- `bucket.last_request_at` plus the spacing, if it lies ahead
unfoldable pub spacing : Option Time → ℕ → Time → List Time
unfolding hold
spacing none gap now = []
spacing (some t) gap now = hold (some (t + seconds gap)) now

unfoldable pub candidates : Bucket → Policy → Time → List Time
unfolding hold over_budget spacing
candidates b p now =
    hold b.blocked_until now
    ++ (hold b.provider_reset_at now
        ++ ((if leb p.max_concurrency b.active_concurrency then (now + seconds 1) ∷ [] else [])
            ++ ((if leb (p.requests_per_period + p.burst_size - 1) b.request_count
                  then (b.window_started_at + seconds p.period_seconds) ∷ []
                  else [])
                ++ ((if over_budget p.daily_request_budget b.daily_request_count
                      then (b.daily_window_started_at + one_day) ∷ []
                      else [])
                    ++ spacing b.last_request_at p.minimum_request_spacing_seconds now))))

-- `max(values) if values else None`
unfoldable pub maximum : List Time → Option Time
maximum [] = none
maximum (t ∷ ts) = elim (maximum ts) [ none ↦ some t | some u ↦ some (max t u) ]

unfoldable pub next_eligible : Bucket → Policy → Time → Option Time
unfolding candidates maximum
next_eligible b p now = maximum (candidates b p now)

-- What a reservation does to each of its buckets.
unfoldable pub count_request : Time → Bucket → Bucket
count_request now b = record b {
  request_count = b.request_count + 1;
  daily_request_count = b.daily_request_count + 1;
  active_concurrency = b.active_concurrency + 1;
  last_request_at = some now;
  next_eligible_at = none;
}
