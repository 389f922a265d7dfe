-- ===== src/RateLimit/Provision.antt =====
-- `_ensure_default_buckets`: a binding and a bucket for every target that has none.
use global_news_intelligence.Prelude.{
  ℕ, ◌+◌, str_eq, Bool, ◌&&◌, Option, none, some, List, [], ◌∷◌, ◌++◌, find?, Result, ok, ◌>>=◌,
  or_raise, rate_limit_error, Time, ◌==◌,
}
use global_news_intelligence.RateLimit.Tables.{
  Scope, same_scope, Policy, Binding, Bucket, RateDb, is_null,
}

-- `binding = existing.get(target.identity)`, and the new row if there is none
unfoldable pub add_binding : Policy → Scope → RateDb → Option Binding → Binding × RateDb
add_binding default scope s (some b) = (b, s)
add_binding default scope s none =
    let b : Binding = record {
      id = s.next_binding_id;
      policy_id = default.id;
      scope = scope;
      valid_to = none;
    } in
    (b, record s { bindings = s.bindings ++ b ∷ []; next_binding_id = s.next_binding_id + 1 })

unfoldable pub ensure_binding : Policy → Scope → RateDb → Binding × RateDb
unfolding add_binding
ensure_binding default scope s =
    add_binding default scope s
      (find? (λ (b : Binding). same_scope b.scope scope && is_null b.valid_to) s.bindings)

-- `db_now` is the value of the columns' default, the start of the transaction.
unfoldable pub new_bucket : Time → ℕ → Binding → Scope → Bucket
new_bucket db_now id b scope = record {
  id = id;
  binding_id = b.id;
  scope = scope;
  window_started_at = db_now;
  request_count = 0;
  daily_window_started_at = db_now;
  daily_request_count = 0;
  active_concurrency = 0;
  last_request_at = none;
  blocked_until = none;
  provider_reset_at = none;
  next_eligible_at = none;
}

unfoldable pub add_bucket : Time → Scope → Binding → RateDb → Option Bucket → RateDb
unfolding new_bucket
add_bucket db_now scope b s (some _) = s
add_bucket db_now scope b s none = record s {
  buckets = s.buckets ++ new_bucket db_now s.next_bucket_id b scope ∷ [];
  next_bucket_id = s.next_bucket_id + 1;
}

unfoldable pub ensure_bucket : Time → Scope → Binding × RateDb → RateDb
unfolding add_bucket
ensure_bucket db_now scope (b, s) =
    add_bucket db_now scope b s (find? (λ (x : Bucket). x.binding_id == b.id) s.buckets)

unfoldable pub ensure_each : Time → Policy → List Scope → RateDb → RateDb
unfolding ensure_binding ensure_bucket
ensure_each db_now default [] s = s
ensure_each db_now default (t ∷ ts) s =
    ensure_each db_now default ts (ensure_bucket db_now t (ensure_binding default t s))

abbrev pub is_installation_default : Policy → Bool
is_installation_default p =
    str_eq p.slug "phase3-installation-default" && str_eq p.version "1" && is_null p.valid_to

unfoldable pub ensure_default_buckets : Time → List Scope → RateDb → Result RateDb
unfolding ensure_each
ensure_default_buckets db_now scopes s = do
  default ← or_raise (find? is_installation_default s.policies) rate_limit_error
  ok (ensure_each db_now default scopes s)
