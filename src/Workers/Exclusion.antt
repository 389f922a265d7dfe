-- ===== src/Workers/Exclusion.antt =====
-- One message and one owner for each endpoint.
use global_news_intelligence.Prelude.{
  ℕ, ◌+◌, ◌≤◌, ◌<◌, ◌≡◌, refl, subst, ◌⊎◌, All-mono, ◌==◌, Bool, true, false, none, some, List, [],
  ◌∷◌, ◌++◌, any, count, count-append, All, Time, arith, Bool-cases, inl, inr,
}
use global_news_intelligence.Workers.Claims.{Claim, get_owner, acquire, delete_if, release}
use global_news_intelligence.Workers.Dispatch.{
  Message, Turn, Cycle, Broker, message_of, enqueue, claimed_turn, turn, turns,
  dispatch_due_source_endpoints, own, begin_poll, end_poll,
}
use global_news_intelligence.Workers.Lasting.{
  lasts, acquire-refused, acquire_other, release_other, acquire-lasts, none_live,
}

abbrev pub is_for : ℕ → Message → Bool
is_for endpoint m = m.endpoint_id == endpoint

-- The endpoint stays claimed, and no message for it is queued.
record Shut (endpoint : ℕ) (until : Time) (c c' : Cycle) : Type 0 where
  claimed : any (lasts endpoint until) c'.claims ≡ true
  queue : count (is_for endpoint) c'.queue ≡ count (is_for endpoint) c.queue

-- Between the rounds nobody gives up a claim on the endpoint before it ends.
abbrev pub KeepsClaims : ℕ → Turn → Type 0
KeepsClaims endpoint t =
    (until : Time) (cs : List Claim)
    → any (lasts endpoint until) cs ≡ true
    → any (lasts endpoint until) (t.meanwhile cs) ≡ true

-- A message for another endpoint does not count.
other_queue :
    (window : Time) (t : Turn) (endpoint : ℕ) (ms : List Message)
    → (t.endpoint_id == endpoint) ≡ false
    → count (is_for endpoint) (ms ++ message_of window t ∷ []) ≡ count (is_for endpoint) ms
unfolding message_of count
other_queue window t endpoint ms e =
    ground (arith, count-append (is_for endpoint) ms (message_of window t ∷ []))

other_turn :
    (b : Broker) (window until : Time) (t : Turn) (endpoint : ℕ) (c : Cycle)
    → (t.endpoint_id == endpoint) ≡ false
    → any (lasts endpoint until) (t.meanwhile c.claims) ≡ true
    → Shut endpoint until c (turn b window t c)
unfolding turn
other_turn b window until t endpoint c e k =
    by_claim (acquire t.now b.ttl t.endpoint_id t.task_id (t.meanwhile c.claims))
      (b.accepts (message_of window t))
      (acquire_other t.now until b.ttl endpoint t.endpoint_id t.task_id (t.meanwhile c.claims) e k)
  where
    by_claim :
        (r : Bool × List Claim) (accepted : Bool)
        → any (lasts endpoint until) r.1 ≡ true
        → Shut endpoint until c (claimed_turn accepted window t r c)
    by_claim (false, cs) accepted h = unfold claimed_turn in record { claimed = h; queue = refl }
    by_claim (true, cs) true h =
        unfold claimed_turn enqueue in
        record { claimed = h; queue = other_queue window t endpoint c.queue e }
    by_claim (true, cs) false h =
        unfold claimed_turn enqueue in
        record {
          claimed = release_other t.now until endpoint t.endpoint_id t.task_id cs e h;
          queue = refl;
        }

claimed_endpoint :
    (b : Broker) (window until : Time) (ts : List Turn) (endpoint : ℕ) (c : Cycle)
    → All (λ (t : Turn). t.now < until) ts
    → All (KeepsClaims endpoint) ts
    → any (lasts endpoint until) c.claims ≡ true
    → count (is_for endpoint) (turns b window ts c).queue ≡ count (is_for endpoint) c.queue
unfolding turns
claimed_endpoint b window until [] endpoint c v keeps k = refl
claimed_endpoint b window until (t ∷ ts) endpoint c v keeps k =
    let k' : any (lasts endpoint until) (t.meanwhile c.claims) ≡ true = keeps.0 until c.claims k in
    elim (Bool-cases (t.endpoint_id == endpoint)) [
      | inr other ↦
          let s = other_turn b window until t endpoint c other k' in
          omega (
            arith,
            s.queue,
            claimed_endpoint b window until ts endpoint (turn b window t c) v.1 keeps.1 s.claimed,
          )
      | inl mine ↦
          let same : t.endpoint_id ≡ endpoint = ground arith in
          let refused : acquire t.now b.ttl t.endpoint_id t.task_id (t.meanwhile c.claims)
              ≡ (false, t.meanwhile c.claims) =
            acquire-refused t.now until b.ttl t.endpoint_id t.task_id (t.meanwhile c.claims) v.0
              (rw same k') in
          let idle : record c {
            claims = t.meanwhile c.claims;
            already_claimed = c.already_claimed + 1;
          }
              ≡ turn b window t c =
            unfold turn claimed_turn in rw refused refl in
          subst
            (λ x.
              count (is_for endpoint) (turns b window ts x).queue ≡ count (is_for endpoint) c.queue)
            idle
            (claimed_endpoint b window until ts endpoint
              (record c { claims = t.meanwhile c.claims; already_claimed = c.already_claimed + 1 })
              v.1 keeps.1 k')
    ]

-- A round queues nothing for the endpoint, or one message under a claim that lasts.
Effect : ℕ → ℕ → Turn → Cycle → Cycle → Type 0
Effect ttl endpoint t c c' =
    (count (is_for endpoint) c'.queue ≡ count (is_for endpoint) c.queue)
    ⊎ ((count (is_for endpoint) c'.queue ≡ count (is_for endpoint) c.queue + 1)
        × (any (lasts endpoint (t.now + ttl)) c'.claims ≡ true))

turn-Effect :
    (b : Broker) (window : Time) (t : Turn) (endpoint : ℕ) (c : Cycle)
    → Effect b.ttl endpoint t c (turn b window t c)
unfolding turn Effect
turn-Effect b window t endpoint c =
    by_claim (acquire t.now b.ttl t.endpoint_id t.task_id (t.meanwhile c.claims))
      (b.accepts (message_of window t)) refl
  where
    by_claim :
        (r : Bool × List Claim) (accepted : Bool)
        → acquire t.now b.ttl t.endpoint_id t.task_id (t.meanwhile c.claims) ≡ r
        → Effect b.ttl endpoint t c (claimed_turn accepted window t r c)
    by_claim (false, cs) accepted e = unfold claimed_turn in inl refl
    by_claim (true, cs) false e = unfold claimed_turn enqueue in inl refl
    by_claim (true, cs) true e = elim (Bool-cases (t.endpoint_id == endpoint)) [
      | inr other ↦ unfold claimed_turn enqueue in inl (other_queue window t endpoint c.queue other)
      | inl mine ↦
          let same : t.endpoint_id ≡ endpoint = ground arith in
          let until : any (lasts endpoint (t.now + b.ttl)) cs ≡ true =
            rw (← same)
              (acquire-lasts t.now b.ttl t.endpoint_id t.task_id (t.meanwhile c.claims) cs e) in
          unfold claimed_turn enqueue message_of count in
          inr (
            ground (arith, count-append (is_for endpoint) c.queue (message_of window t ∷ [])),
            until,
          )
    ]

queued_once :
    (b : Broker) (window start : Time) (ts : List Turn) (endpoint : ℕ) (c : Cycle)
    → All (λ (t : Turn). start ≤ t.now) ts
    → All (λ (t : Turn). t.now < start + b.ttl) ts
    → All (KeepsClaims endpoint) ts
    → count (is_for endpoint) (turns b window ts c).queue ≤ count (is_for endpoint) c.queue + 1
unfolding turns Effect
queued_once b window start [] endpoint c v w keeps = omega arith
queued_once b window start (t ∷ ts) endpoint c v w keeps =
    elim (turn-Effect b window t endpoint c) [
      | inl n ↦
          omega
            (arith, n, queued_once b window start ts endpoint (turn b window t c) v.1 w.1 keeps.1)
      | inr (n, k) ↦ omega (
        arith,
        n,
        claimed_endpoint b window (t.now + b.ttl) ts endpoint (turn b window t c)
            (All-mono _ _ ts (λ u early. omega (arith, v.0)) w.1) keeps.1 k,
      )
    ]

-- A dispatch that ends before a claim made at its start would expire queues at most one message for
-- an endpoint, however often the endpoint is due, unless a worker gives up a claim on it while the
-- dispatch runs.
pub dispatch_once :
    (b : Broker) (window start : Time) (ts : List Turn) (claims : List Claim) (queue : List Message)
    (endpoint : ℕ)
    → All (λ (t : Turn). start ≤ t.now) ts
    → All (λ (t : Turn). t.now < start + b.ttl) ts
    → All (KeepsClaims endpoint) ts
    → count (is_for endpoint) (dispatch_due_source_endpoints b window ts claims queue).cycle.queue
      ≤ count (is_for endpoint) queue + 1
unfolding dispatch_due_source_endpoints
dispatch_once b window start ts claims queue endpoint v w keeps =
    queued_once b window start ts endpoint
      (record {
        claims = claims;
        queue = queue;
        queued = 0;
        already_claimed = 0;
        enqueue_failed = 0;
      })
      v w keeps

-- A task whose claim was set by the scheduler owns the endpoint while the claim lasts, and its end
-- leaves the endpoint without an owner.
pub own_poll :
    (now later ttl endpoint task : ℕ) (cs : List Claim)
    → get_owner now endpoint cs ≡ some task
    → get_owner later endpoint cs ≡ some task
    → (begin_poll now ttl endpoint task cs ≡ (true, cs))
      × (get_owner later endpoint (end_poll true later endpoint task cs) ≡ none)
unfolding begin_poll own end_poll release delete_if
own_poll now later ttl endpoint task cs h k =
    let mine : (task == task) ≡ true = ground arith in
    (rw (h, mine) refl, rw (k, mine) (unfold get_owner in rw (none_live later endpoint cs) refl))
