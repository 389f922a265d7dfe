-- ===== src/Workers/Dispatch.antt =====
-- workers/scheduler/tasks.py and workers/ingestion/tasks.py: due endpoints are claimed and queued, a
-- polling task owns its endpoint or leaves it alone.
use global_news_intelligence.Prelude.{
  ℕ, ◌+◌, ◌==◌, String, Bool, true, false, Option, none, some, List, [], ◌∷◌, ◌++◌, length, Time,
  if◌then◌else◌,
}
use global_news_intelligence.Workers.Claims.{Claim, get_owner, acquire, release}

-- A message of the queue `ingestion`, which polls an endpoint.
pub record Message : Type 0 where
  pub endpoint_id : ℕ
  pub schedule_window : Time
  pub configuration_version : Option String
  pub task_id : ℕ

-- One round of the loop: a due endpoint, the task id that is drawn, the time, and what workers have
-- done to the claims since the round before.
pub record Turn : Type 0 where
  pub endpoint_id : ℕ
  pub configuration_version : Option String
  pub task_id : ℕ
  pub now : Time
  pub meanwhile : List Claim → List Claim

-- Redis, the queue, and the counters of the loop.
pub record Cycle : Type 0 where
  pub claims : List Claim
  pub queue : List Message
  pub queued : ℕ
  pub already_claimed : ℕ
  pub enqueue_failed : ℕ

unfoldable pub message_of : Time → Turn → Message
message_of window t = record {
  endpoint_id = t.endpoint_id;
  schedule_window = window;
  configuration_version = t.configuration_version;
  task_id = t.task_id;
}

-- `apply_async` either queues the message or raises, and then the claim is given up.
unfoldable pub enqueue : Bool → Time → Turn → List Claim → Cycle → Cycle
unfolding message_of
enqueue true window t cs c = record c {
  claims = cs;
  queue = c.queue ++ message_of window t ∷ [];
  queued = c.queued + 1;
}
enqueue false window t cs c = record c {
  claims = (release t.now t.endpoint_id t.task_id cs).1;
  enqueue_failed = c.enqueue_failed + 1;
}

unfoldable pub claimed_turn : Bool → Time → Turn → Bool × List Claim → Cycle → Cycle
unfolding enqueue
claimed_turn accepted window t (false, cs) c = record c {
  claims = cs;
  already_claimed = c.already_claimed + 1;
}
claimed_turn accepted window t (true, cs) c = enqueue accepted window t cs c

-- What does not come from the loop: the time to live of a claim and the broker's answers.
pub record Broker : Type 0 where
  pub ttl : ℕ
  pub accepts : Message → Bool

unfoldable pub turn : Broker → Time → Turn → Cycle → Cycle
unfolding claimed_turn message_of
turn b window t c =
    claimed_turn (b.accepts (message_of window t)) window t
      (acquire t.now b.ttl t.endpoint_id t.task_id (t.meanwhile c.claims)) c

unfoldable pub turns : Broker → Time → List Turn → Cycle → Cycle
unfolding turn
turns b window [] c = c
turns b window (t ∷ ts) c = turns b window ts (turn b window t c)

-- The result of `dispatch_due_source_endpoints`, with what it leaves in Redis and in the queue.
pub record Dispatched : Type 0 where
  pub due : ℕ
  pub cycle : Cycle

unfoldable pub dispatch_due_source_endpoints :
    Broker → Time → List Turn → List Claim → List Message → Dispatched
unfolding turns
dispatch_due_source_endpoints b window ts claims queue = record {
  due = length ts;
  cycle = turns b window ts (record {
    claims = claims;
    queue = queue;
    queued = 0;
    already_claimed = 0;
    enqueue_failed = 0;
  });
}

unfoldable pub own : Time → ℕ → ℕ → ℕ → Option ℕ → List Claim → Bool × List Claim
own now ttl endpoint task none cs = acquire now ttl endpoint task cs
own now ttl endpoint task (some x) cs = (x == task, cs)

-- `poll_source_endpoint_task` up to the poll: whether the task owns the endpoint.
unfoldable pub begin_poll : Time → ℕ → ℕ → ℕ → List Claim → Bool × List Claim
unfolding own
begin_poll now ttl endpoint task cs = own now ttl endpoint task (get_owner now endpoint cs) cs

-- Its `finally` block.
unfoldable pub end_poll : Bool → Time → ℕ → ℕ → List Claim → List Claim
end_poll owns now endpoint task cs = if owns then (release now endpoint task cs).1 else cs
