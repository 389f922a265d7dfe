-- ===== src/Workers/Tally.antt =====
-- The counts that a dispatch returns.
use global_news_intelligence.Prelude.{
  ℕ, ◌+◌, ◌≡◌, Bool, true, false, List, [], ◌∷◌, length, length-append, Time, arith,
}
use global_news_intelligence.Workers.Claims.{Claim, acquire}
use global_news_intelligence.Workers.Dispatch.{
  Message, Turn, Cycle, Broker, message_of, enqueue, claimed_turn, turn, turns,
  dispatch_due_source_endpoints,
}

-- Each round is counted once, and each queued message too.
record Tallied (n : ℕ) (c c' : Cycle) : Type 0 where
  rounds :
      c'.queued + c'.already_claimed + c'.enqueue_failed
      ≡ c.queued + c.already_claimed + c.enqueue_failed + n
  messages : length c'.queue + c.queued ≡ length c.queue + c'.queued

turn-Tallied : (b : Broker) (window : Time) (t : Turn) (c : Cycle) → Tallied 1 c (turn b window t c)
unfolding turn
turn-Tallied b window t c =
    by_claim (acquire t.now b.ttl t.endpoint_id t.task_id (t.meanwhile c.claims))
      (b.accepts (message_of window t))
  where
    by_claim :
        (r : Bool × List Claim) (accepted : Bool) → Tallied 1 c (claimed_turn accepted window t r c)
    by_claim (false, cs) accepted =
        unfold claimed_turn in record { rounds = omega arith; messages = omega arith }
    by_claim (true, cs) true =
        unfold claimed_turn enqueue in
        record {
          rounds = omega arith;
          messages = omega (arith, length-append c.queue (message_of window t ∷ []));
        }
    by_claim (true, cs) false =
        unfold claimed_turn enqueue in record { rounds = omega arith; messages = omega arith }

turns-Tallied :
    (b : Broker) (window : Time) (ts : List Turn) (c : Cycle)
    → Tallied (length ts) c (turns b window ts c)
unfolding turns
turns-Tallied b window [] c = record { rounds = omega arith; messages = omega arith }
turns-Tallied b window (t ∷ ts) c =
    let one = turn-Tallied b window t c in
    let rest = turns-Tallied b window ts (turn b window t c) in
    record {
      rounds = omega (arith, one.rounds, rest.rounds);
      messages = omega (arith, one.messages, rest.messages);
    }

-- Every due endpoint of a dispatch is counted as queued, already claimed or failed, once, and as many
-- messages are added to the queue as are counted as queued.
pub dispatch-tally :
    (b : Broker) (window : Time) (ts : List Turn) (claims : List Claim) (queue : List Message)
    → let d = dispatch_due_source_endpoints b window ts claims queue in
      (d.due ≡ d.cycle.queued + d.cycle.already_claimed + d.cycle.enqueue_failed)
      × (length d.cycle.queue ≡ length queue + d.cycle.queued)
unfolding dispatch_due_source_endpoints
dispatch-tally b window ts claims queue =
    let t = turns-Tallied b window ts (record {
      claims = claims;
      queue = queue;
      queued = 0;
      already_claimed = 0;
      enqueue_failed = 0;
    }) in
    (omega (arith, t.rounds), omega (arith, t.messages))
