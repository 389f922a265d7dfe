-- ===== src/Alerts/Delays.antt =====
-- How long a delivery waits after a failed request.
use global_news_intelligence.Prelude.{
  ℕ, zero, suc, ◌-◌, ◌*◌, ◌^◌, ◌≤◌, min, String, Option, none, some, Time, ℤ, pos, negsuc, arith,
}
use global_news_intelligence.Alerts.Tables.{Delivery}
use global_news_intelligence.Alerts.{
  HeaderReader, at_least, at_int, until_date, asked_delay, retry_delay,
}

until_date-ge : (delay : ℕ) (now : Time) (o : Option Time) → delay ≤ until_date delay now o
unfolding until_date
until_date-ge delay now none = omega arith
until_date-ge delay now (some t) = omega arith

at_int-ge : (delay dated : ℕ) (o : Option ℤ) → delay ≤ dated → delay ≤ at_int delay dated o
unfolding at_int at_least
at_int-ge delay dated none h = h
at_int-ge delay dated (some (pos n)) h = omega arith
at_int-ge delay dated (some (negsuc n)) h = omega arith

-- What a header asks for never shortens the delay.
asked_delay-ge :
    (h : HeaderReader) (delay : ℕ) (now : Time) (text : Option String)
    → delay ≤ asked_delay h delay now text
unfolding asked_delay
asked_delay-ge h delay now none = omega arith
asked_delay-ge h delay now (some text) =
    at_int-ge delay _ (h.int text) (until_date-ge delay now (h.date text))

power-positive : (n : ℕ) → 1 ≤ 2 ^ n
power-positive zero = omega arith
power-positive (suc n) = omega (arith, power-positive n)

grow : (a b : ℕ) → 1 ≤ b → a ≤ a * b
grow a zero h = absurd (omega arith)
grow a (suc b) h = omega arith

-- With a maximum that is not below the base, the delay is at least the exponential one, as far as
-- the maximum allows, at least the base, and at most the maximum, whatever the `Retry-After` header
-- says and however it is read.
pub retry_delay-bounds :
    (h : HeaderReader) (d : Delivery) (now : Time) (text : Option String)
    → d.retry_base_seconds ≤ d.retry_max_seconds
    → (min (d.retry_base_seconds * (2 ^ (d.cycle_attempt_count - 1))) d.retry_max_seconds
        ≤ retry_delay h d now text)
      × (retry_delay h d now text ≤ d.retry_max_seconds)
      × (d.retry_base_seconds ≤ retry_delay h d now text)
unfolding retry_delay
retry_delay-bounds h d now text ordered =
    let asked =
      asked_delay-ge h
        (min (d.retry_base_seconds * (2 ^ (d.cycle_attempt_count - 1))) d.retry_max_seconds) now
        text in
    let grown : d.retry_base_seconds ≤ d.retry_base_seconds * (2 ^ (d.cycle_attempt_count - 1)) =
      grow d.retry_base_seconds (2 ^ (d.cycle_attempt_count - 1))
        (power-positive (d.cycle_attempt_count - 1)) in
    (omega arith, omega arith, omega arith)
