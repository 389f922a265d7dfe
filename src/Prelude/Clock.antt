-- ===== src/Prelude/Clock.antt =====
-- Python's `datetime` and `timedelta`: microseconds since the first instant of year 1, and a signed
-- number of microseconds. Sums that leave the years 1 to 9999 raise in Python; here they are
-- unbounded above and stop at 0 below.
use Prim.Native.Nat.{ℕ, suc, ◌+◌, ◌-◌, ◌*◌, ◌<◌}
use mathlib.Core.Path.{◌≡◌}
use mathlib.Core.Bool.{Bool, true, false}
use global_news_intelligence.Prelude.Tests.{ltb}
use native.Mathlib.Omega.{arith}

abbrev pub Time : Type 0
Time = ℕ

-- `negsuc n` is -(n + 1)
pub data ℤ : Type 0 where
  pos : ℕ → ℤ
  negsuc : ℕ → ℤ

abbrev pub shift : Time → ℤ → Time
shift t (pos n) = t + n
shift t (negsuc n) = t - suc n

-- `delta > timedelta(0)`
abbrev pub is_positive : ℤ → Bool
is_positive (pos n) = ltb 0 n
is_positive (negsuc n) = false

-- `timedelta(seconds=n)`
abbrev pub seconds : ℕ → ℕ
seconds n = n * 1000000

-- `timedelta(days=1)`
abbrev pub one_day : ℕ
one_day = 86400000000

pub lt-shift : (t : Time) (d : ℤ) → is_positive d ≡ true → t < shift t d
lt-shift t (pos n) h = ground arith
lt-shift t (negsuc n) h = ground arith
