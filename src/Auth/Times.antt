-- ===== src/Auth/Times.antt =====
-- The functions of package time that pkg/auth uses. A time is a number of nanoseconds since the
-- year 1, where `time.Time{}` is 0, and the seconds of `Unix()` are counted from there too: they
-- are those of the code and a constant more, which cancels wherever the code compares them.
use Prim.Native.Nat.{◌/◌, ◌%◌}
use suse_ai_up.Prelude.{ℕ, ◌+◌, ◌-◌, ◌*◌, Option, none, some, if◌then◌else◌, ltb}

-- `t.Unix()`: the whole seconds.
unfoldable pub unix : (t : ℕ) → ℕ
unix t = t / 1000000000

-- `time.Unix(int64(claim), 0)`, or the zero time without the claim.
unfoldable pub from_unix : (claim : Option ℕ) → ℕ
from_unix none = 0
from_unix (some seconds) = seconds * 1000000000

-- `now.Add(time.Duration(hours) * time.Hour)`: the product is an int64, which wraps around. A
-- negative one is at most 293 years, so a time of today does not get below 0.
unfoldable pub add_hours : (now hours : ℕ) → ℕ
add_hours now hours =
    let duration = hours * 3600000000000 % 18446744073709551616 in
    if ltb duration 9223372036854775808
    then now + duration
    else now - (18446744073709551616 - duration)
