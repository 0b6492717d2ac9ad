-- ===== src/Clock.antt =====
-- `get_time`, `set_time` and `time_shifting` of include/common/utils.h: the time that locks are taken
-- by can be set, for tests. What `time(NULL)` returns is an argument.
use spkdfs.Prelude.{ℕ, ◌+◌, ◌-◌, ◌%◌, ◌^◌, ◌≡◌, ◌<◌, arith}

-- The sum of an `int64_t` and a `uint64_t` is taken without a sign.
unfoldable pub get_time : ℕ → ℕ → ℕ
get_time time_shifting now = (time_shifting + now) % 2 ^ 64

-- The shift, as the low 64 bits of the difference. The system's time is below 2 ^ 64.
unfoldable pub set_time : ℕ → ℕ → ℕ
set_time expected now = (expected + (2 ^ 64 - now)) % 2 ^ 64

-- After the time was set, it goes on from what it was set to, as long as it does not wrap.
get_time-set_time :
    (expected now passed : ℕ)
    → now + passed < 2 ^ 64
    → expected + passed < 2 ^ 64
    → get_time (set_time expected now) (now + passed) ≡ expected + passed
unfolding get_time set_time
get_time-set_time expected now passed h k = omega (arith, h, k)
