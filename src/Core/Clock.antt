-- ===== src/Core/Clock.antt =====
-- internal/core/clock.go: a Lamport clock. The mutex makes each method atomic, so a method is one
-- function from the clock before to the clock after and the result.
use acorde.Base.{ℕ, ◌+◌, ◌%◌, ◌^◌, ◌<◌, ◌≡◌, arith, ltb, if◌then◌else◌}

abbrev pub u64_mod : ℕ
u64_mod = 2 ^ 64

pub record Clock : Type 0 where
  pub time : ℕ

unfoldable pub new_clock : Clock
new_clock = record { time = 0 }

unfoldable pub new_clock_with_time : ℕ → Clock
new_clock_with_time initial_time = record { time = initial_time }

-- the increment of a uint64, which wraps around
unfoldable pub tick : Clock → Clock × ℕ
tick c = let t = (c.time + 1) % u64_mod in (record { time = t }, t)

unfoldable pub update : Clock → ℕ → Clock × ℕ
update c remote_time =
    let latest = if ltb c.time remote_time then remote_time else c.time in
    let t = (latest + 1) % u64_mod in (record { time = t }, t)

unfoldable pub now : Clock → ℕ
now c = c.time

-- Short of the last value of a uint64, `Tick` returns a time later than any before.
pub tick_lem :
    (c : Clock) → c.time + 1 < u64_mod → ((tick c).1 ≡ c.time + 1) × ((tick c).0.time ≡ c.time + 1)
unfolding tick
tick_lem c h = ground arith

-- Short of the last value of a uint64, `Update` moves the clock past its own time and past the
-- remote time, by one more than the later of the two, and returns the new time.
pub update_lem :
    (c : Clock) (remote_time : ℕ)
    → c.time + 1 < u64_mod
    → remote_time + 1 < u64_mod
    → (c.time < (update c remote_time).0.time)
      × (remote_time < (update c remote_time).0.time)
      × ((update c remote_time).0.time
          ≡ (if ltb c.time remote_time then remote_time else c.time) + 1)
      × ((update c remote_time).1 ≡ (update c remote_time).0.time)
unfolding update
update_lem c remote_time h k = ground arith
