-- ===== src/Ble/Commands/Time.antt =====
-- Lock minutes and moments.
use onesti_lock.Base.{ℕ, ◌+◌, ◌*◌, ◌≤◌, ◌<◌, pos, ok, some, ◌≡◌, arith}
use onesti_lock.Ble.Commands.{Moment, aware, minute, datetime_minutes, to_lock_time, from_lock_time}

-- Whole minutes survive the way to a moment and back; a moment loses less than a minute.
pub to_lock_time-from_lock_time :
    (m : ℕ) (moment : Moment) → from_lock_time m ≡ some moment → to_lock_time moment ≡ ok m
unfolding from_lock_time to_lock_time
to_lock_time-from_lock_time m moment e = ground arith

-- Where `to_lock_time` takes a moment that a datetime can hold, the moment that its answer names
-- is at most a minute before it.
pub from_lock_time-to_lock_time :
    (t m : ℕ)
    → to_lock_time (aware (pos t)) ≡ ok m
    → t < datetime_minutes * minute
    → (u : ℕ) × (from_lock_time m ≡ some (aware (pos u))) × (u ≤ t) × (t < u + minute)
unfolding from_lock_time to_lock_time
from_lock_time-to_lock_time t m e h = (m * minute, ground arith, ground arith, ground arith)
