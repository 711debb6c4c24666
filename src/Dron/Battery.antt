-- ===== src/Dron/Battery.antt =====
-- The battery thread and its time scale.
use Prim.Native.Nat.{min}
use so_lab_project.Prelude.{ℕ, zero, suc, ◌+◌, ◌-◌, ◌*◌, ◌≤◌, ◌≡◌, true, false, arith}
use so_lab_project.Dron.Loop.{battery_turn, battery_turns, charge_interval, usage_interval}

charging_turn : (b : ℕ) → b ≤ 100 → battery_turn true b ≡ min (b + 1) 100
unfolding battery_turn
charging_turn b h = ground arith

using_turn : (b : ℕ) → battery_turn false b ≡ b - 1
unfolding battery_turn
using_turn b = ground arith

-- From a level of at most 100, any number of turns of the battery thread adds one percent a turn up
-- to 100 while it charges, and takes one off down to 0 while it does not.
pub battery_turns-level :
    (n b : ℕ)
    → b ≤ 100
    → (battery_turns n true b ≡ min (b + n) 100) × (battery_turns n false b ≡ b - n)
unfolding battery_turns
battery_turns-level zero b h = (omega arith, omega arith)
battery_turns-level (suc n) b h =
    let up = charging_turn b h in
    let down = using_turn b in
    (
      omega (arith, up, (battery_turns-level n (battery_turn true b) (omega (arith, up))).0),
      omega (arith, down, (battery_turns-level n (battery_turn false b) (omega (arith, down))).1),
    )

-- A full charge takes no longer than the maximum charge time and at most 100 µs less; a full
-- battery lasts no longer than 2.5 times that time, and at most 100 µs less.
pub battery_time_scale :
    (t : ℕ)
    → (100 * charge_interval t ≤ t)
      × (t ≤ 100 * charge_interval t + 99)
      × (2 * (100 * usage_interval t) ≤ 5 * t)
      × (5 * t ≤ 2 * (100 * usage_interval t) + 199)
unfolding charge_interval usage_interval
battery_time_scale t = omega arith
