-- ===== src/Dron/Loop.antt =====
-- `main`, the registration and the battery thread of src/dron/dron.c.
use so_lab_project.Prelude.{
  ℕ, zero, suc, ◌+◌, ◌-◌, ◌*◌, ◌/◌, Bool, true, false, ◌||◌, List, [], ◌∷◌, ℤ, pos, negsuc, ltb,
  if◌then◌else◌,
}
use so_lab_project.Shm.{is_base, is_mission}
use so_lab_project.Ipc.{minus_one}
use so_lab_project.Dron.{Registration, no_room, no_memory, placed, register, registered}
use so_lab_project.Dron.Code.{
  World, Outcome, blocked, Code, return, ◌>>=◌, follow, or_fail, close_main, lock, unlock,
  process_sigusr1, battery_state_check, force_base_return, force_leave_base,
}

-- What follows the lock in `try_adding_self_to_shm`. A refusal returns with the semaphore held.
unfoldable pub register_self : World → Registration → Outcome × World
unfolding unlock
register_self w no_room = return minus_one w
register_self w (no_memory sh) = return minus_one (record w {
  shared = sh;
  me = record (w.me) { my_index = minus_one; my_id = w.shared.all.next_dron_id };
})
register_self w (placed i id sh) =
    (unlock >>= λ u. or_fail u (return (pos 0)))
      (record w { shared = sh; me = registered w.me i id })

unfoldable pub try_adding_self_to_shm : Code
unfolding lock register_self
try_adding_self_to_shm =
    lock >>= λ l. or_fail l λ w. register_self w (register w.shared w.local_data)

-- `if (... != 0) close_main(EXIT_FAILURE)` and the rest.
abbrev pub or_close : ℤ → Code → Code
or_close (pos zero) k = k
or_close (pos (suc c)) k = close_main 1
or_close (negsuc c) k = close_main 1

-- `if (... < 0) close_main(EXIT_FAILURE)` and the rest.
abbrev pub or_close_negative : ℤ → Code → Code
or_close_negative (pos c) k = k
or_close_negative (negsuc c) k = close_main 1

-- The end of a round: back to the base, or out of it.
unfoldable pub travel : Code
unfolding force_base_return force_leave_base close_main
travel w =
    if is_mission w.me.location
    then (force_base_return >>= λ r. or_close_negative r (return (pos 0))) w
    else if is_base w.me.location
    then (force_leave_base >>= λ r. or_close_negative r (return (pos 0))) w
    else return (pos 0) w

-- The battery check and what follows it.
unfoldable pub check_and_travel : Code
unfolding battery_state_check travel
check_and_travel = battery_state_check >>= λ r. or_close r travel

-- One round of the loop in `main`.
unfoldable pub round : Code
unfolding process_sigusr1 check_and_travel
round w =
    if w.got_sigusr1
    then (process_sigusr1 >>= λ r. or_close r check_and_travel) w
    else check_and_travel w

-- What happens to the process between two rounds: the battery, and the signals that came in.
pub record Meanwhile : Type 0 where
  pub battery : ℕ
  pub sigusr1 : Bool
  pub shutdown : Bool

abbrev pub elapse : Meanwhile → World → World
elapse e w = record w {
  battery_percentage = e.battery;
  got_sigusr1 = w.got_sigusr1 || e.sigusr1;
  got_shutdown_requested = w.got_shutdown_requested || e.shutdown;
}

-- The loop in `main`, for as long as the list says what happens meanwhile.
unfoldable pub main_loop : List Meanwhile → Code
unfolding round
main_loop [] w = (blocked, w)
main_loop (e ∷ es) w =
    let v : World = elapse e w in
    let rest = follow (round v) (λ r. main_loop es) in
    if v.got_shutdown_requested then close_main 0 v else rest

-- One turn of the loop in `battery`.
unfoldable pub battery_turn : (is_charging : Bool) → ℕ → ℕ
battery_turn true b = if ltb b 100 then b + 1 else b
battery_turn false b = if ltb 0 b then b - 1 else b

unfoldable pub battery_turns : ℕ → Bool → ℕ → ℕ
unfolding battery_turn
battery_turns zero charging b = b
battery_turns (suc n) charging b = battery_turns n charging (battery_turn charging b)

-- `BatteryThreadArgs` in `main`: microseconds for one percent. C computes the second one as
-- (int)((t * 2.5) / 100.) in `double`; below 2 ^ 31 this is the integer quotient.
unfoldable pub charge_interval : ℕ → ℕ
charge_interval t = t / 100

unfoldable pub usage_interval : ℕ → ℕ
usage_interval t = t * 25 / 1000
