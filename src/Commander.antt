-- ===== src/Commander.antt =====
-- src/system_commander/system_commander.c. The commander reads the answers of `semop`, `nanosleep`
-- and `kill` in order; `checks` is what each test of `got_shutdown_requested` finds, and `views` the
-- shared memory at each time it reads it under the semaphore. A function returns its C result with
-- what is left, or `none` while it waits.
pub mod Signals
pub mod Picking
pub mod Lowering
use so_lab_project.Prelude.{
  ℕ, zero, suc, ◌≡◌, Bool, true, false, List, [], ◌∷◌, Option, none, some, ℤ, pos, negsuc, leb_ℤ,
  if◌then◌else◌,
}
use so_lab_project.Shm.{AllDronesData, get_dron_pid}
use so_lab_project.Ipc.{
  Answer, done, interrupted, timed_out, failed, minus_one, semaphore_lock, semaphore_unlock,
}

-- A call of `kill`: SIGUSR1 or SIGUSR2 to the operator, SIGUSR1 to a drone.
pub data Sent : Type 0 where
  add_drones : ℤ → Sent
  subtract_drones : ℤ → Sent
  suicide_request : ℤ → Sent

-- `sent` has the last call first.
pub record Commander : Type 0 where
  pub answers : List Answer
  pub checks : List Bool
  pub views : List AllDronesData
  pub sent : List Sent

abbrev pub Act : Type 0
Act = Commander → Option (ℤ × Commander)

abbrev pub return : ℤ → Act
return r c = some (r, c)

abbrev pub follow : Option (ℤ × Commander) → (ℤ → Act) → Option (ℤ × Commander)
follow none k = none
follow (some (r, c)) k = k r c

infixl 5 ◌>>=◌
abbrev pub ◌>>=◌ : Act → (ℤ → Act) → Act
◌>>=◌ m k c = follow (m c) k

-- `if (... == -1) return -1;` and the rest.
abbrev pub or_fail : ℤ → Act → Act
or_fail (pos z) k = k
or_fail (negsuc z) k = return minus_one

-- One `semop`, and one call of a function on the shared memory.
abbrev pub system : Option (ℤ × List Answer) → Act
system none c = none
system (some (r, rest)) c = some (r, record c { answers = rest })

abbrev pub look : List AllDronesData → (AllDronesData → ℤ) → Act
look [] f c = none
look (v ∷ vs) f c = some (f v, record c { views = vs })

-- Reads the shared memory between `semaphore_lock` and `semaphore_unlock`, then the rest.
unfoldable pub read_locked : (AllDronesData → ℤ) → (ℤ → Act) → Act
read_locked f k = (λ c. system (semaphore_lock c.answers) c) >>= λ l. or_fail l (
    (λ c. look c.views f c) >>= λ r.
    (λ c. system (semaphore_unlock c.answers) c) >>= λ u. or_fail u (k r))

-- The tests of `got_shutdown_requested`: 1 for a request.
abbrev pub find : List Bool → Act
find [] c = none
find (true ∷ rest) c = some (pos 1, record c { checks = rest })
find (false ∷ rest) c = some (pos 0, record c { checks = rest })

unfoldable pub shutdown_requested : Act
shutdown_requested c = find c.checks c

abbrev pub deliver : List Answer → Sent → Act
deliver [] m c = none
deliver (done ∷ rest) m c = some (pos 0, record c { answers = rest; sent = m ∷ c.sent })
deliver (_ ∷ rest) m c = some (minus_one, record c { answers = rest; sent = m ∷ c.sent })

-- `send_add_drones`, `send_subtract_drones` and `send_suicide`.
unfoldable pub send : Sent → Act
send m c = deliver c.answers m c

-- The loop of `mission_wait_seconds_interruptible`; how long a sleep takes is left open.
unfoldable pub wait_on : List Bool → List Answer → Commander → Option (ℤ × Commander)
wait_on [] answers c = none
wait_on (true ∷ checks) answers c = some (pos 1, record c { answers = answers; checks = checks })
wait_on (false ∷ checks) [] c = none
wait_on (false ∷ checks) (done ∷ rest) c =
    some (pos 0, record c { answers = rest; checks = checks })
wait_on (false ∷ checks) (interrupted ∷ rest) c = wait_on checks rest c
wait_on (false ∷ checks) (timed_out ∷ rest) c =
    some (minus_one, record c { answers = rest; checks = checks })
wait_on (false ∷ checks) (failed ∷ rest) c =
    some (minus_one, record c { answers = rest; checks = checks })

unfoldable pub mission_wait_seconds_interruptible : Act
unfolding wait_on
mission_wait_seconds_interruptible c = wait_on c.checks c.answers c

-- `if (got_shutdown_requested) return 0;` and the rest.
abbrev pub unless_requested : ℤ → Act → Act
unless_requested (pos zero) k = k
unless_requested (pos (suc z)) k = return (pos 0)
unless_requested (negsuc z) k = k

-- `if (w == 1) return 0; if (w == -1) return -1;` and the rest.
abbrev pub after_wait : ℤ → Act → Act
after_wait (pos zero) k = k
after_wait (pos (suc z)) k = return (pos 0)
after_wait (negsuc z) k = return minus_one

unfoldable pub pick_dron_pid_from_shm : Act
unfolding read_locked get_dron_pid
pick_dron_pid_from_shm = read_locked get_dron_pid return

-- The shape of the three loops with a number of repeats.
unfoldable pub repeat_step : ℕ → Act → Act
unfolding shutdown_requested mission_wait_seconds_interruptible
repeat_step zero body = return (pos 0)
repeat_step (suc n) body = shutdown_requested >>= λ f. unless_requested f (
    mission_wait_seconds_interruptible >>= λ w.
    after_wait w (body >>= λ b. or_fail b (repeat_step n body)))

unfoldable pub mission_step_increase_drones : ℤ → ℕ → Act
unfolding send repeat_step
mission_step_increase_drones op_pid repeats =
    repeat_step repeats (send (add_drones op_pid) >>= λ r. return (pos 0))

unfoldable pub mission_step_decrease_drones : ℤ → ℕ → Act
unfolding send repeat_step
mission_step_decrease_drones op_pid repeats =
    repeat_step repeats (send (subtract_drones op_pid) >>= λ r. return (pos 0))

-- -1 ends the step; another negative result would be passed over.
abbrev pub kill_picked : ℤ → Act
kill_picked (negsuc zero) = return minus_one
kill_picked (negsuc (suc z)) = return (pos 0)
kill_picked (pos p) = send (suicide_request (pos p)) >>= λ r. return (pos 0)

unfoldable pub mission_step_kill_drones : ℕ → Act
unfolding pick_dron_pid_from_shm send repeat_step
mission_step_kill_drones repeats = repeat_step repeats (pick_dron_pid_from_shm >>= kill_picked)

-- The loop of `mission_step_decrease_drones_to_0`, which reads the shared memory once a turn.
unfoldable pub decrease_from : List AllDronesData → ℤ → ℤ → Act
unfolding shutdown_requested read_locked send mission_wait_seconds_interruptible
decrease_from [] op_pid maximum =
    if leb_ℤ maximum (pos 0)
    then return (pos 0)
    else (shutdown_requested >>= λ f. unless_requested f (λ c. none))
decrease_from (v ∷ vs) op_pid maximum =
    if leb_ℤ maximum (pos 0)
    then return (pos 0)
    else (shutdown_requested >>= λ f. unless_requested f (
        read_locked (λ d. d.maximum_dron_in_base_count)
          λ m. send (subtract_drones op_pid) >>= λ r.
            mission_wait_seconds_interruptible >>= λ w. after_wait w (decrease_from vs op_pid m)))

-- The views that are left are those behind the first one.
unfoldable pub mission_step_decrease_drones_to_0 : ℤ → Act
unfolding read_locked decrease_from
mission_step_decrease_drones_to_0 op_pid =
    read_locked (λ d. d.maximum_dron_in_base_count) λ m c. decrease_from c.views op_pid m c

unfoldable pub run_mission_plan : ℤ → Act
unfolding mission_step_increase_drones mission_step_kill_drones mission_step_decrease_drones_to_0
run_mission_plan op_pid = mission_step_increase_drones op_pid 3 >>= λ a. or_fail a (
    mission_step_kill_drones 10 >>= λ b.
    or_fail b (mission_step_decrease_drones_to_0 op_pid >>= λ d. or_fail d (return (pos 0))))
