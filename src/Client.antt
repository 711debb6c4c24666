-- ===== src/Client.antt =====
-- What a drone, the operator and the commander have in common (src/dron/dron.c,
-- src/operator/operator.c, src/system_commander/system_commander.c): how they find the objects that the
-- main process created and attach to them. They read the answers of the system in order.
pub mod Dron
pub mod Operator
pub mod Commander
pub mod Holding
pub mod Configuring
pub mod Starting
pub mod Success
pub mod Leaving
pub mod Closing
pub mod Reaping
use so_lab_project.Prelude.{
  ℕ, Bool, true, false, ◌&&◌, List, [], ◌∷◌, Option, none, some, ℤ, pos, negsuc, leb_ℤ, ltb_ℤ,
  if◌then◌else◌,
}
use so_lab_project.Ipc.{
  Answer, done, interrupted, timed_out, failed, minus_one, attempt, semaphore_lock,
  semaphore_unlock,
}
use so_lab_project.Ipc.Acts.{◌>>=◌}
use so_lab_project.Ipc.Gate.{Place}
use so_lab_project.Ipc.Objects.{
  Segment, Semaphore, shm_get, shm_attach, shm_detach, semaphore_get, grab_key_from_file,
}
use so_lab_project.Dron.{DronInternalData}
use so_lab_project.Setup.{Configuration}

-- The variables of a process and the objects behind them. `stored` is what the configuration
-- segment holds, `configuration` the local copy; `internal` is what a drone makes of it.
-- `descriptor` is the one that the system opens for the gate, and `is_fifo` what `stat` says of its
-- path. `waits` is what the calls of `wait` come back with, each when it no longer blocks: only the
-- operator waits. It ignores SIGCHLD, so that its `wait` blocks while a child runs and then fails,
-- since no child is left.
pub record Client : Type 0 where
  pub answers : List Answer
  pub waits : List Answer
  pub stored : Configuration
  pub configuration : Option Configuration
  pub internal : Option (DronInternalData × Bool)
  pub descriptor : ℕ
  pub is_fifo : Bool
  pub config : Segment
  pub config_semaphore : Semaphore
  pub all_drones : Segment
  pub stack : Segment
  pub all_drones_semaphore : Semaphore
  pub gate_semaphore : Semaphore
  pub gate : Place
  pub battery_working : Bool

abbrev pub Act : Type 0
Act = Client → Option (ℤ × Client)

abbrev pub heard : Client → List Answer → Client
heard c r = record c { answers = r }

-- One call whose failure ends the process: `sigaction`, `pthread_create`.
abbrev pub call : Act
call c = attempt c.answers (λ r. some (pos 0, heard c r)) (λ r. some (minus_one, heard c r))

-- A key: with the check of its result, and without it.
abbrev pub with_key : Client → Option (ℤ × List Answer) → Option (ℤ × Client)
with_key c none = none
with_key c (some (k, r)) = some (k, heard c r)

abbrev pub need_key : Act
need_key c = with_key c (grab_key_from_file c.answers)

abbrev pub unchecked : Option (ℤ × Client) → Option (ℤ × Client)
unchecked none = none
unchecked (some (k, c)) = some (pos 0, c)

abbrev pub any_key : Act
any_key c = unchecked (need_key c)

-- `shm_get`, `shm_attach` and `semaphore_get` with the checks of their results; `put` writes the
-- variables.
abbrev pub got :
    (Segment → Client → Client) → Client → Option (ℤ × Segment × List Answer) → Option (ℤ × Client)
got put c none = none
got put c (some (pos i, g, r)) = some (pos 0, put (record g { identifier = pos i }) (heard c r))
got put c (some (negsuc k, g, r)) =
    some (minus_one, put (record g { identifier = minus_one }) (heard c r))

abbrev pub attached_to :
    (Segment → Client → Client)
    → Client
    → Option (Bool × Segment × List Answer)
    → Option (ℤ × Client)
attached_to put c none = none
attached_to put c (some (true, g, r)) = some (pos 0, put (record g { mapped = true }) (heard c r))
attached_to put c (some (false, g, r)) =
    some (minus_one, put (record g { mapped = false }) (heard c r))

abbrev pub found :
    (Semaphore → Client → Client)
    → Client
    → Option (ℤ × Semaphore × List Answer)
    → Option (ℤ × Client)
found put c none = none
found put c (some (pos i, s, r)) = some (pos 0, put (record s { identifier = pos i }) (heard c r))
found put c (some (negsuc k, s, r)) =
    some (minus_one, put (record s { identifier = minus_one }) (heard c r))

abbrev pub put_config : Segment → Client → Client
put_config g c = record c { config = g }

abbrev pub put_all_drones : Segment → Client → Client
put_all_drones g c = record c { all_drones = g }

abbrev pub put_stack : Segment → Client → Client
put_stack g c = record c { stack = g }

abbrev pub put_config_semaphore : Semaphore → Client → Client
put_config_semaphore s c = record c { config_semaphore = s }

abbrev pub put_all_drones_semaphore : Semaphore → Client → Client
put_all_drones_semaphore s c = record c { all_drones_semaphore = s }

abbrev pub put_gate_semaphore : Semaphore → Client → Client
put_gate_semaphore s c = record c { gate_semaphore = s }

-- The two segments and their semaphore, behind the keys.
abbrev pub get_all_drones : Act
get_all_drones c = got put_all_drones c (shm_get c.all_drones c.answers)

abbrev pub attach_all_drones : Act
attach_all_drones c = attached_to put_all_drones c (shm_attach c.all_drones c.answers)

abbrev pub get_stack : Act
get_stack c = got put_stack c (shm_get c.stack c.answers)

abbrev pub attach_stack : Act
attach_stack c = attached_to put_stack c (shm_attach c.stack c.answers)

abbrev pub get_all_drones_semaphore : Act
get_all_drones_semaphore c =
    found put_all_drones_semaphore c (semaphore_get c.all_drones_semaphore c.answers)

-- The end of a process: `none` while it waits.
abbrev pub Ending : Type 0
Ending = Client → Option Client

-- A segment that is attached: detach, whose failure is only reported, and forget.
abbrev pub forgotten : Option (ℤ × Segment × List Answer) → Option (Segment × List Answer)
forgotten none = none
forgotten (some (k, g, r)) = some (record g { mapped = false; identifier = minus_one }, r)

unfoldable pub leave_segment : Segment → List Answer → Option (Segment × List Answer)
unfolding shm_detach
leave_segment g answers =
    if leb_ℤ (pos 0) g.identifier && g.mapped
    then forgotten (shm_detach g answers)
    else some (g, answers)

abbrev pub written {ℓ} :
    {R : Type ℓ} → (R → Client → Client) → Client → Option (R × List Answer) → Option Client
written put c none = none
written put c (some (x, r)) = some (put x (heard c r))

abbrev pub leave_all_drones : Ending
leave_all_drones c = written put_all_drones c (leave_segment c.all_drones c.answers)

abbrev pub leave_stack : Ending
leave_stack c = written put_stack c (leave_segment c.stack c.answers)
