-- ===== src/Main/Launch.antt =====
-- The set-up of the main process (src/main.c): the segments, the semaphores, the gate and the two
-- children that it creates. It reads the answers of the system in order; a function returns its C
-- result, or `none` while it waits.
pub mod Sound
pub mod Leading
pub mod Stages
pub mod Success
use so_lab_project.Prelude.{
  ℕ, ◌+◌, ◌-◌, Bool, true, false, ◌&&◌, List, [], ◌∷◌, Option, none, some, ℤ, pos, negsuc, leb_ℤ,
  ltb_ℤ, if◌then◌else◌,
}
use so_lab_project.Stack.{Stack}
use so_lab_project.Shm.{DronData, AllDronesData}
use so_lab_project.Ipc.{Answer, done, interrupted, timed_out, failed, minus_one, attempt}
use so_lab_project.Ipc.Acts.{◌>>=◌}
use so_lab_project.Ipc.Gate.{Place, fifo_sem_create, fifo_sem_destroy}
use so_lab_project.Ipc.Objects.{
  Segment, Semaphore, shm_create, shm_attach, shm_detach, shm_destroy, semaphore_create,
  semaphore_delete, grab_key_from_file,
}
use so_lab_project.Dron.{Shared}
use so_lab_project.Setup.{Configuration, Settings, create_shm_all_drones_data}

-- The variables of the main process and the objects behind them. `raw_drones` and `raw_stack` are what
-- the two fresh segments hold, `configured` and `launched` what is written to the segments;
-- `descriptor` is the one that the system opens for the gate, and `children` the pids that `fork`
-- returns for the operator and the commander.
pub record Main : Type 0 where
  pub answers : List Answer
  pub settings : Settings
  pub raw_drones : List DronData
  pub raw_stack : Stack ℕ
  pub descriptor : ℕ
  pub children : ℕ × ℕ
  pub config : Segment
  pub all_drones : Segment
  pub stack : Segment
  pub config_semaphore : Semaphore
  pub all_drones_semaphore : Semaphore
  pub gate_semaphore : Semaphore
  pub gate : Place
  pub operator_pid : ℤ
  pub system_commander_pid : ℤ
  pub configured : Option Configuration
  pub launched : Option Shared

abbrev pub Act : Type 0
Act = Main → Option (ℤ × Main)

abbrev pub heard : Main → List Answer → Main
heard m r = record m { answers = r }

-- A key: with the check of its result, and without it.
abbrev pub with_key : Main → Option (ℤ × List Answer) → Option (ℤ × Main)
with_key m none = none
with_key m (some (c, r)) = some (c, heard m r)

abbrev pub need_key : Act
need_key m = with_key m (grab_key_from_file m.answers)

abbrev pub unchecked : Option (ℤ × Main) → Option (ℤ × Main)
unchecked none = none
unchecked (some (c, m)) = some (pos 0, m)

abbrev pub any_key : Act
any_key m = unchecked (need_key m)

-- `shm_create` and `shm_attach` with the checks of their results; `put` writes the variables.
abbrev pub attached_to :
    (Segment → Main → Main) → Main → Option (Bool × Segment × List Answer) → Option (ℤ × Main)
attached_to put m none = none
attached_to put m (some (true, g, r)) = some (pos 0, put (record g { mapped = true }) (heard m r))
attached_to put m (some (false, g, r)) =
    some (minus_one, put (record g { mapped = false }) (heard m r))

abbrev pub created :
    (Segment → Main → Main) → Main → Option (ℤ × Segment × List Answer) → Option (ℤ × Main)
created put m none = none
created put m (some (pos i, g, r)) =
    attached_to put m (shm_attach (record g { identifier = pos i }) r)
created put m (some (negsuc c, g, r)) =
    some (minus_one, put (record g { identifier = minus_one }) (heard m r))

unfoldable pub create_segment : (Segment → Main → Main) → Segment → Act
unfolding shm_create shm_attach
create_segment put g m = created put m (shm_create g m.answers)

-- `semaphore_create` with the check of its result.
abbrev pub raised :
    (Semaphore → Main → Main) → Main → Option (ℤ × Semaphore × List Answer) → Option (ℤ × Main)
raised put m none = none
raised put m (some (pos i, s, r)) = some (pos 0, put (record s { identifier = pos i }) (heard m r))
raised put m (some (negsuc c, s, r)) =
    some (minus_one, put (record s { identifier = minus_one }) (heard m r))

unfoldable pub create_semaphore : (Semaphore → Main → Main) → Semaphore → ℤ → Act
unfolding semaphore_create
create_semaphore put s starting_value m = raised put m (semaphore_create s starting_value m.answers)

abbrev pub put_config : Segment → Main → Main
put_config g m = record m { config = g }

abbrev pub put_all_drones : Segment → Main → Main
put_all_drones g m = record m { all_drones = g }

abbrev pub put_stack : Segment → Main → Main
put_stack g m = record m { stack = g }

abbrev pub put_config_semaphore : Semaphore → Main → Main
put_config_semaphore s m = record m { config_semaphore = s }

abbrev pub put_all_drones_semaphore : Semaphore → Main → Main
put_all_drones_semaphore s m = record m { all_drones_semaphore = s }

abbrev pub put_gate_semaphore : Semaphore → Main → Main
put_gate_semaphore s m = record m { gate_semaphore = s }

abbrev pub configure : Act
configure m = some (pos 0, record m { configured = some m.settings.cfg })

unfoldable pub create_shm_config : Act
unfolding create_segment create_semaphore grab_key_from_file
create_shm_config =
    need_key
    >>= (λ m. create_segment put_config m.config m)
    >>= configure
    >>= (λ m. create_semaphore put_config_semaphore m.config_semaphore (pos 1) m)

-- The contents of the two segments; -1 when `Stack_init` fails.
abbrev pub laid_out : Main → Option Shared → Option (ℤ × Main)
laid_out m none = some (minus_one, m)
laid_out m (some sh) = some (pos 0, record m { launched = some sh })

abbrev pub lay_out : Act
lay_out m = laid_out m (create_shm_all_drones_data m.settings m.raw_drones m.raw_stack)

-- `create_shm_all_drones_data` with its objects. The key of the stack is used without a check.
unfoldable pub create_all_drones_data : Act
unfolding create_segment create_semaphore grab_key_from_file create_shm_all_drones_data
create_all_drones_data =
    need_key
    >>= (λ m. create_segment put_all_drones m.all_drones m)
    >>= any_key
    >>= (λ m. create_segment put_stack m.stack m)
    >>= lay_out
    >>= (λ m. create_semaphore put_all_drones_semaphore m.all_drones_semaphore (pos 1) m)

unfoldable pub create_gate_semaphore : Act
unfolding create_semaphore grab_key_from_file
create_gate_semaphore =
    need_key >>= (λ m. create_semaphore put_gate_semaphore m.gate_semaphore (pos 2) m)

-- The path of the gate, "/tmp/gate_fifo".
abbrev pub gate_path : List ℕ
gate_path = 47 ∷ 116 ∷ 109 ∷ 112 ∷ 47 ∷ 103 ∷ 97 ∷ 116 ∷ 101 ∷ 95 ∷ 102 ∷ 105 ∷ 102 ∷ 111 ∷ []

abbrev pub with_gate : Main → Option (ℤ × Place × List Answer) → Option (ℤ × Main)
with_gate m none = none
with_gate m (some (c, p, r)) = some (c, record m { gate = p; answers = r })

unfoldable pub create_gate_fifo_sem : Act
unfolding fifo_sem_create
create_gate_fifo_sem m =
    with_gate m (fifo_sem_create (some gate_path) (pos 2) m.descriptor m.gate m.answers)

-- `creat_operator` and `creat_system_commander`: one `fork`; each child replaces itself.
unfoldable pub creat_operator : Act
creat_operator m =
    attempt m.answers (λ r. some (pos 0, record m { answers = r; operator_pid = pos m.children.0 }))
      (λ r. some (minus_one, heard m r))

unfoldable pub creat_system_commander : Act
creat_system_commander m =
    attempt m.answers
      (λ r. some (pos 0, record m { answers = r; system_commander_pid = pos m.children.1 }))
      (λ r. some (minus_one, heard m r))

-- `main` behind `process_argv` and before `close_main`.
unfoldable pub set_up : Act
unfolding create_shm_config create_all_drones_data create_gate_semaphore create_gate_fifo_sem
    creat_operator creat_system_commander
set_up =
    create_shm_config >>= create_all_drones_data >>= create_gate_semaphore >>= create_gate_fifo_sem
    >>= creat_operator >>= creat_system_commander
