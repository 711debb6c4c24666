-- ===== src/Setup.antt =====
-- src/main.c: the configuration from the command line, and the shared memory that the main process
-- lays out. What `getopt` and `strtol` deliver are arguments of the model, and so are the fresh
-- segments that `shmat` returns.
pub mod Filling
pub mod Arguments
use so_lab_project.Prelude.{
  ℕ, zero, suc, ◌+◌, ◌-◌, ◌*◌, ◌/◌, ◌^◌, ◌≡◌, Bool, true, false, not, ◌||◌, List, [], ◌∷◌, Option,
  none, some, ℤ, pos, ◌-ℤ◌, ltb_ℤ, leb_ℤ, pos_part, ltb, if◌then◌else◌,
}
use so_lab_project.Stack.{Stack, Status, success, error, full, init_block, push_elem}
use so_lab_project.Shm.{DronData, AllDronesData}
use mathlib.Core.Option
use so_lab_project.Dron.{Shared}

-- `SHM_Configuration`.
pub record Configuration : Type 0 where
  pub starting_drones_count : ℕ
  pub resupply_interval : ℕ
  pub maximum_charge_time : ℕ
  pub max_loading_cycles : ℕ
  pub gate_time_to_pass : ℕ
  pub dron_work_interval : ℕ

-- The configuration and `maximum_drones_in_memory`.
pub record Settings : Type 0 where
  pub cfg : Configuration
  pub maximum_drones_in_memory : ℕ

abbrev pub defaults : Settings
defaults = record {
  cfg = record {
    starting_drones_count = 6;
    resupply_interval = 1000000;
    maximum_charge_time = 4000000;
    max_loading_cycles = 3;
    gate_time_to_pass = 20000;
    dron_work_interval = 500000;
  };
  maximum_drones_in_memory = 100;
}

-- What `strtol(arg, &end, 10)` leaves: the value, whether `errno` was set, whether `*end` is NUL.
pub record Strtol : Type 0 where
  pub value : ℤ
  pub errno_set : Bool
  pub ended : Bool

abbrev pub int_max : ℕ
int_max = 2147483647

-- `parse_positive_int`; `none` where C exits.
unfoldable pub parse_positive_int : Strtol → ℕ → Option ℕ
parse_positive_int r max_value =
    if r.errno_set || not r.ended || leb_ℤ r.value (pos 0)
    then none
    else if ltb_ℤ (pos max_value) r.value
    then none
    else if ltb_ℤ (pos int_max) r.value
    then none
    else some (pos_part r.value)

-- The options of the `getopt` string, each with its argument; `unknown` is the `default` case.
pub data Flag : Type 0 where
  n r c l g w m h unknown : Flag

-- How `process_argv` ends: with settings, or with the exit code of the process.
pub data Parsed : Type 0 where
  settings : Settings → Parsed
  exit_success exit_failure : Parsed

-- An option with a number: `exit(EXIT_FAILURE)` unless it parses.
with_number : Option ℕ → (ℕ → Settings) → Parsed
with_number none f = exit_failure
with_number (some v) f = settings (f v)

-- One turn of the `switch` in `process_argv`.
unfoldable pub process_option : Settings → Flag → Strtol → Parsed
unfolding parse_positive_int with_number
process_option s n arg =
    with_number (parse_positive_int arg 1000000)
      λ v. record s { cfg = record (s.cfg) { starting_drones_count = v } }
process_option s r arg =
    with_number (parse_positive_int arg 8000000)
      λ v. record s { cfg = record (s.cfg) { resupply_interval = v } }
process_option s c arg =
    with_number (parse_positive_int arg 8000000)
      λ v. record s { cfg = record (s.cfg) { maximum_charge_time = v } }
process_option s l arg =
    with_number (parse_positive_int arg 30)
      λ v. record s { cfg = record (s.cfg) { max_loading_cycles = v } }
process_option s g arg =
    with_number (parse_positive_int arg 2000000)
      λ v. record s { cfg = record (s.cfg) { gate_time_to_pass = v } }
process_option s w arg =
    with_number (parse_positive_int arg 8000000)
      λ v. record s { cfg = record (s.cfg) { dron_work_interval = v } }
process_option s m arg =
    with_number (parse_positive_int arg 2500000) λ v. record s { maximum_drones_in_memory = v }
process_option s h arg = exit_success
process_option s unknown arg = exit_failure

-- The checks behind the option loop. `extra` says that arguments are left over (`optind < argc`).
check_settings : Bool → Settings → Parsed
check_settings extra s =
    if extra
    then exit_failure
    else if ltb s.maximum_drones_in_memory (2 * s.cfg.starting_drones_count)
    then exit_failure
    else settings s

-- `process_argv` on the options that `getopt` returns, in order.
unfoldable pub process_argv : Settings → List (Flag × Strtol) → (extra : Bool) → Parsed
unfolding check_settings
process_argv s [] extra = check_settings extra s
process_argv s ((flag, arg) ∷ rest) extra = elim (process_option s flag arg) [
  | settings s' ↦ process_argv s' rest extra
  | exit_success ↦ exit_success
  | exit_failure ↦ exit_failure
]

-- The loop that puts every index on the stack: `while (!Stack_is_full(...))`. `none` means that the
-- fuel ran out. After the last push C's `index` is -1 and is not used; here it stays 0.
unfoldable pub fill : ℕ → Stack ℕ → ℕ → Option (Stack ℕ)
fill zero s index = none
fill (suc f) s index =
    let rest = fill f (push_elem s index).1 (index - 1) in if full s then some s else rest

-- `*shm_all_drones_data = (SHM_AllDronesData){...}`; the flexible array stays as it was.
initial_data : Settings → List DronData → AllDronesData
initial_data s block = record {
  next_dron_id = 1;
  dron_count = pos 0;
  dron_in_base_count = pos 0;
  maximum_dron_in_base_count = pos (s.cfg.starting_drones_count / 2) -ℤ pos 1;
  dron_reserving_space_count = pos 0;
  capacity = s.maximum_drones_in_memory;
  drone_lost_suicide = 0;
  drone_lost_decommissioned = 0;
  drone_lost_out_of_power = 0;
  drone_lost_other = 0;
  drones = block;
}

-- The two segments with the stack filled, unless `Stack_init` failed.
fill_initialised : Settings → List DronData → Status × Stack ℕ → Option Shared
unfolding initial_data
fill_initialised s block (error, st) = none
fill_initialised s block (success, st) =
    Option.map (λ full_stack. record { all = initial_data s block; free = full_stack })
      (fill (s.maximum_drones_in_memory + 1) st (s.maximum_drones_in_memory - 1))

-- `create_shm_all_drones_data` from where both segments are attached; `sizeof(int)` is 4.
unfoldable pub create_shm_all_drones_data : Settings → List DronData → Stack ℕ → Option Shared
unfolding fill_initialised
create_shm_all_drones_data s block st =
    fill_initialised s block (init_block st s.maximum_drones_in_memory 4)
