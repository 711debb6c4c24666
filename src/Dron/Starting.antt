-- ===== src/Dron/Starting.antt =====
-- How a drone starts (src/dron/dron.c): its argument, and the data that
-- `get_initial_configuration` (Client/Dron) and `main` give it.
use so_lab_project.Prelude.{ℕ, Bool, false, not, Option, none, some, pos}
use so_lab_project.Shm.{Location, is_mission, location_of_int, DronData}
use so_lab_project.Ipc.{minus_one}
use so_lab_project.Dron.{DronInternalData}
use so_lab_project.Setup.{Configuration, Strtol, parse_positive_int, int_max}

-- `process_argv_location`; `none` where C exits.
unfoldable pub process_argv_location : Option Strtol → Option Location
unfolding parse_positive_int location_of_int
process_argv_location none = none
process_argv_location (some arg) = elim (parse_positive_int arg int_max) [
  | none ↦ none
  | some v ↦ some (location_of_int v)
]

-- What a successful `get_initial_configuration` puts into `dron_internal_data` and `is_charging`.
unfoldable pub initial_internal_data : Configuration → Location → DronInternalData × Bool
initial_internal_data cfg starting_location = (
  record {
    my_id = 0;
    my_index = minus_one;
    maximum_charge_time = cfg.maximum_charge_time;
    loading_cycles_left = pos cfg.max_loading_cycles;
    have_reserved_space = false;
    gate_time_to_pass = cfg.gate_time_to_pass;
    work_interval = cfg.dron_work_interval;
    location = starting_location;
  },
  not (is_mission starting_location),
)

-- `dron_local_data` in `main`, set before the drone has an id.
unfoldable pub initial_local_data : DronInternalData → Location → ℕ → DronData
initial_local_data me starting_location pid = record {
  id = me.my_id;
  pid = pid;
  location = starting_location;
}
