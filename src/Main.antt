-- ===== src/Main.antt =====
-- src/main.c: the report at the end.
pub mod Launch
pub mod Closing
use so_lab_project.Prelude.{ℕ, ◌+◌, Bool, true, false, Option, none, some, ℤ, pos, negsuc, ltb_ℤ}
use so_lab_project.Shm.{AllDronesData}
use so_lab_project.Ipc.{minus_one}

-- `lost_total` in `print_simulation_report`.
unfoldable pub lost_total : AllDronesData → ℕ
lost_total d =
    d.drone_lost_suicide + d.drone_lost_decommissioned + d.drone_lost_out_of_power
    + d.drone_lost_other

-- The numbers of the report in the order in which they are printed; `warned` is the line about more
-- drones in the base than the capacity.
pub record Report : Type 0 where
  pub next_dron_id : ℕ
  pub capacity : ℕ
  pub total : ℤ
  pub in_base : ℤ
  pub maximum_in_base : ℤ
  pub reserving : ℤ
  pub warned : Bool
  pub suicide : ℕ
  pub decommissioned : ℕ
  pub out_of_power : ℕ
  pub other : ℕ
  pub lost : ℕ

unfoldable pub report : AllDronesData → Report
unfolding lost_total
report d = record {
  next_dron_id = d.next_dron_id;
  capacity = d.capacity;
  total = d.dron_count;
  in_base = d.dron_in_base_count;
  maximum_in_base = d.maximum_dron_in_base_count;
  reserving = d.dron_reserving_space_count;
  warned = ltb_ℤ (pos d.capacity) d.dron_in_base_count;
  suicide = d.drone_lost_suicide;
  decommissioned = d.drone_lost_decommissioned;
  out_of_power = d.drone_lost_out_of_power;
  other = d.drone_lost_other;
  lost = lost_total d;
}

-- `print_simulation_report`: the result, and the report unless the segment is not attached.
unfoldable pub print_simulation_report : Option AllDronesData → ℤ × Option Report
unfolding report
print_simulation_report none = (minus_one, none)
print_simulation_report (some d) = (pos 0, some (report d))
