-- ===== src/Dron.antt =====
-- src/dron/dron.c: the state of one drone process and its critical sections, each of them what the
-- process does to the shared memory between `semaphore_lock` and `semaphore_unlock`.
pub mod Registering
pub mod Living
pub mod Stopping
pub mod Books
pub mod Reserving
pub mod Code
pub mod Calls
pub mod Gate
pub mod Loop
pub mod Battery
pub mod Starting
pub mod Discipline
use so_lab_project.Prelude.{
  ℕ, ◌+◌, Bool, true, false, ◌||◌, Option, none, some, ℤ, pos, ◌+ℤ◌, ◌-ℤ◌, ltb_ℤ, pos_part,
  if◌then◌else◌,
}
use so_lab_project.Stack.{Stack}
use so_lab_project.Shm.{
  Location, base, mission, is_mission, DronData, AllDronesData, DestructionReason, add_dron,
  update_dron_location, delete_drone,
}

-- The two shared segments, which one semaphore protects.
pub record Shared : Type 0 where
  pub all : AllDronesData
  pub free : Stack ℕ

-- `DronInternalData`. `have_reserved_space` holds 0 or 1 only. `my_index` is -1 until the drone has
-- a slot; afterwards `slot` is the index that it uses.
pub record DronInternalData : Type 0 where
  pub my_id : ℕ
  pub my_index : ℤ
  pub maximum_charge_time : ℕ
  pub loading_cycles_left : ℤ
  pub have_reserved_space : Bool
  pub gate_time_to_pass : ℕ
  pub work_interval : ℕ
  pub location : Location

abbrev pub slot : DronInternalData → ℕ
slot me = pos_part me.my_index

-- `dron_in_base_count + dron_reserving_space_count`.
abbrev pub occupancy : AllDronesData → ℤ
occupancy d = d.dron_in_base_count +ℤ d.dron_reserving_space_count

-- The test that `try_adding_self_to_shm`, `force_base_return` and the operator's loop share.
abbrev pub has_room : AllDronesData → Bool
has_room d = ltb_ℤ (occupancy d) d.maximum_dron_in_base_count

-- How the critical section of `try_adding_self_to_shm` ends.
pub data Registration : Type 0 where
  no_room : Registration
  no_memory : Shared → Registration
  placed : (index id : ℕ) → Shared → Registration

take_id : Option ℕ × AllDronesData × Stack ℕ → Registration
take_id (none, d, free) =
    no_memory (record { all = record d { next_dron_id = d.next_dron_id + 1 }; free = free })
take_id (some i, d, free) =
    placed i d.next_dron_id
      (record { all = record d { next_dron_id = d.next_dron_id + 1 }; free = free })

unfoldable pub register : Shared → DronData → Registration
unfolding take_id
register sh x =
    if has_room sh.all || is_mission x.location
    then take_id (add_dron sh.all sh.free x)
    else no_room

-- `my_index` and `my_id` after the registration.
unfoldable pub registered : DronInternalData → ℕ → ℕ → DronInternalData
registered me index id = record me { my_index = pos index; my_id = id }

-- `force_base_return`: the drone takes a reservation unless it has one. The flag says whether it
-- goes on to the gate.
unfoldable pub reserve : Shared → DronInternalData → Bool × Shared × DronInternalData
reserve sh me =
    if me.have_reserved_space
    then (true, sh, me)
    else if has_room sh.all
    then (
      true,
      record sh {
        all = record (sh.all) {
          dron_reserving_space_count = sh.all.dron_reserving_space_count +ℤ pos 1;
        };
      },
      record me { have_reserved_space = true },
    )
    else (false, sh, me)

-- The shared part of entering or leaving the base; the flag is the warning of the shared call.
unfoldable pub relocate : Shared → ℕ → Location → Bool × Shared
relocate sh i l =
    let (warned, d) = update_dron_location sh.all i l in (warned, record sh { all = d })

-- The local part of entering the base (`force_base_return`).
unfoldable pub entered : DronInternalData → DronInternalData
entered me = record me {
  have_reserved_space = false;
  loading_cycles_left = me.loading_cycles_left -ℤ pos 1;
  location = base;
}

-- The local part of leaving the base (`force_leave_base`).
unfoldable pub left : DronInternalData → DronInternalData
left me = record me { location = mission }

-- `process_sigusr1`, `battery_state_check` and `force_base_return` take the drone out alike.
unfoldable pub remove_self : Shared → DronInternalData → DestructionReason → Bool × Shared
remove_self sh me reason =
    let (index, warned, d, free) =
      delete_drone sh.all sh.free (slot me) me.have_reserved_space reason in
    (warned, record { all = d; free = free })
