-- ===== src/Tests/Memory.antt =====
-- The shared memory, the stack and the set-up on small inputs.
use so_lab_project.Prelude.{
  ℕ, ◌+◌, ◌*◌, ◌≤◌, ◌<◌, ◌≡◌, ◌≢◌, ◌↔◌, refl, ◌⊎◌, true, false, ◌||◌, [], ◌∷◌, some, none, pos,
  negsuc, arith, get_elem?, set, take, total, ◌+ℤ◌, ◌-ℤ◌,
}
use so_lab_project.Stack.{Stack, success, IsValid, contents, push_elem, pop_elem, bytes_needed}
use so_lab_project.Stack.Laws.{pop_elem-push_elem}
use so_lab_project.Stack.Memory.{bytes_needed-fits}
use so_lab_project.Shm.{
  undefine, mission, is_mission, DronData, AllDronesData, suicide, add_dron, delete_drone,
  get_dron_pid, location_at,
}
use so_lab_project.Shm.Consistency.{IsConsistent, live}
use so_lab_project.Shm.Adding.{add_dron_outcome}
use so_lab_project.Shm.Deleting.{delete_drone-IsConsistent}
use so_lab_project.Shm.Scanning.{get_dron_pid_outcome}
use so_lab_project.Dron.{Shared, placed, register, has_room}
use so_lab_project.Dron.Registering.{register-placed}
use so_lab_project.Setup.{
  Settings, defaults, n, Strtol, parse_positive_int, int_max, process_argv, settings,
  create_shm_all_drones_data, process_option,
}
use so_lab_project.Setup.Filling.{create_shm_all_drones_data-IsConsistent}
use so_lab_project.Setup.Arguments.{
  parse_positive_int-some, InRange, process_argv-InRange, defaults-InRange,
}
use so_lab_project.Tests.Swarms.{
  small, block, raw_stack, flying, two_flying, two_flying-IsConsistent, flying_slot, model, joined,
}

abbrev numbers : Stack ℕ
numbers = record { capacity = 3; size = 2; elem_size = 4; cells = 7 ∷ 8 ∷ 0 ∷ [] }

numbers-IsValid : IsValid numbers
numbers-IsValid = omega arith

pop_elem-push_elem_example :
    let (st, y, s') = pop_elem (push_elem numbers 9).1 0 in
    (st ≡ success) × (y ≡ 9) × (contents s' ≡ contents numbers)
pop_elem-push_elem_example = pop_elem-push_elem numbers 9 0 numbers-IsValid (omega arith)

bytes_needed-fits_example : 32 + 5 * 4 + 4 ≤ bytes_needed 32 100 4
bytes_needed-fits_example =
    bytes_needed-fits 32 100 4 5 (omega arith) (omega arith) (omega arith) (omega arith)

flying_defined : flying.location ≢ undefine
flying_defined e = cc

add_dron_outcome_example :
    (two_flying.all.dron_count ≡ pos two_flying.all.capacity)
      × (add_dron two_flying.all two_flying.free flying ≡ (none, two_flying.all, two_flying.free))
    ⊎ ((i : ℕ) × (d' : AllDronesData) × (free' : Stack ℕ) × (add_dron two_flying.all two_flying.free
            flying
          ≡ (some i, d', free'))
        × (location_at two_flying.all i ≡ undefine)
        × (i < two_flying.all.capacity)
        × (d'.drones ≡ set two_flying.all.drones i flying)
        × (d'.dron_count ≡ two_flying.all.dron_count +ℤ pos 1)
        × (d'.dron_in_base_count ≡ two_flying.all.dron_in_base_count)
        × (d'.next_dron_id ≡ two_flying.all.next_dron_id)
        × (d'.maximum_dron_in_base_count ≡ two_flying.all.maximum_dron_in_base_count)
        × (d'.dron_reserving_space_count ≡ two_flying.all.dron_reserving_space_count))
add_dron_outcome_example =
    add_dron_outcome two_flying.all two_flying.free flying two_flying-IsConsistent

delete_drone-IsConsistent_example :
    let (k, warned, d', free') = delete_drone two_flying.all two_flying.free 0 true suicide in
    IsConsistent d' free'
delete_drone-IsConsistent_example =
    delete_drone-IsConsistent two_flying.all two_flying.free two_flying-IsConsistent 0 flying
      flying_slot flying_defined true suicide

get_dron_pid_outcome_example :
    ((get_dron_pid two_flying.all ≡ negsuc 0) × (two_flying.all.dron_count ≡ pos 0))
    ⊎ ((k : ℕ) × (x : DronData) × (get_elem? two_flying.all.drones k ≡ some x)
        × (x.location ≢ undefine)
        × (total live (take k two_flying.all.drones) ≡ 0)
        × (get_dron_pid two_flying.all ≡ pos x.pid))
get_dron_pid_outcome_example =
    get_dron_pid_outcome two_flying.all two_flying.free two_flying-IsConsistent

-- The outcome of a registration of a third drone.
abbrev three_flying : Shared
three_flying = record {
  all = record (two_flying.all) {
    next_dron_id = 4;
    dron_count = pos 3;
    drones = set two_flying.all.drones 2 flying;
  };
  free = record (two_flying.free) { size = 1 };
}

third_joins : register two_flying flying ≡ placed 2 3 three_flying
unfolding joined model
third_joins = refl

register-placed_example :
    ((has_room two_flying.all || is_mission mission) ≡ true)
    × IsConsistent three_flying.all three_flying.free
    × (location_at two_flying.all 2 ≡ undefine)
    × (2 < two_flying.all.capacity)
    × (three_flying.all.drones ≡ set two_flying.all.drones 2 flying)
    × (three_flying.all.dron_in_base_count ≡ two_flying.all.dron_in_base_count)
    × (three_flying.all.maximum_dron_in_base_count ≡ two_flying.all.maximum_dron_in_base_count)
    × (three_flying.all.dron_reserving_space_count ≡ two_flying.all.dron_reserving_space_count)
    × (3 ≡ two_flying.all.next_dron_id)
    × (three_flying.all.next_dron_id ≡ two_flying.all.next_dron_id + 1)
register-placed_example =
    register-placed two_flying three_flying flying 2 3 two_flying-IsConsistent flying_defined
      third_joins

no_drones : total live block ≡ 0
unfolding total
no_drones = refl

create_shm_all_drones_data-IsConsistent_example :
    (sh : Shared) × (create_shm_all_drones_data small block raw_stack ≡ some sh)
    × IsConsistent sh.all sh.free
    × (sh.all.capacity ≡ 4)
    × (sh.free.size ≡ 4)
    × (sh.all.dron_count ≡ pos 0)
    × (sh.all.dron_reserving_space_count ≡ pos 0)
    × (sh.all.maximum_dron_in_base_count ≡ pos 3 -ℤ pos 1)
    × (sh.all.drones ≡ block)
create_shm_all_drones_data-IsConsistent_example =
    create_shm_all_drones_data-IsConsistent small block raw_stack (omega arith) (omega arith) refl
      refl no_drones

abbrev ten : Strtol
ten = record { value = pos 10; errno_set = false; ended = true }

parse_positive_int-some_example : (parse_positive_int ten 30 ≡ some 10) ↔ (
    (ten.errno_set ≡ false)
    × (ten.ended ≡ true)
    × (ten.value ≡ pos 10)
    × (0 < 10)
    × (10 ≤ 30)
    × (10 ≤ int_max))
parse_positive_int-some_example = parse_positive_int-some ten 30 10

abbrev ten_drones : Settings
ten_drones = record defaults { cfg = record (defaults.cfg) { starting_drones_count = 10 } }

ten_accepted : process_argv defaults ((n, ten) ∷ []) false ≡ settings ten_drones
unfolding process_argv process_option parse_positive_int
ten_accepted = refl

process_argv-InRange_example : InRange ten_drones × (2 * 10 ≤ 100) × (false ≡ false)
process_argv-InRange_example =
    process_argv-InRange defaults ten_drones ((n, ten) ∷ []) false defaults-InRange ten_accepted
