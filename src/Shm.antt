-- ===== src/Shm.antt =====
-- src/ipc/ipc.h (the shared structures) and src/ipc/shm.c (the operations on them). The counters are
-- `int`s that are also decremented, so they are signed. A `DronData_Location` is an `int` in C, and
-- the drone casts its argument to one unchecked: `unknown` stands for the values that the enum does
-- not name. An operation also returns whether it printed its "Reserve space is negative!" message.
pub mod Consistency
pub mod Adding
pub mod Moving
pub mod Deleting
pub mod Scanning
pub mod Books
use so_lab_project.Prelude.{
  ℕ, zero, suc, ◌+◌, Bool, true, false, ◌&&◌, List, [], ◌∷◌, Option, none, some, ℤ, pos, negsuc,
  ◌+ℤ◌, ◌-ℤ◌, ltb_ℤ, if◌then◌else◌, set, get_elem?,
}
use so_lab_project.Stack.{Stack, Status, success, error, push_elem, pop_elem}

pub data Location : Type 0 where
  undefine base mission : Location
  unknown : ℕ → Location

pub data DestructionReason : Type 0 where
  out_of_power decommissioned suicide other : DestructionReason

pub record DronData : Type 0 where
  pub id : ℕ
  pub pid : ℕ
  pub location : Location

pub record AllDronesData : Type 0 where
  pub next_dron_id : ℕ
  pub dron_count : ℤ
  pub dron_in_base_count : ℤ
  pub maximum_dron_in_base_count : ℤ
  pub dron_reserving_space_count : ℤ
  pub capacity : ℕ
  pub drone_lost_suicide : ℕ
  pub drone_lost_decommissioned : ℕ
  pub drone_lost_out_of_power : ℕ
  pub drone_lost_other : ℕ
  pub drones : List DronData

-- The cast of an `int` to the enum.
unfoldable pub location_of_int : ℕ → Location
location_of_int zero = undefine
location_of_int (suc zero) = base
location_of_int (suc (suc zero)) = mission
location_of_int (suc (suc (suc n))) = unknown (suc (suc (suc n)))

abbrev pub is_base : Location → Bool
is_base base = true
is_base _ = false

abbrev pub is_mission : Location → Bool
is_mission mission = true
is_mission _ = false

abbrev pub is_undefine : Location → Bool
is_undefine undefine = true
is_undefine _ = false

-- `drones[i].location`. Fresh shared memory is zero, which reads as `LOCATION_UNDEFINE`.
abbrev pub location_of : Option DronData → Location
location_of none = undefine
location_of (some x) = x.location

abbrev pub location_at : AllDronesData → ℕ → Location
location_at d i = location_of (get_elem? d.drones i)

-- `drones[i].location = l`.
unfoldable pub put_location : List DronData → ℕ → Location → List DronData
put_location [] i l = []
put_location (x ∷ xs) zero l = record x { location = l } ∷ xs
put_location (x ∷ xs) (suc i) l = x ∷ put_location xs i l

-- What `SHM_AllDronesData_add_dron` does with the result of `Stack_pop`.
add_at : AllDronesData → DronData → Status × ℕ × Stack ℕ → Option ℕ × AllDronesData × Stack ℕ
add_at d x (error, i, free) = (none, d, free)
add_at d x (success, i, free) = (
  some i,
  record d {
    dron_count = d.dron_count +ℤ pos 1;
    dron_in_base_count =
        if is_base x.location then d.dron_in_base_count +ℤ pos 1 else d.dron_in_base_count;
    drones = set d.drones i x;
  },
  free,
)

-- `SHM_AllDronesData_add_dron`. The index, or `none` for -1; the -1 that C puts into `out` before
-- the pop is never read.
unfoldable pub add_dron : AllDronesData → Stack ℕ → DronData → Option ℕ × AllDronesData × Stack ℕ
unfolding add_at
add_dron d free x = add_at d x (pop_elem free 0)

-- The two tests on the old location in `SHM_AllDronesData_update_dron_location`.
recount : Location → AllDronesData → Bool × AllDronesData
recount base d = (false, record d { dron_in_base_count = d.dron_in_base_count -ℤ pos 1 })
recount mission d =
    let reserving = d.dron_reserving_space_count -ℤ pos 1 in
    (
      ltb_ℤ reserving (pos 0),
      record d {
        dron_in_base_count = d.dron_in_base_count +ℤ pos 1;
        dron_reserving_space_count = reserving;
      },
    )
recount _ d = (false, d)

-- `SHM_AllDronesData_update_dron_location`; C returns 0 always.
unfoldable pub update_dron_location : AllDronesData → ℕ → Location → Bool × AllDronesData
unfolding recount put_location
update_dron_location d i new_location =
    let (warned, d') = recount (location_at d i) d in
    (warned, record d' { drones = put_location d'.drones i new_location })

-- The `switch` on the reason in `SHM_AllDronesData_delete_drone`.
count_loss : DestructionReason → AllDronesData → AllDronesData
count_loss out_of_power d = record d { drone_lost_out_of_power = d.drone_lost_out_of_power + 1 }
count_loss decommissioned d = record d {
  drone_lost_decommissioned = d.drone_lost_decommissioned + 1;
}
count_loss suicide d = record d { drone_lost_suicide = d.drone_lost_suicide + 1 }
count_loss other d = record d { drone_lost_other = d.drone_lost_other + 1 }

release_base : Location → AllDronesData → AllDronesData
release_base base d = record d { dron_in_base_count = d.dron_in_base_count -ℤ pos 1 }
release_base _ d = d

release_reservation : Bool → AllDronesData → Bool × AllDronesData
release_reservation false d = (false, d)
release_reservation true d =
    let reserving = d.dron_reserving_space_count -ℤ pos 1 in
    (ltb_ℤ reserving (pos 0), record d { dron_reserving_space_count = reserving })

-- What `SHM_AllDronesData_delete_drone` returns for the result of `Stack_push`.
unfoldable pub index_or_error : ℕ → Status → Option ℕ
index_or_error i success = some i
index_or_error i error = none

-- `SHM_AllDronesData_delete_drone`: the returned index (`none` for -1), the warning, the new state.
unfoldable pub delete_drone :
    AllDronesData
    → Stack ℕ
    → ℕ
    → (has_space_reserved : Bool) → DestructionReason
    → Option ℕ × Bool × AllDronesData × Stack ℕ
unfolding count_loss release_base release_reservation index_or_error put_location
delete_drone d free i has_space_reserved reason =
    let counted = record d { dron_count = d.dron_count -ℤ pos 1 } in
    let lost = count_loss reason counted in
    let left = release_base (location_at lost i) lost in
    let (warned, released) = release_reservation has_space_reserved left in
    let cleared = record released { drones = put_location released.drones i undefine } in
    let (st, free') = push_elem free i in (index_or_error i st, warned, cleared, free')

-- `SHM_AllDronesData_get_dron_pid`: the first slot in use from `i` on; `n` slots are left to visit.
scan_pid : ℕ → ℕ → AllDronesData → Option ℕ
scan_pid zero i d = none
scan_pid (suc n) i d =
    let rest = scan_pid n (suc i) d in
    elim (get_elem? d.drones i) [
      | none ↦ rest
      | some x ↦ if is_undefine x.location then rest else some x.pid
    ]

-- The value that C returns: the pid, or -1.
abbrev pub pid_or_error : Option ℕ → ℤ
pid_or_error none = negsuc 0
pid_or_error (some p) = pos p

unfoldable pub get_dron_pid : AllDronesData → ℤ
unfolding scan_pid
get_dron_pid d = pid_or_error (scan_pid d.capacity 0 d)
