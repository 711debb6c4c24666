-- ===== src/Operator.antt =====
-- src/operator/operator.c: what the operator does to the limit of drones in the base.
pub mod Loop
pub mod Limits
pub mod Reacting
pub mod Lowering
use so_lab_project.Prelude.{ℕ, ◌*◌, ◌≡◌, Bool, ℤ, pos, ◌-ℤ◌, ◌*ℤ◌, half_ℤ, leb_ℤ, if◌then◌else◌}
use so_lab_project.Shm.{AllDronesData}

-- The reaction to SIGUSR1: twice the limit, but below twice the number of starting drones.
unfoldable pub raised : ℕ → ℤ → ℤ
raised starting_drones_count maximum =
    let new_max = maximum *ℤ pos 2 in
    if leb_ℤ (pos (starting_drones_count * 2)) new_max
    then pos (starting_drones_count * 2) -ℤ pos 1
    else new_max

unfoldable pub raise_limit : ℕ → AllDronesData → AllDronesData
unfolding raised
raise_limit n d = record d { maximum_dron_in_base_count = raised n d.maximum_dron_in_base_count }

-- The reaction to SIGUSR2.
unfoldable pub lower_limit : AllDronesData → AllDronesData
lower_limit d = record d { maximum_dron_in_base_count = half_ℤ d.maximum_dron_in_base_count }
