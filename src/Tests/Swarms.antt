-- ===== src/Tests/Swarms.antt =====
-- A small swarm, run by hand through the gate: two drones, four places in memory.
use so_lab_project.Operator.{raise_limit, lower_limit, raised}
use so_lab_project.Prelude.{
  ◌+ℤ◌, ◌-ℤ◌, ◌*ℤ◌, half_ℤ, ℕ, ◌≡◌, refl, inr, true, false, List, [], ◌∷◌, some, pos, negsuc, arith,
  get_elem?, total, replicate,
}
use so_lab_project.Stack.{Stack, full, init_block, push_elem, pop_elem}
use so_lab_project.Shm.{
  undefine, mission, DronData, add_dron, update_dron_location, put_location, delete_drone,
}
use so_lab_project.Dron.{
  Shared, DronInternalData, register, registered, reserve, relocate, entered, left, remove_self,
}
use so_lab_project.Setup.{Settings, defaults, fill, create_shm_all_drones_data}
use so_lab_project.System.{Swarm, inward, forks, joins, reserves, enters_gate, leaves_gate, arrives}
use so_lab_project.Shm.Consistency.{IsConsistent}
use so_lab_project.Ipc.{done}
use so_lab_project.Dron.Code.{World}
use so_lab_project.System.Safety.{start, Reach, here, next, IsFresh, Runs, runs, Runs-Inv}

abbrev pub small : Settings
small = record defaults { maximum_drones_in_memory = 4 }

abbrev pub blank_drone : DronData
blank_drone = record { id = 0; pid = 0; location = undefine }

abbrev pub block : List DronData
block = replicate 4 blank_drone

abbrev pub raw_stack : Stack ℕ
raw_stack = record { capacity = 0; size = 0; elem_size = 0; cells = replicate 4 0 }

abbrev pub launched : Shared
launched = record {
  all = record {
    next_dron_id = 1;
    dron_count = pos 0;
    dron_in_base_count = pos 0;
    maximum_dron_in_base_count = pos 2;
    dron_reserving_space_count = pos 0;
    capacity = 4;
    drone_lost_suicide = 0;
    drone_lost_decommissioned = 0;
    drone_lost_out_of_power = 0;
    drone_lost_other = 0;
    drones = block;
  };
  free = record { capacity = 4; size = 4; elem_size = 4; cells = 3 ∷ 2 ∷ 1 ∷ 0 ∷ [] };
}

pub launch : create_shm_all_drones_data small block raw_stack ≡ some launched
unfolding create_shm_all_drones_data fill init_block full push_elem ◌-ℤ◌
launch = refl

pub small-IsFresh : IsFresh small block raw_stack
unfolding total
small-IsFresh = omega arith

abbrev pub flying : DronData
flying = record { id = 0; pid = 70; location = mission }

abbrev pub fresh : DronInternalData
fresh = record {
  my_id = 0;
  my_index = negsuc 0;
  maximum_charge_time = 4000000;
  loading_cycles_left = pos 3;
  have_reserved_space = false;
  gate_time_to_pass = 20000;
  work_interval = 500000;
  location = mission;
}

-- A swarm with the steps that led to it.
pub record Run : Type 0 where
  pub last : Swarm
  pub reach : Reach 6 (start launched) last

-- Names what a run computes with.
unfoldable pub model : ℕ
unfolding register ◌+ℤ◌ ◌-ℤ◌ add_dron pop_elem update_dron_location put_location registered reserve
    relocate entered left remove_self delete_drone push_elem raise_limit lower_limit raised ◌*ℤ◌
    half_ℤ
model = 0

-- Both drones are forked and register; the first takes a reservation and a token of the gate.
unfoldable pub born : Run
born = record {
  last = _;
  reach =
      next (next here (forks flying fresh (refl, refl, inr refl)))
        (forks flying fresh (refl, refl, inr refl));
}

unfoldable pub joined : Run
unfolding born model
joined = record {
  last = _;
  reach =
      next (next born.reach (joins 0 flying fresh 0 1 _ refl refl))
        (joins 1 flying fresh 1 2 _ refl refl);
}

abbrev pub flying_first : DronInternalData
flying_first = record fresh { my_index = pos 0; my_id = 1 }

abbrev pub reserving_first : DronInternalData
reserving_first = record flying_first { have_reserved_space = true }

unfoldable pub returning : Run
unfolding joined
returning = record {
  last = _;
  reach = next joined.reach (reserves 0 flying_first reserving_first _ refl refl refl refl);
}

unfoldable pub in_gate : Run
unfolding returning
in_gate = record {
  last = _;
  reach = next returning.reach (enters_gate 0 reserving_first inward refl (omega arith));
}

unfoldable pub after_gate : Run
unfolding in_gate
after_gate = record {
  last = _;
  reach = next in_gate.reach (leaves_gate 0 reserving_first inward refl);
}

unfoldable pub landed : Run
unfolding after_gate
landed = record { last = _; reach = next after_gate.reach (arrives 0 reserving_first refl) }

abbrev pub running : (r : Run) → Runs small block raw_stack r.last
running r = runs launched launch r.reach

-- The shared memory while both drones fly.
abbrev pub two_flying : Shared
two_flying = joined.last.shared

pub two_flying-IsConsistent : IsConsistent two_flying.all two_flying.free
two_flying-IsConsistent = (Runs-Inv small-IsFresh (running joined)).consistent

pub flying_slot : get_elem? two_flying.all.drones 0 ≡ some flying
unfolding joined
flying_slot = refl

-- The process of the first drone, with a battery of 10 percent.
abbrev pub tired : World
tired = record {
  answers = replicate 9 done;
  locked = false;
  tokens = 0;
  taken = 0;
  shared = two_flying;
  me = flying_first;
  local_data = flying;
  gate = record { path = []; file_descriptor = pos 5; capacity = pos 2 };
  battery_percentage = 10;
  is_charging = false;
  got_sigusr1 = false;
  got_shutdown_requested = false;
}
