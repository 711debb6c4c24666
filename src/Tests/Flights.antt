-- ===== src/Tests/Flights.antt =====
-- What holds along the runs of the small swarm.
use so_lab_project.Prelude.{
  ℕ, ◌+◌, ◌≤◌, ◌<◌, ◌≡◌, refl, ◌⊎◌, inl, true, false, [], some, pos, arith, get_elem?, total,
  replicate, ◌≤ℤ◌,
}
use so_lab_project.Shm.{DronData, base, location_at}
use so_lab_project.Dron.{DronInternalData, occupancy}
use so_lab_project.System.{Step, starting, active, idle, reserves}
use so_lab_project.System.Invariant.{holds_token, reserved}
use so_lab_project.Shm.Consistency.{live, in_base}
use so_lab_project.Ipc.{done}
use so_lab_project.Dron.Loop.{round}
use so_lab_project.Dron.Discipline.{Tidy, round-Tidy}
use so_lab_project.Operator.Loop.{Operator, turn}
use so_lab_project.System.Refinement.{round-Refines}
use so_lab_project.System.Refinement.Moves.{Refines}
use so_lab_project.System.Staffing.{Staffs, turn-Staffs}
use so_lab_project.System.Safety.{gate_capacity, counters_exact, slots_exclusive, location_agrees}
use so_lab_project.System.Occupancy.{limit_respected, never-Warns, Warns}
use so_lab_project.Tests.Swarms.{
  small, block, raw_stack, small-IsFresh, flying, fresh, joined, flying_first, reserving_first,
  returning, in_gate, after_gate, landed, running, two_flying, tired,
}

gate_capacity_example :
    (total holds_token in_gate.last.procs ≤ 2)
    × (in_gate.last.tokens + total holds_token in_gate.last.procs ≡ 2)
gate_capacity_example =
    gate_capacity small block raw_stack small-IsFresh in_gate.last (running in_gate)

counters_exact_example :
    (landed.last.shared.all.dron_count ≡ pos (total live landed.last.shared.all.drones))
    × (landed.last.shared.all.dron_in_base_count
        ≡ pos (total in_base landed.last.shared.all.drones))
    × (landed.last.shared.all.dron_reserving_space_count ≡ pos (total reserved landed.last.procs))
    × (landed.last.shared.free.size + total live landed.last.shared.all.drones
        ≡ landed.last.shared.all.capacity)
counters_exact_example =
    counters_exact small block raw_stack small-IsFresh landed.last (running landed)

second :
    get_elem? in_gate.last.procs 1
    ≡ some (active idle (record fresh { my_index = pos 1; my_id = 2 }))
unfolding in_gate
second = refl

slots_exclusive_example : ◌≡◌ {A = ℕ} 1 1
slots_exclusive_example =
    slots_exclusive small block raw_stack small-IsFresh in_gate.last (running in_gate) 1 1 idle idle
      (record fresh { my_index = pos 1; my_id = 2 }) (record fresh { my_index = pos 1; my_id = 2 })
      second second refl

abbrev landed_first : DronInternalData
landed_first = record flying_first { location = base; loading_cycles_left = pos 2 }

first_landed : get_elem? landed.last.procs 0 ≡ some (active idle landed_first)
unfolding landed
first_landed = refl

location_agrees_example : location_at landed.last.shared.all 0 ≡ base
location_agrees_example =
    location_agrees small block raw_stack small-IsFresh landed.last (running landed) 0 idle
      landed_first first_landed

reserved_swarm : Step 6 joined.last returning.last
unfolding returning
reserved_swarm = reserves 0 flying_first reserving_first _ refl refl refl refl

limit_respected_example :
    (occupancy returning.last.shared.all ≤ℤ occupancy joined.last.shared.all)
    ⊎ (occupancy returning.last.shared.all ≤ℤ returning.last.shared.all.maximum_dron_in_base_count)
limit_respected_example =
    limit_respected small block raw_stack small-IsFresh joined.last (running joined) returning.last
      reserved_swarm

never-Warns_example : ¬ Warns after_gate.last
never-Warns_example =
    never-Warns small block raw_stack small-IsFresh after_gate.last (running after_gate)

first_flies : get_elem? joined.last.procs 0 ≡ some (active idle flying_first)
unfolding joined
first_flies = refl

both_tokens : 0 < joined.last.tokens
unfolding joined
both_tokens = omega arith

round-Refines_example : Refines 6 joined.last 0 tired (round tired)
round-Refines_example = round-Refines 6 joined.last 0 tired first_flies refl both_tokens

abbrev busy : Operator
busy = record {
  answers = replicate 9 done;
  locked = false;
  all = two_flying.all;
  created = [];
  got_sigusr1 = true;
  got_sigusr2 = false;
  got_shutdown_requested = false;
}

abbrev based : DronData
based = record flying { location = base }

abbrev fresh_in_base : DronInternalData
fresh_in_base = record fresh { location = base }

turn-Staffs_example : Staffs 6 joined.last (starting based fresh_in_base) busy (turn 6 busy)
turn-Staffs_example =
    turn-Staffs 6 joined.last based fresh_in_base (refl, refl, inl refl) busy refl refl refl

round-Tidy_example : Tidy 0 (round tired)
round-Tidy_example = round-Tidy tired refl
