-- ===== src/Main/Closing.antt =====
-- `close_main` and `main` of src/main.c.
pub mod Objects
pub mod Cleaning
pub mod Leftover
pub mod Success
use so_lab_project.Prelude.{
  ℕ, Bool, true, false, ◌&&◌, List, [], Option, none, some, ℤ, pos, negsuc, leb_ℤ, ltb_ℤ,
  if◌then◌else◌,
}
use so_lab_project.Ipc.{Answer, done, interrupted, timed_out, failed, minus_one, attempt}
use so_lab_project.Ipc.Acts.{◌>=>◌, exits}
use so_lab_project.Ipc.Gate.{Place, fifo_sem_destroy}
use so_lab_project.Ipc.Objects.{Segment, Semaphore, shm_detach, shm_destroy, semaphore_delete}
use so_lab_project.Main.Launch.{
  Main, heard, set_up, put_config, put_all_drones, put_stack, put_config_semaphore,
  put_all_drones_semaphore, put_gate_semaphore,
}

-- `waitpid` on a child, whose outcome is only reported.
unfoldable pub join : ℤ → List Answer → Option (List Answer)
join pid answers =
    if leb_ℤ (pos 0) pid then attempt answers (λ r. some r) (λ r. some r) else some answers

-- A segment that is attached: detach, destroy, forget. The results are only reported.
abbrev pub forgotten : Option (ℤ × Segment × List Answer) → Option (Segment × List Answer)
forgotten none = none
forgotten (some (c, g, r)) = some (record g { mapped = false; identifier = minus_one }, r)

abbrev pub destroyed : Option (ℤ × Segment × List Answer) → Option (Segment × List Answer)
destroyed none = none
destroyed (some (c, g, r)) = forgotten (shm_destroy g r)

unfoldable pub close_segment : Segment → List Answer → Option (Segment × List Answer)
unfolding shm_detach shm_destroy
close_segment g answers =
    if leb_ℤ (pos 0) g.identifier && g.mapped
    then destroyed (shm_detach g answers)
    else some (g, answers)

abbrev pub dropped : Option (ℤ × Semaphore × List Answer) → Option (Semaphore × List Answer)
dropped none = none
dropped (some (c, s, r)) = some (record s { identifier = minus_one }, r)

unfoldable pub close_semaphore : Semaphore → List Answer → Option (Semaphore × List Answer)
unfolding semaphore_delete
close_semaphore s answers =
    if leb_ℤ (pos 0) s.identifier then dropped (semaphore_delete s answers) else some (s, answers)

-- The gate, with its structure zeroed.
abbrev pub zeroed : Option (ℤ × Place × List Answer) → Option (Place × List Answer)
zeroed none = none
zeroed (some (c, p, r)) =
    some
      (record p { fifo = record { path = []; file_descriptor = minus_one; capacity = pos 0 } }, r)

unfoldable pub close_gate : Place → List Answer → Option (Place × List Answer)
unfolding fifo_sem_destroy
close_gate p answers =
    if ltb_ℤ (pos 0) p.fifo.file_descriptor
    then zeroed (fifo_sem_destroy p answers)
    else some (p, answers)

abbrev pub Ending : Type 0
Ending = Main → Option Main

-- Writes the result of a part back.
abbrev pub written {ℓ} :
    {R : Type ℓ} → (R → Main → Main) → Main → Option (R × List Answer) → Option Main
written put m none = none
written put m (some (x, r)) = some (put x (heard m r))

abbrev pub joined : (List Answer → Main) → Option (List Answer) → Option Main
joined put none = none
joined put (some r) = some (put r)

abbrev pub no_commander : Main → Main
no_commander m = record m { system_commander_pid = minus_one }

abbrev pub no_operator : Main → Main
no_operator m = record m { operator_pid = minus_one }

abbrev pub join_system_commander : Ending
join_system_commander m =
    joined (λ r. heard (no_commander m) r) (join m.system_commander_pid m.answers)

abbrev pub join_operator : Ending
join_operator m = joined (λ r. heard (no_operator m) r) (join m.operator_pid m.answers)

abbrev pub put_gate : Place → Main → Main
put_gate p m = record m { gate = p }

abbrev pub end_config : Ending
end_config m = written put_config m (close_segment m.config m.answers)

abbrev pub end_all_drones : Ending
end_all_drones m = written put_all_drones m (close_segment m.all_drones m.answers)

abbrev pub end_stack : Ending
end_stack m = written put_stack m (close_segment m.stack m.answers)

abbrev pub end_config_semaphore : Ending
end_config_semaphore m =
    written put_config_semaphore m (close_semaphore m.config_semaphore m.answers)

abbrev pub end_all_drones_semaphore : Ending
end_all_drones_semaphore m =
    written put_all_drones_semaphore m (close_semaphore m.all_drones_semaphore m.answers)

abbrev pub end_gate_semaphore : Ending
end_gate_semaphore m = written put_gate_semaphore m (close_semaphore m.gate_semaphore m.answers)

abbrev pub end_gate : Ending
end_gate m = written put_gate m (close_gate m.gate m.answers)

-- Everything that `close_main` does before `exit`, in its order.
unfoldable pub clean_up : Ending
unfolding join close_segment close_semaphore close_gate
clean_up =
    join_system_commander >=> join_operator >=> end_config >=> end_all_drones >=> end_stack
    >=> end_config_semaphore >=> end_all_drones_semaphore >=> end_gate_semaphore >=> end_gate

unfoldable pub close_main : ℤ → Main → Option (ℤ × Main)
unfolding clean_up
close_main exit_code m = exits exit_code (clean_up m)

abbrev pub closed_by : Option (ℤ × Main) → Option (ℤ × Main)
closed_by none = none
closed_by (some (pos c, m)) = close_main (pos 0) m
closed_by (some (negsuc c, m)) = close_main minus_one m

-- `main` behind `process_argv`: the set-up, and `close_main` however far it came.
unfoldable pub main : Main → Option (ℤ × Main)
unfolding set_up
main m = closed_by (set_up m)
