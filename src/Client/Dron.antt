-- ===== src/Client/Dron.antt =====
-- A drone's way to the shared objects and away from them (src/dron/dron.c): `main` up to the battery
-- thread, and `close_main`.
use so_lab_project.Prelude.{false, List, [], Option, none, some, ℤ, pos, ltb_ℤ, if◌then◌else◌}
use so_lab_project.Shm.{Location}
use so_lab_project.Ipc.{Answer, minus_one, attempt}
use so_lab_project.Ipc.Acts.{◌>>=◌, ◌>=>◌, exits}
use so_lab_project.Ipc.Gate.{Place, fifo_sem_get, fifo_sem_close}
use so_lab_project.Ipc.Objects.{shm_get, shm_attach, semaphore_get, grab_key_from_file}
use so_lab_project.Dron.Starting.{initial_internal_data}
use so_lab_project.Main.Launch.{gate_path}
use so_lab_project.Client.Operator.{
  get_config, get_config_semaphore, attach_config, lock_config, unlock_config, detach_config,
}
use so_lab_project.Client.{
  Client, Act, heard, call, need_key, get_all_drones, attach_all_drones, get_stack, attach_stack,
  get_all_drones_semaphore, found, put_gate_semaphore, Ending, leave_segment, leave_all_drones,
  leave_stack, written,
}

-- `dron_internal_data` and `is_charging` get what the configuration and the place of the start give.
unfoldable pub take_configuration : Location → Act
unfolding initial_internal_data
take_configuration starting_location c =
    some (pos 0, record c { internal = some (initial_internal_data c.stored starting_location) })

-- The variables of the drone are written last, when no call can fail any more.
unfoldable pub get_initial_configuration : Location → Act
unfolding grab_key_from_file shm_get shm_attach semaphore_get detach_config take_configuration
get_initial_configuration starting_location =
    need_key
    >>= get_config
    >>= get_config_semaphore
    >>= attach_config
    >>= lock_config
    >>= unlock_config
    >>= detach_config
    >>= take_configuration starting_location

unfoldable pub get_shm_all_drones_data : Act
unfolding grab_key_from_file shm_get shm_attach semaphore_get
get_shm_all_drones_data =
    need_key >>= get_all_drones >>= attach_all_drones >>= need_key >>= get_stack >>= attach_stack
    >>= get_all_drones_semaphore

unfoldable pub get_gate_semaphore : Act
unfolding grab_key_from_file semaphore_get
get_gate_semaphore =
    need_key >>= (λ c. found put_gate_semaphore c (semaphore_get c.gate_semaphore c.answers))

abbrev pub with_gate : Client → Option (ℤ × Place × List Answer) → Option (ℤ × Client)
with_gate c none = none
with_gate c (some (k, p, r)) = some (k, record c { gate = p; answers = r })

unfoldable pub get_gate_fifo_sem : Act
unfolding fifo_sem_get
get_gate_fifo_sem c =
    with_gate c (fifo_sem_get (some gate_path) c.is_fifo c.descriptor c.gate c.answers)

-- `pthread_create`; the thread itself sets `battery_working`.
abbrev pub start_battery : Act
start_battery = call

-- `main` behind `process_argv_location` and before the registration: three signals, the configuration,
-- the segments, the gate, the battery.
unfoldable pub start_up : Location → Act
unfolding get_initial_configuration get_shm_all_drones_data get_gate_semaphore get_gate_fifo_sem
start_up starting_location =
    call
    >>= call
    >>= call
    >>= get_initial_configuration starting_location
    >>= get_shm_all_drones_data
    >>= get_gate_semaphore
    >>= get_gate_fifo_sem
    >>= start_battery

-- The gate: close, whose failure is only reported, and zero the structure.
abbrev pub zeroed : Option (ℤ × Place × List Answer) → Option (Place × List Answer)
zeroed none = none
zeroed (some (k, p, r)) =
    some
      (record p { fifo = record { path = []; file_descriptor = minus_one; capacity = pos 0 } }, r)

unfoldable pub leave_gate : Place → List Answer → Option (Place × List Answer)
unfolding fifo_sem_close
leave_gate p answers =
    if ltb_ℤ (pos 0) p.fifo.file_descriptor
    then zeroed (fifo_sem_close p answers)
    else some (p, answers)

abbrev pub put_gate : Place → Client → Client
put_gate p c = record c { gate = p }

abbrev pub forget_semaphores : Ending
forget_semaphores c = some (record c {
  all_drones_semaphore = record (c.all_drones_semaphore) { identifier = minus_one };
  gate_semaphore = record (c.gate_semaphore) { identifier = minus_one };
})

-- `pthread_join`, whose failure is only reported.
abbrev pub join_battery : Ending
join_battery c =
    let stopped : Client = record c { battery_working = false } in
    if c.battery_working
    then attempt c.answers (λ r. some (heard stopped r)) (λ r. some (heard stopped r))
    else some c

abbrev pub leave_gate_of : Ending
leave_gate_of c = written put_gate c (leave_gate c.gate c.answers)

unfoldable pub close_main : ℤ → Client → Option (ℤ × Client)
unfolding leave_segment leave_gate
close_main exit_code c =
    exits exit_code (
      (leave_all_drones >=> leave_stack >=> leave_gate_of >=> forget_semaphores >=> join_battery) c)
