-- ===== src/Client/Operator.antt =====
-- The operator's way to the shared objects and away from them (src/operator/operator.c): `main` up to
-- the first drones, and `close_main`.
use so_lab_project.Prelude.{List, [], ◌∷◌, Option, none, some, ℤ, pos, negsuc}
use so_lab_project.Ipc.{
  Answer, done, interrupted, timed_out, failed, minus_one, semaphore_lock, semaphore_unlock,
}
use so_lab_project.Ipc.Acts.{◌>>=◌, ◌>=>◌, exits}
use so_lab_project.Ipc.Objects.{
  Segment, shm_get, shm_attach, shm_detach, semaphore_get, grab_key_from_file,
}
use so_lab_project.Client.{
  Client, Act, heard, call, need_key, got, attached_to, found, put_config, put_config_semaphore,
  get_all_drones, attach_all_drones, get_stack, attach_stack, get_all_drones_semaphore, Ending,
  leave_segment, leave_all_drones, leave_stack,
}

-- `shm_detach` of the configuration with the check of its result.
abbrev pub detached : Client → Option (ℤ × Segment × List Answer) → Option (ℤ × Client)
detached c none = none
detached c (some (k, g, r)) = some (k, put_config g (heard c r))

unfoldable pub detach_config : Act
unfolding shm_detach
detach_config c = detached c (shm_detach c.config c.answers)

-- A call of the semaphore; behind a failure C detaches and fails.
abbrev pub fail : Option (ℤ × Client) → Option (ℤ × Client)
fail none = none
fail (some (k, c)) = some (minus_one, c)

abbrev pub guarded : Client → Option (ℤ × List Answer) → Option (ℤ × Client)
guarded c none = none
guarded c (some (pos k, r)) = some (pos k, heard c r)
guarded c (some (negsuc k, r)) = fail (detach_config (heard c r))

abbrev pub lock_config : Act
lock_config c = guarded c (semaphore_lock c.answers)

abbrev pub unlock_config : Act
unlock_config c = guarded c (semaphore_unlock c.answers)

abbrev pub copy_config : Act
copy_config c = some (pos 0, record c { configuration = some c.stored })

abbrev pub get_config : Act
get_config c = got put_config c (shm_get c.config c.answers)

abbrev pub attach_config : Act
attach_config c = attached_to put_config c (shm_attach c.config c.answers)

abbrev pub get_config_semaphore : Act
get_config_semaphore c = found put_config_semaphore c (semaphore_get c.config_semaphore c.answers)

unfoldable pub get_configuration_from_shm_config : Act
unfolding grab_key_from_file shm_get shm_attach semaphore_get detach_config
get_configuration_from_shm_config =
    need_key >>= get_config >>= get_config_semaphore >>= attach_config >>= lock_config
    >>= copy_config >>= unlock_config >>= detach_config

unfoldable pub get_shm_all_drones_data : Act
unfolding grab_key_from_file shm_get shm_attach semaphore_get
get_shm_all_drones_data =
    need_key >>= get_all_drones >>= attach_all_drones >>= need_key >>= get_stack >>= attach_stack
    >>= get_all_drones_semaphore

-- `main` before the first drones: five signals, the configuration, the segments.
unfoldable pub start_up : Act
unfolding get_configuration_from_shm_config get_shm_all_drones_data
start_up =
    call >>= call >>= call >>= call >>= call >>= get_configuration_from_shm_config
    >>= get_shm_all_drones_data

abbrev pub forget_semaphore : Ending
forget_semaphore c =
    some (record c {
      all_drones_semaphore = record (c.all_drones_semaphore) { identifier = minus_one };
    })

-- `while (wait(&status) > 0)`: it goes on as long as `wait` gives the number of a child that ended,
-- and stops at the first failure. `main` ignores SIGCHLD, and then the first `wait` already fails,
-- but only once every child has ended.
unfoldable pub reap : List Answer → Option (List Answer)
reap [] = none
reap (done ∷ rest) = reap rest
reap (interrupted ∷ rest) = some rest
reap (timed_out ∷ rest) = some rest
reap (failed ∷ rest) = some rest

abbrev pub reaped : Client → Option (List Answer) → Option Client
reaped c none = none
reaped c (some r) = some (record c { waits = r })

abbrev pub reap_children : Ending
reap_children c = reaped c (reap c.waits)

unfoldable pub close_main : ℤ → Client → Option (ℤ × Client)
unfolding leave_segment reap
close_main exit_code c =
    exits exit_code ((leave_all_drones >=> leave_stack >=> forget_semaphore >=> reap_children) c)
