-- ===== src/Client/Commander.antt =====
-- The commander's way to the shared objects and away from them (src/system_commander/): `main` up to
-- the mission plan, and `close_main`.
use so_lab_project.Prelude.{
  ℕ, Bool, false, List, Option, none, some, ℤ, pos, negsuc, zero, suc, true, if◌then◌else◌,
}
use so_lab_project.Ipc.{Answer, minus_one}
use so_lab_project.Ipc.Acts.{◌>>=◌, ◌>=>◌, exits}
use so_lab_project.Ipc.Objects.{
  Segment, shm_get, shm_attach, shm_detach, semaphore_get, grab_key_from_file,
}
use so_lab_project.Setup.{Strtol, parse_positive_int, int_max}
use so_lab_project.Client.{
  Client, Act, call, need_key, any_key, get_all_drones, attach_all_drones, get_stack, attach_stack,
  get_all_drones_semaphore, put_all_drones, put_stack, Ending, written,
}

-- The pid, or `none` where C exits.
unfoldable pub process_argv_operator_pid : Option Strtol → Option ℕ
unfolding parse_positive_int
process_argv_operator_pid none = none
process_argv_operator_pid (some arg) = parse_positive_int arg int_max

-- The key of the stack is used without a check.
unfoldable pub get_shm_all_drones_data : Act
unfolding grab_key_from_file shm_get shm_attach semaphore_get
get_shm_all_drones_data =
    need_key >>= get_all_drones >>= attach_all_drones >>= any_key >>= get_stack >>= attach_stack
    >>= get_all_drones_semaphore

-- `main` between the argument and the mission plan: two signals and the segments.
unfoldable pub start_up : Act
unfolding get_shm_all_drones_data
start_up = call >>= call >>= get_shm_all_drones_data

abbrev pub unmapped : Option (ℤ × Segment × List Answer) → Option (Segment × List Answer)
unmapped none = none
unmapped (some (k, g, r)) = some (record g { mapped = false }, r)

unfoldable pub release_segment : Segment → List Answer → Option (Segment × List Answer)
unfolding shm_detach
release_segment g answers = if g.mapped then unmapped (shm_detach g answers) else some (g, answers)

abbrev pub release_all_drones : Ending
release_all_drones c = written put_all_drones c (release_segment c.all_drones c.answers)

abbrev pub release_stack : Ending
release_stack c = written put_stack c (release_segment c.stack c.answers)

abbrev pub forget_ids : Ending
forget_ids c = some (record c {
  all_drones = record (c.all_drones) { identifier = minus_one };
  stack = record (c.stack) { identifier = minus_one };
  all_drones_semaphore = record (c.all_drones_semaphore) { identifier = minus_one };
})

unfoldable pub cleanup_ipc_attachments : Ending
unfolding release_segment
cleanup_ipc_attachments = release_all_drones >=> release_stack >=> forget_ids

unfoldable pub close_main : ℤ → Client → Option (ℤ × Client)
unfolding cleanup_ipc_attachments
close_main exit_code c = exits exit_code (cleanup_ipc_attachments c)

-- `mission_result == -1`.
unfoldable pub is_failure : ℤ → Bool
is_failure (pos c) = false
is_failure (negsuc zero) = true
is_failure (negsuc (suc c)) = false

-- The end of `main`, behind the mission plan.
unfoldable pub finish :
    (got_shutdown_requested : Bool) (mission_result : ℤ) → Client → Option (ℤ × Client)
unfolding close_main is_failure
finish got_shutdown_requested mission_result c =
    if got_shutdown_requested
    then close_main (pos 0) c
    else (if is_failure mission_result then close_main (pos 1) c else close_main (pos 0) c)
