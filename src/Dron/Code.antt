-- ===== src/Dron/Code.antt =====
-- src/dron/dron.c, function by function. A process reads the answers of the system calls in order;
-- it returns, ends with an exit code, or waits for an answer. Nothing else touches its world here:
-- how the critical sections of several drones interleave is in System.
use so_lab_project.Prelude.{
  ℕ, zero, suc, ◌+◌, ◌-◌, Bool, true, false, List, [], Option, none, some, ℤ, pos, negsuc, ltb, leb,
  leb_ℤ, ◌==◌, if◌then◌else◌,
}
use so_lab_project.Shm.{
  base, mission, is_base, DronData, DestructionReason, out_of_power, decommissioned, suicide,
}
use so_lab_project.Ipc.{
  Answer, minus_one, FifoSem, semaphore_lock, semaphore_unlock, fifo_sem_lock_timeout,
  fifo_sem_unlock,
}
use so_lab_project.Dron.{
  Shared, DronInternalData, slot, reserve, relocate, entered, left, remove_self,
}

-- The process and what it sees. `locked`: it holds the semaphore of the shared data. `tokens`: the
-- gate tokens that it has read and not yet written back; `taken`: all that it has read so far.
pub record World : Type 0 where
  pub answers : List Answer
  pub locked : Bool
  pub tokens : ℕ
  pub taken : ℕ
  pub shared : Shared
  pub me : DronInternalData
  pub local_data : DronData
  pub gate : FifoSem
  pub battery_percentage : ℕ
  pub is_charging : Bool
  pub got_sigusr1 : Bool
  pub got_shutdown_requested : Bool

pub data Outcome : Type 0 where
  ret : ℤ → Outcome
  exited : ℕ → Outcome
  blocked : Outcome

-- A C function that returns an `int`.
abbrev pub Code : Type 0
Code = World → Outcome × World

abbrev pub return : ℤ → Code
return c w = (ret c, w)

abbrev pub follow : Outcome × World → (ℤ → Code) → Outcome × World
follow (ret c, w) k = k c w
follow (exited e, w) k = (exited e, w)
follow (blocked, w) k = (blocked, w)

infixl 5 ◌>>=◌
abbrev pub ◌>>=◌ : Code → (ℤ → Code) → Code
◌>>=◌ m k w = follow (m w) k

-- `if (m == -1) { ...; return -1; }` and the rest.
abbrev pub or_fail : ℤ → Code → Code
or_fail (pos c) k = k
or_fail (negsuc c) k = return minus_one

-- `close_main`: the process ends; the system gives a held semaphore back (`SEM_UNDO`).
unfoldable pub close_main : ℕ → Code
close_main e w = (exited e, w)

-- The result of a retry loop, and the change that goes with 0.
abbrev pub system : Option (ℤ × List Answer) → (World → World) → Code
system none f w = (blocked, record w { answers = [] })
system (some (pos zero, rest)) f w = (ret (pos 0), f (record w { answers = rest }))
system (some (pos (suc c), rest)) f w = (ret (pos (suc c)), record w { answers = rest })
system (some (negsuc c, rest)) f w = (ret (negsuc c), record w { answers = rest })

unfoldable pub lock : Code
lock w = system (semaphore_lock w.answers) (λ v. record v { locked = true }) w

unfoldable pub unlock : Code
unlock w = system (semaphore_unlock w.answers) (λ v. record v { locked = false }) w

unfoldable pub take_token : Code
take_token w =
    system (fifo_sem_lock_timeout (some w.gate) w.answers)
      (λ v. record v { tokens = v.tokens + 1; taken = v.taken + 1 }) w

unfoldable pub give_token : Code
give_token w =
    system (fifo_sem_unlock (some w.gate) w.answers) (λ v. record v { tokens = v.tokens - 1 }) w

-- An assignment, then the rest.
abbrev pub after : (World → World) → Code → Code
after f k w = k (f w)

-- `pass_the_gate_fifo`.
unfoldable pub pass_the_gate_fifo : Code
unfolding take_token give_token
pass_the_gate_fifo = take_token >>= λ rc. elim rc [
  | pos c ↦ if c == 1 then return (pos 1) else (give_token >>= λ u. or_fail u (return (pos 0)))
  | negsuc c ↦ return minus_one
]

-- The block that takes the drone out of the shared memory and ends the process.
unfoldable pub leave_swarm : DestructionReason → Code
unfolding lock unlock close_main
leave_swarm reason = lock >>= λ l. or_fail l (
    after (λ w. record w { shared = (remove_self w.shared w.me reason).1 })
      (unlock >>= λ u. or_fail u (close_main 0)))

unfoldable pub process_sigusr1 : Code
unfolding leave_swarm
process_sigusr1 w =
    let v : World = record w { got_sigusr1 = false } in
    if ltb 20 w.battery_percentage then leave_swarm suicide v else return (pos 0) v

unfoldable pub battery_state_check : Code
unfolding leave_swarm
battery_state_check w =
    if leb w.battery_percentage 0 then leave_swarm out_of_power w else return (pos 0) w

-- `force_base_return` behind the gate: the update under the lock, then the local variables.
unfoldable pub arrive : Code
unfolding lock unlock
arrive = lock >>= λ l. or_fail l (
    after (λ w. record w { shared = (relocate w.shared (slot w.me) base).1 })
      (unlock >>= λ u.
        or_fail u
          (after (λ w. record w { me = entered w.me; is_charging = true }) (return (pos 0)))))

-- The way to the gate and what follows it, in either direction.
unfoldable pub through_gate : Code → Code
unfolding pass_the_gate_fifo
through_gate rest = pass_the_gate_fifo >>= λ result. elim result [
  | pos c ↦ if c == 1 then return (pos 0) else (if c == 0 then rest else return minus_one)
  | negsuc c ↦ return minus_one
]

-- The reservation under the lock; without room the call ends here.
unfoldable pub go_for_charge : Code
unfolding lock unlock arrive through_gate
go_for_charge = lock >>= λ l. or_fail l λ w.
    let (go, sh, me) = reserve w.shared w.me in
    let v : World = record w { shared = sh; me = me } in
    (unlock >>= λ u. or_fail u (if go then through_gate arrive else return (pos 0))) v

unfoldable pub force_base_return : Code
unfolding leave_swarm go_for_charge
force_base_return w =
    if ltb w.battery_percentage 20
    then (if leb_ℤ w.me.loading_cycles_left (pos 0)
        then leave_swarm decommissioned w
        else go_for_charge w)
    else return (pos 0) w

unfoldable pub depart : Code
unfolding lock unlock
depart = lock >>= λ l. or_fail l (
    after (λ w. record w { shared = (relocate w.shared (slot w.me) mission).1 })
      (unlock >>= λ u.
        or_fail u (after (λ w. record w { me = left w.me; is_charging = false }) (return (pos 0)))))

unfoldable pub force_leave_base : Code
unfolding depart through_gate
force_leave_base w =
    if leb 100 w.battery_percentage
    then (if is_base w.me.location then through_gate depart w else return (pos 0) w)
    else return (pos 0) w
