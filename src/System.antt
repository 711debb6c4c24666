-- ===== src/System.antt =====
-- The whole swarm: the shared memory, the tokens of the gate FIFO and the drone processes, whose
-- critical sections (src/dron/dron.c) interleave in any order with one another and with the
-- operator's (src/operator/operator.c). Battery, timeouts and signals are left open: whatever they
-- can make a drone do at a point, it may do there. A drone that stops by a shutdown request keeps
-- its slot and its reservation, as `close_main` does not give them back.
pub mod Invariant
pub mod Local
pub mod Slots
pub mod Steps
pub mod Moves
pub mod Reach
pub mod Safety
pub mod Occupancy
pub mod Traces
pub mod Refinement
pub mod Staffing
pub mod Ledger
pub mod Semaphore
use so_lab_project.Prelude.{
  ℕ, ◌+◌, ◌-◌, ◌<◌, ◌≡◌, ◌⊎◌, Bool, true, false, List, [], ◌∷◌, ◌++◌, Option, none, some, pos,
  leb_ℤ, get_elem?, set, if◌then◌else◌,
}
use so_lab_project.Shm.{Location, base, mission, DronData, DestructionReason}
use so_lab_project.Dron.{
  Shared, DronInternalData, Registration, no_room, no_memory, placed, register, registered, slot,
  reserve, relocate, entered, left, remove_self,
}
use so_lab_project.Operator.{raise_limit, lower_limit}

pub data Direction : Type 0 where
  inward outward : Direction

-- Where a drone stands: in its loop, in `pass_the_gate_fifo` waiting for a token, holding one, or
-- past the gate and not yet accounted for in the shared memory; or closed down.
pub data Phase : Type 0 where
  idle : Phase
  waiting : Direction → Phase
  inside : Direction → Phase
  past : Direction → Phase
  stopped : Phase

pub data Proc : Type 0 where
  starting : DronData → DronInternalData → Proc
  active : Phase → DronInternalData → Proc
  gone : Proc

pub record Swarm : Type 0 where
  pub shared : Shared
  pub tokens : ℕ
  pub procs : List Proc

-- A process is born in the base or on a mission (`creat_dron`), with no reservation.
abbrev pub IsBorn : DronData → DronInternalData → Type 0
IsBorn x me =
    (x.location ≡ me.location)
    × (me.have_reserved_space ≡ false)
    × ((me.location ≡ base) ⊎ (me.location ≡ mission))

abbrev pub at : Swarm → ℕ → Proc → Swarm
at s k p = record s { procs = set s.procs k p }

pub data Step (n : ℕ) (s : Swarm) : Swarm → Type 0 where
  -- `creat_dron`
  forks :
      (x : DronData) (me : DronInternalData)
      → IsBorn x me
      → Step n s (record s { procs = s.procs ++ starting x me ∷ [] })
  -- `try_adding_self_to_shm`
  refused :
      (k : ℕ) (x : DronData) (me : DronInternalData)
      → get_elem? s.procs k ≡ some (starting x me)
      → register s.shared x ≡ no_room
      → Step n s (at s k gone)
  out_of_memory :
      (k : ℕ) (x : DronData) (me : DronInternalData) (sh : Shared)
      → get_elem? s.procs k ≡ some (starting x me)
      → register s.shared x ≡ no_memory sh
      → Step n s (record (at s k gone) { shared = sh })
  joins :
      (k : ℕ) (x : DronData) (me : DronInternalData) (i id : ℕ) (sh : Shared)
      → get_elem? s.procs k ≡ some (starting x me)
      → register s.shared x ≡ placed i id sh
      → Step n s (record (at s k (active idle (registered me i id))) { shared = sh })
  -- `force_base_return`: the reservation, with or without success
  reserves :
      (k : ℕ) (me me' : DronInternalData) (sh : Shared)
      → get_elem? s.procs k ≡ some (active idle me)
      → me.location ≡ mission
      → leb_ℤ me.loading_cycles_left (pos 0) ≡ false
      → reserve s.shared me ≡ (true, sh, me')
      → Step n s (record (at s k (active (waiting inward) me')) { shared = sh })
  -- `force_leave_base`: off to the gate
  turns :
      (k : ℕ) (me : DronInternalData)
      → get_elem? s.procs k ≡ some (active idle me)
      → me.location ≡ base
      → Step n s (at s k (active (waiting outward) me))
  -- `pass_the_gate_fifo`: the timeout, a token taken, the token put back
  gives_up :
      (k : ℕ) (me : DronInternalData) (to : Direction)
      → get_elem? s.procs k ≡ some (active (waiting to) me)
      → Step n s (at s k (active idle me))
  enters_gate :
      (k : ℕ) (me : DronInternalData) (to : Direction)
      → get_elem? s.procs k ≡ some (active (waiting to) me)
      → 0 < s.tokens
      → Step n s (record (at s k (active (inside to) me)) { tokens = s.tokens - 1 })
  leaves_gate :
      (k : ℕ) (me : DronInternalData) (to : Direction)
      → get_elem? s.procs k ≡ some (active (inside to) me)
      → Step n s (record (at s k (active (past to) me)) { tokens = s.tokens + 1 })
  -- the second critical sections of `force_base_return` and `force_leave_base`
  arrives :
      (k : ℕ) (me : DronInternalData)
      → get_elem? s.procs k ≡ some (active (past inward) me)
      → Step n s (record (at s k (active idle (entered me))) {
        shared = (relocate s.shared (slot me) base).1;
      })
  departs :
      (k : ℕ) (me : DronInternalData)
      → get_elem? s.procs k ≡ some (active (past outward) me)
      → Step n s (record (at s k (active idle (left me))) {
        shared = (relocate s.shared (slot me) mission).1;
      })
  -- `process_sigusr1`, `battery_state_check`, and `force_base_return` with no cycles left
  removes :
      (k : ℕ) (me : DronInternalData) (reason : DestructionReason)
      → get_elem? s.procs k ≡ some (active idle me)
      → Step n s (record (at s k gone) { shared = (remove_self s.shared me reason).1 })
  -- the loop ends on a shutdown request
  stops :
      (k : ℕ) (me : DronInternalData)
      → get_elem? s.procs k ≡ some (active idle me)
      → Step n s (at s k (active stopped me))
  -- the operator's reactions to SIGUSR1 and SIGUSR2; `n` is the number of starting drones
  raises : Step n s (record s { shared = record (s.shared) { all = raise_limit n s.shared.all } })
  lowers : Step n s (record s { shared = record (s.shared) { all = lower_limit s.shared.all } })
