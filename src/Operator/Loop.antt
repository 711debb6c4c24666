-- ===== src/Operator/Loop.antt =====
-- The loop in `main` of src/operator/operator.c. The operator reads the answers of `semop` and
-- `fork` in order; each part of the loop goes on, closes the process with an exit code, or waits.
use so_lab_project.Prelude.{
  ℕ, zero, suc, Bool, true, false, ◌||◌, List, [], ◌∷◌, Option, none, some, ℤ, pos, negsuc, leb_ℤ,
  if◌then◌else◌,
}
use so_lab_project.Shm.{Location, base, mission, AllDronesData}
use so_lab_project.Ipc.{Answer, done, semaphore_lock, semaphore_unlock}
use so_lab_project.Dron.{has_room}
use so_lab_project.Operator.{raise_limit, lower_limit}

-- The operator and what it sees; `created` lists the places its children start in, the last one
-- first.
pub record Operator : Type 0 where
  pub answers : List Answer
  pub locked : Bool
  pub all : AllDronesData
  pub created : List Location
  pub got_sigusr1 : Bool
  pub got_sigusr2 : Bool
  pub got_shutdown_requested : Bool

pub data Progress : Type 0 where
  goes_on : Operator → Progress
  closes : ℕ → Operator → Progress
  waits : Progress

abbrev pub go_on : Progress → (Operator → Progress) → Progress
go_on (goes_on o) k = k o
go_on (closes e o) k = closes e o
go_on waits k = waits

-- One `semop` with its error check; `b` is whether the semaphore is held after it.
abbrev pub guarded : Option (ℤ × List Answer) → Bool → Operator → Progress
guarded none b o = waits
guarded (some (pos c, rest)) b o = goes_on (record o { answers = rest; locked = b })
guarded (some (negsuc c, rest)) b o = closes 1 (record o { answers = rest })

-- A change of the shared memory between `semaphore_lock` and `semaphore_unlock`.
unfoldable pub critical : (AllDronesData → AllDronesData) → Operator → Progress
critical change o =
    go_on (guarded (semaphore_lock o.answers) true o)
      λ p. guarded (semaphore_unlock p.answers) false (record p { all = change p.all })

-- `creat_dron`: one `fork`; a child replaces itself by `./dron` with the place as its argument.
unfoldable pub fork_outcome : Location → List Answer → Operator → Option (ℤ × Operator)
fork_outcome l [] o = none
fork_outcome l (done ∷ rest) o = some (pos 1, record o { answers = rest; created = l ∷ o.created })
fork_outcome l (_ ∷ rest) o = some (negsuc 0, record o { answers = rest })

unfoldable pub creat_dron : Location → Operator → Option (ℤ × Operator)
unfolding fork_outcome
creat_dron l o = fork_outcome l o.answers o

-- The loop of `generate_starting_drones`, with `n` drones left; a failed `fork` closes the process.
unfoldable pub generate_starting_drones : ℕ → Operator → Progress
unfolding creat_dron
generate_starting_drones zero o = goes_on o
generate_starting_drones (suc n) o =
    if o.got_shutdown_requested then goes_on o else elim (creat_dron mission o) [
      | none ↦ waits
      | some (c, p) ↦ elim c [ pos z ↦ generate_starting_drones n p | negsuc z ↦ closes 1 p ]
    ]

unfoldable pub react_sigusr1 : ℕ → Operator → Progress
unfolding critical
react_sigusr1 starting_drones_count o =
    if o.got_sigusr1
    then critical (raise_limit starting_drones_count) (record o { got_sigusr1 = false })
    else goes_on o

-- A limit that is not positive any more asks for the shutdown.
unfoldable pub react_sigusr2 : Operator → Progress
unfolding critical
react_sigusr2 o =
    if o.got_sigusr2
    then go_on (critical lower_limit (record o { got_sigusr2 = false })) (λ p. goes_on (
        if leb_ℤ p.all.maximum_dron_in_base_count (pos 0)
        then record p { got_shutdown_requested = true }
        else p))
    else goes_on o

-- A failed `fork` does not stop the program.
abbrev pub with_child : Option (ℤ × Operator) → Progress
with_child none = waits
with_child (some (c, o)) = goes_on o

unfoldable pub resupply : Operator → Progress
unfolding critical creat_dron
resupply o =
    go_on (critical (λ d. d) o)
      λ p. if has_room p.all then with_child (creat_dron base p) else goes_on p

unfoldable pub describe_self : Operator → Progress
unfolding critical
describe_self o = critical (λ d. d) o

-- The body of the loop.
unfoldable pub turn : ℕ → Operator → Progress
unfolding react_sigusr1 react_sigusr2 resupply describe_self
turn n o =
    go_on (react_sigusr1 n o) λ p. go_on (react_sigusr2 p) λ q. go_on (resupply q) describe_self

-- The signals that come in during `usleep`.
pub record Signals : Type 0 where
  pub sigusr1 : Bool
  pub sigusr2 : Bool
  pub shutdown : Bool

abbrev pub receive : Signals → Operator → Operator
receive e o = record o {
  got_sigusr1 = o.got_sigusr1 || e.sigusr1;
  got_sigusr2 = o.got_sigusr2 || e.sigusr2;
  got_shutdown_requested = o.got_shutdown_requested || e.shutdown;
}

-- The loop, for as long as the list says which signals come in.
unfoldable pub main_loop : ℕ → List Signals → Operator → Progress
unfolding turn
main_loop n [] o = if o.got_shutdown_requested then closes 0 o else waits
main_loop n (e ∷ es) o =
    let rest = go_on (turn n o) (λ p. main_loop n es (receive e p)) in
    if o.got_shutdown_requested then closes 0 o else rest
