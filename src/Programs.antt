-- ===== src/Programs.antt =====
-- The whole `main` of a drone, of the operator and of the commander: the start, the work, `close_main`
-- (src/dron/dron.c, src/operator/operator.c, src/system_commander/system_commander.c).
pub mod Dron
pub mod Operator
pub mod Commander
pub mod Ends
pub mod Success
pub mod Lowering
pub mod Shutdown
use so_lab_project.Prelude.{ℕ, Option, none, some, ℤ}
use so_lab_project.Ipc.{Answer}
use so_lab_project.Client.{Client}

-- Where a process calls `close_main`: the exit code, its variables, and the state of its work, unless
-- it did not get that far.
abbrev pub Stop : Type 0 → Type 0
Stop S = Option (ℤ × Client × Option S)

-- `close_main` there.
abbrev pub noted {ℓ} :
    {S : Type ℓ} → Option S → Option (ℤ × Client) → Option (ℤ × Client × Option S)
noted s none = none
noted s (some (e, c)) = some (e, c, s)

abbrev pub closed : {S : Type 0} → (ℤ → Client → Option (ℤ × Client)) → Stop S → Stop S
closed close none = none
closed close (some (e, c, s)) = noted s (close e c)
