-- ===== src/System/Staffing/Parts.antt =====
-- How the parts of a turn of the operator's loop (src/operator/operator.c) lead from one state to
-- the next.
use so_lab_project.Prelude.{Bool, true, false, List, Option, none, some, ℤ, pos, negsuc}
use so_lab_project.Shm.{AllDronesData}
use so_lab_project.Ipc.{Answer, semaphore_lock, semaphore_unlock}
use so_lab_project.Operator.Loop.{
  Operator, Progress, goes_on, closes, waits, go_on, guarded, critical,
}

-- What holds of the state with which a part goes on.
abbrev pub Leads : (Operator → Type 0) → Progress → Type 0
Leads P (goes_on o) = P o
Leads P (closes e o) = Unit {0}
Leads P waits = Unit {0}

pub chain :
    (P Q : Operator → Type 0) (r : Progress) (k : Operator → Progress)
    → Leads P r
    → ((o : Operator) → P o → Leads Q (k o))
    → Leads Q (go_on r k)
chain P Q (goes_on o) k h f = f o h
chain P Q (closes e o) k h f = tt
chain P Q waits k h f = tt

guarded-Leads :
    (P : Operator → Type 0) (r : Option (ℤ × List Answer)) (b : Bool) (o : Operator)
    → ((answers : List Answer) → P (record o { answers = answers; locked = b }))
    → Leads P (guarded r b o)
guarded-Leads P none b o h = tt
guarded-Leads P (some (pos c, rest)) b o h = h rest
guarded-Leads P (some (negsuc c, rest)) b o h = tt

pub critical-Leads :
    (P : Operator → Type 0) (change : AllDronesData → AllDronesData) (o : Operator)
    → ((answers : List Answer)
        → P (record o { answers = answers; locked = false; all = change o.all }))
    → Leads P (critical change o)
unfolding critical
critical-Leads P change o h =
    let locked_ : Operator → Type 0 = λ p.
      (answers : List Answer)
      → P (record p { answers = answers; locked = false; all = change p.all }) in
    chain locked_ P (guarded (semaphore_lock o.answers) true o) _
      (guarded-Leads locked_ (semaphore_lock o.answers) true o (λ r. h))
      λ p f. guarded-Leads P (semaphore_unlock p.answers) false (record p { all = change p.all }) f
