-- ===== src/Tests/Semaphores.antt =====
-- Two drones that reserve a place in the base; the first one dies in the middle of its critical
-- section.
use so_lab_project.Prelude.{
  ℕ, zero, suc, ◌+◌, ◌-◌, ◌≡◌, ◌≢◌, refl, ◌∙◌, true, List, [], ◌∷◌, Option, none, some, pos, arith,
  ◌+ℤ◌,
}
use so_lab_project.Ipc.{done, interrupted, semaphore_lock}
use so_lab_project.Dron.{Shared, DronInternalData}
use so_lab_project.System.Semaphore.{
  Kernel, Act, Work, outside, after_lock, State, put, begins, semop_lock, writes, dies, Reach, here,
  next, IsStart, work_of, sections,
}
use so_lab_project.System.Semaphore.Changes.{put_rule, put_at}
use so_lab_project.System.Semaphore.Exclusion.{OneByOne, semaphore_lock-Excludes, sections-OneByOne}
use so_lab_project.Tests.Swarms.{launched, fresh}

-- The value, and what each process has to give back.
abbrev Counts : Type 0
Counts = ℕ × (ℕ → ℕ)

abbrev down : ℕ → Counts → Option Counts
down p (zero, u) = none
down p (suc n, u) = some (n, put p (suc (u p)) u)

put_else : {X : Type 0} (p q : ℕ) (x : X) (f : ℕ → X) → q ≢ p → put p x f q ≡ f q
put_else p q x f = put_rule (λ r y. r ≢ p → y ≡ f r) p x f (λ n. absurd (n refl)) (λ r n m. refl) q

down-none : (p : ℕ) (k : Counts) → k.0 ≡ 0 → down p k ≡ none
down-none p (zero, u) e = refl
down-none p (suc m, u) e = absurd (omega arith)

down-some :
    (p n : ℕ) (k : Counts)
    → k.0 ≡ suc n
    → (k' : Counts) × (down p k ≡ some k')
      × (k'.0 ≡ n)
      × (k'.1 p ≡ suc (k.1 p))
      × ((q : ℕ) → q ≢ p → k'.1 q ≡ k.1 q)
down-some p n (zero, u) e = absurd (omega arith)
down-some p n (suc m, u) e = (
  (m, put p (suc (u p)) u),
  refl,
  omega arith,
  put_at p (suc (u p)) u,
  λ q h. put_else p q (suc (u p)) u h,
)

abbrev counting : Kernel
counting = record {
  State = Counts;
  value = λ k. k.0;
  undo = λ p k. k.1 p;
  wait = down;
  signal = λ p k. (suc (k.0), put p (k.1 p - 1) (k.1));
  exit = λ p k. (k.0 + k.1 p, put p 0 (k.1));
  waits = down-none;
  takes = down-some;
  signal_value = λ p k. refl;
  signal_undo = λ p n k e. put_at p (k.1 p - 1) (k.1) ∙ omega (arith, e);
  signal_others = λ p q k n. put_else p q (k.1 p - 1) (k.1) n;
  exit_value = λ p k. refl;
  exit_undo = λ p k. put_at p 0 (k.1);
  exit_others = λ p q k n. put_else p q 0 (k.1) n;
}

-- The reservation in `force_base_return`, assignment by assignment.
abbrev count_reservation : Act Shared DronInternalData
count_reservation (sh, me) = (
  record sh {
    all = record (sh.all) {
      dron_reserving_space_count = sh.all.dron_reserving_space_count +ℤ pos 1;
    };
  },
  me,
)

abbrev note_reservation : Act Shared DronInternalData
note_reservation (sh, me) = (sh, record me { have_reserved_space = true })

abbrev section : List (Act Shared DronInternalData)
section = count_reservation ∷ note_reservation ∷ []

abbrev at_first : State counting Shared DronInternalData
at_first = record { kernel = (1, λ q. 0); shared = launched; phases = λ q. outside }

record Run : Type 0 where
  last : State counting Shared DronInternalData
  reach : Reach at_first last

-- Process 8 has asked for the semaphore, was interrupted and asks again, while 7 is between its two
-- writes.
both_want : Run
unfolding after_lock semaphore_lock
both_want = record {
  last = _;
  reach =
      next
        (next
          (next (next (next here (begins 7 fresh section refl)) (begins 8 fresh section refl))
            (semop_lock 7 fresh section done _ refl refl))
          (semop_lock 8 fresh section interrupted _ refl refl))
        (writes 7 _ count_reservation (note_reservation ∷ []) _ _ refl refl);
}

-- Then 7 dies, and 8 has its turn.
second_in : Run
unfolding both_want after_lock semaphore_lock
second_in = record {
  last = _;
  reach = next (next both_want.reach (dies 7)) (semop_lock 8 fresh section done _ refl refl);
}

at_first-IsStart : IsStart at_first
at_first-IsStart = record { free = refl; nothing_to_undo = λ p. refl; all_outside = λ p. refl }

-- The section of 7 is over with the one write it did.
abbrev cut_short : Work Shared DronInternalData
cut_short = record {
  before = fresh;
  written = count_reservation ∷ [];
  now = (count_reservation (launched, fresh)).1;
}

second_in-sections : sections second_in.reach ≡ (7, cut_short) ∷ []
unfolding second_in both_want
second_in-sections = refl

sections-OneByOne_example : OneByOne launched (sections second_in.reach) second_in.last
sections-OneByOne_example =
    sections-OneByOne at_first second_in.last second_in.reach at_first-IsStart

abbrev second : Work Shared DronInternalData
second = record { before = fresh; written = []; now = fresh }

second_works : work_of (second_in.last.phases 8) ≡ some second
unfolding second_in
second_works = refl

abbrev seven : ℕ
seven = 7

other : seven ≢ 8
other e = omega arith

semaphore_lock-Excludes_example : work_of (second_in.last.phases 7) ≡ none
semaphore_lock-Excludes_example =
    semaphore_lock-Excludes at_first second_in.last second_in.reach 8 7 second at_first-IsStart
      second_works other
