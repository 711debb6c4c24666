-- ===== src/Commander/Lowering.antt =====
-- The last step of the mission plan of src/system_commander/system_commander.c when no call fails
-- and the operator has halved the limit before each reading.
use native.Mathlib.Nat.{pow-suc}
use so_lab_project.Prelude.{
  ℕ, zero, suc, ◌/◌, ◌^◌, ◌≤◌, ◌<◌, ◌≡◌, refl, sym, ap, ◌∙◌, subst, Bool, true, false, List, [],
  ◌∷◌, ◌++◌, Option, some, ℤ, pos, leb_ℤ, half_ℤ, arith,
}
use so_lab_project.Shm.{AllDronesData}
use so_lab_project.Ipc.{Answer, semaphore_lock, semaphore_unlock}
use so_lab_project.Ipc.Attempts.{Succeed}
use so_lab_project.Ipc.Works.{more, split_answers}
use so_lab_project.Operator.{lower_limit}
use so_lab_project.Commander.{
  Sent, subtract_drones, Commander, read_locked, shutdown_requested, send, wait_on,
  mission_wait_seconds_interruptible, decrease_from, mission_step_decrease_drones_to_0,
}

-- The next `n` tests of `got_shutdown_requested` find no request.
abbrev pub Unasked : ℕ → List Bool → Type 0
Unasked zero checks = Unit {0}
Unasked (suc n) [] = ⊥
Unasked (suc n) (false ∷ checks) = Unasked n checks
Unasked (suc n) (true ∷ checks) = ⊥

two_checks :
    (n : ℕ) (checks : List Bool)
    → Unasked (more 2 n) checks
    → (r : List Bool) × (checks ≡ false ∷ false ∷ r) × Unasked n r
two_checks n [] h = absurd h
two_checks n (true ∷ r) h = absurd h
two_checks n (false ∷ []) h = absurd h
two_checks n (false ∷ true ∷ r) h = absurd h
two_checks n (false ∷ false ∷ r) h = (r, refl, h)

-- What the commander reads when each SIGUSR2 has been handled before it reads again.
abbrev pub halvings : ℕ → AllDronesData → List AllDronesData
halvings zero d = d ∷ []
halvings (suc k) d = d ∷ halvings k (lower_limit d)

-- `n` more signals SIGUSR2.
abbrev pub lowered_again : ℤ → ℕ → List Sent → List Sent
lowered_again op_pid zero sent = sent
lowered_again op_pid (suc n) sent = lowered_again op_pid n (subtract_drones op_pid ∷ sent)

module _ (op_pid : ℤ) (rest : List AllDronesData) where
  -- One turn of the loop, up to its next test, makes four calls.
  turn_works :
      (P : Option (ℤ × Commander) → Type 0) (n b : ℕ) (d : AllDronesData) (vs : List AllDronesData)
      (maximum : ℤ) (answers : List Answer) (checks : List Bool) (sent : List Sent)
      → leb_ℤ maximum (pos 0) ≡ false
      → Succeed (more 4 n) answers
      → Unasked (more 2 b) checks
      → ((r : List Answer) (t : List Bool)
          → Succeed n r
          → Unasked b t
          → P (
              decrease_from vs op_pid d.maximum_dron_in_base_count (record {
                answers = r;
                checks = t;
                views = vs;
                sent = subtract_drones op_pid ∷ sent;
              })))
      → P (
          decrease_from
            (d ∷ vs)
            op_pid
            maximum
            (record { answers = answers; checks = checks; views = d ∷ vs; sent = sent }))
  unfolding decrease_from shutdown_requested read_locked send mission_wait_seconds_interruptible
      wait_on semaphore_lock semaphore_unlock
  turn_works P n b d vs maximum answers checks sent go h u f =
      let (r, e, i) = split_answers 4 n answers h in
      let (t, e', j) = two_checks b checks u in rw (go, e, e') (f r t i j)

  ends_at :
      (vs : List AllDronesData) (maximum : ℤ) (c : Commander)
      → leb_ℤ maximum (pos 0) ≡ true
      → decrease_from vs op_pid maximum c ≡ some (pos 0, c)
  unfolding decrease_from
  ends_at [] maximum c e = rw e refl
  ends_at (v ∷ vs) maximum c e = rw e refl

-- Four calls for each turn of the loop, one turn more than `k`.
abbrev pub loop_calls : ℕ → ℕ
loop_calls zero = 4
loop_calls (suc k) = more 4 (loop_calls k)

-- Two tests of the flag for each turn.
abbrev pub loop_tests : ℕ → ℕ
loop_tests zero = 2
loop_tests (suc k) = more 2 (loop_tests k)

-- The step returned 0 behind `n` + 1 signals, at most `k` + 1, and the limit was less than 2 ^ n.
abbrev pub Lowered : ℤ → ℕ → ℕ → List Sent → Option (ℤ × Commander) → Type 0
Lowered op_pid k m sent o =
    (n : ℕ) × (c' : Commander) × (o ≡ some (pos 0, c'))
    × (c'.sent ≡ lowered_again op_pid (suc n) sent)
    × (n ≤ k)
    × (m < 2 ^ n)

none_left : (m : ℕ) → m < 2 ^ 0 → leb_ℤ (pos m) (pos 0) ≡ true
none_left m h = ground arith

positive : (m : ℕ) → leb_ℤ (pos (suc m)) (pos 0) ≡ false
positive m = ground arith

module _ (op_pid : ℤ) (rest : List AllDronesData) where
  abbrev Loops : ℕ → Type 0
  Loops k =
      (m : ℕ) (d : AllDronesData) (maximum : ℤ) (answers : List Answer) (checks : List Bool)
      (sent : List Sent)
      → d.maximum_dron_in_base_count ≡ pos m
      → m < 2 ^ k
      → leb_ℤ maximum (pos 0) ≡ false
      → Succeed (loop_calls k) answers
      → Unasked (loop_tests k) checks
      → Lowered op_pid k m sent (
          decrease_from (halvings k d ++ rest) op_pid maximum (record {
            answers = answers;
            checks = checks;
            views = halvings k d ++ rest;
            sent = sent;
          }))

  -- The turn behind one that read the limit `m`.
  turn_on :
      (k : ℕ)
      → Loops k
      → (m : ℕ) (d : AllDronesData) (answers : List Answer) (checks : List Bool) (sent : List Sent)
      → d.maximum_dron_in_base_count ≡ pos m
      → m < 2 ^ suc k
      → Succeed (loop_calls k) answers
      → Unasked (loop_tests k) checks
      → Lowered op_pid (suc k) m sent (
          decrease_from (halvings k (lower_limit d) ++ rest) op_pid (pos m) (record {
            answers = answers;
            checks = checks;
            views = halvings k (lower_limit d) ++ rest;
            sent = subtract_drones op_pid ∷ sent;
          }))
  unfolding lower_limit half_ℤ
  turn_on k on zero d answers checks sent e l h u = (
    0,
    _,
    ends_at op_pid rest (halvings k (lower_limit d) ++ rest) (pos 0) _ refl,
    refl,
    omega arith,
    omega arith,
  )
  turn_on k on (suc m) d answers checks sent e l h u =
      let (n, c', ends, sends, few, small) =
        on (suc m / 2) (lower_limit d) (pos (suc m)) answers checks (subtract_drones op_pid ∷ sent)
          (ap half_ℤ e) (omega (arith, pow-suc 2 k, l)) (positive m) h u in
      (suc n, c', ends, sends, omega (arith, few), omega (arith, pow-suc 2 n, small))

  loop_works : (k : ℕ) → Loops k
  loop_works zero m d maximum answers checks sent e l go h u =
      turn_works op_pid rest (Lowered op_pid 0 m sent) 0 0 d rest maximum answers checks sent go h u
        λ r t i j. (
          0,
          _,
          ends_at op_pid rest rest d.maximum_dron_in_base_count _
              (ap (λ v. leb_ℤ v (pos 0)) e ∙ none_left m l),
          refl,
          omega arith,
          omega arith,
        )
  loop_works (suc k) m d maximum answers checks sent e l go h u =
      turn_works op_pid rest (Lowered op_pid (suc k) m sent) (loop_calls k) (loop_tests k) d
        (halvings k (lower_limit d) ++ rest) maximum answers checks sent go h u
        λ r t i j.
          subst
            (λ x. Lowered op_pid (suc k) m sent (
              decrease_from (halvings k (lower_limit d) ++ rest) op_pid x (record {
                answers = r;
                checks = t;
                views = halvings k (lower_limit d) ++ rest;
                sent = subtract_drones op_pid ∷ sent;
              })))
            (sym e) (turn_on k (loop_works k) m d r t sent e l i j)

  -- The step with its first reading, where the limit is positive.
  pub mission_step_decrease_drones_to_0-Lowered :
      (k m : ℕ) (d : AllDronesData) (c : Commander)
      → d.maximum_dron_in_base_count ≡ pos (suc m)
      → suc m < 2 ^ k
      → c.views ≡ d ∷ halvings k d ++ rest
      → Succeed (more 2 (loop_calls k)) c.answers
      → Unasked (loop_tests k) c.checks
      → Lowered op_pid k (suc m) c.sent (mission_step_decrease_drones_to_0 op_pid c)
  unfolding mission_step_decrease_drones_to_0 read_locked semaphore_lock semaphore_unlock
  mission_step_decrease_drones_to_0-Lowered k m d c e l views h u =
      let (r, e', i) = split_answers 2 (loop_calls k) c.answers h in
      subst
        (λ (v : List Answer × List AllDronesData).
          Lowered op_pid k (suc m) c.sent
            (mission_step_decrease_drones_to_0 op_pid (record c { answers = v.0; views = v.1 })))
        (λ i. (sym e' i, sym views i))
        (loop_works k (suc m) d d.maximum_dron_in_base_count r c.checks c.sent e l
          (ap (λ x. leb_ℤ x (pos 0)) e ∙ positive m) i u)
