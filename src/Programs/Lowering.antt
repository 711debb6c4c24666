-- ===== src/Programs/Lowering.antt =====
-- The operator from its start to its end when no call fails (src/operator/operator.c).
use so_lab_project.Prelude.{
  true, false, subst, by_test, ℕ, zero, suc, ◌≡◌, refl, ap, ◌∙◌, false, List, ◌∷◌, ◌++◌, some, pos,
  replicate, arith,
}
use so_lab_project.Shm.{AllDronesData, Location, mission, base}
use so_lab_project.Ipc.{Answer, done, failed}
use so_lab_project.Ipc.Works.{more, split_answers, Supply, succeeding}
use so_lab_project.Ipc.Attempts.{Succeed}
use so_lab_project.Operator.Loop.{
  Operator, Progress, goes_on, go_on, fork_outcome, creat_dron, generate_starting_drones, Signals,
  main_loop,
}
use so_lab_project.Operator.Reacting.{Below}
use so_lab_project.Operator.Lowering.{
  NeverRaise, lowers, turn_calls, ClosedWell, main_loop-ClosedWell,
}
use so_lab_project.Client.{Client, heard}
use so_lab_project.Client.Success.{operator_starts}
use so_lab_project.Client.Operator.{start_up, close_main}
use so_lab_project.Client.Holding.{Held, Reached, IsNew}
use so_lab_project.Client.Starting.{start_ups-Held}
use so_lab_project.Client.Reaping.{close_main-Reaps}
use so_lab_project.Client.Leaving.{SegmentLeft}
use so_lab_project.Ipc.Acts.{EndsIn}
use so_lab_project.Programs.{closed, noted}
use so_lab_project.Programs.Operator as Whole

module _ (A : Supply) (q : ℕ) where
  -- Each of the `n` starting drones takes one call.
  generate_works :
      (P : Progress → Type 0) (n : ℕ) (o : Operator) (answers : List Answer)
      → o.got_shutdown_requested ≡ false
      → A.Lasts (more n q) answers
      → ((r : List Answer) (created : List Location)
          → A.Lasts q r
          → P (goes_on (record o { answers = r; created = created })))
      → P (generate_starting_drones n (record o { answers = answers }))
  unfolding generate_starting_drones creat_dron fork_outcome
  generate_works P zero o answers e h f = f answers o.created h
  generate_works P (suc n) o answers e h f =
      let (r, same, i) = A.one (more n q) answers h in
      by_test P o.got_shutdown_requested _ _ (λ asked. absurd (ground (arith, asked, e)))
        (λ go. rw same (generate_works P n (record o { created = mission ∷ o.created }) r e i f))

module _ (all : AllDronesData) (before after : List Signals) (last : Signals) (c : Client)
    (r : List Answer) where
  -- `main` comes to `close_main` with exit code 0.
  run-Closes :
      (A : Supply) (q : ℕ)
      → NeverRaise before
      → Below (lowers before) all
      → A.Lasts (more c.stored.starting_drones_count (turn_calls q (last ∷ before))) r
      → (d : Client) × (o : Operator) × (start_up (heard c (replicate 25 done ++ r))
          ≡ some (pos 0, d))
        × (Whole.run all (before ++ last ∷ after) (heard c (replicate 25 done ++ r))
            ≡ some (pos 0, record d { answers = o.answers }, some o))
        × A.Lasts q o.answers
        × (d.waits ≡ c.waits)
  unfolding Whole.run Whole.work Whole.begin
  run-Closes A q calm low h =
      let n = c.stored.starting_drones_count in
      let es : List Signals = before ++ last ∷ after in
      let (d, starts, config, on, waits, back) = operator_starts c r in
      let begun : Operator = Whole.begin all d in
      let (o, ends, left) =
        generate_works A (turn_calls q (last ∷ before))
          (λ x. ClosedWell A q (go_on x (main_loop n es))) n begun d.answers refl (rw on h)
          (λ a created s.
            main_loop-ClosedWell A q n before after last
              (record begun { answers = a; created = created }) calm refl refl low s) in
      (
        d,
        o,
        starts,
        ap (Whole.started all es) starts
            ∙ ap (λ cfg. Whole.worked d (Whole.work (Whole.starting_drones cfg) es begun)) config
            ∙ ap (Whole.worked d) ends,
        left,
        waits,
      )

  -- An operator without a SIGUSR1 meanwhile, and with a limit in the shared memory that is not
  -- negative and less than 2 ^ k, for the `k` signals SIGUSR2, at least one, that come during the
  -- turns `before`. Its calls succeed (25 for the start, one for each starting drone, seven for
  -- each turn, two for the end), and `wait` gives `children` children (0 where SIGCHLD is ignored,
  -- as `main` sets it) and then fails. It ends with exit code 0, no segment is attached, and it has
  -- waited up to the failure.
  pub operator_main-Succeeds :
      (children : ℕ) (rest : List Answer)
      → IsNew c
      → NeverRaise before
      → Below (lowers before) all
      → Succeed (more c.stored.starting_drones_count (turn_calls 2 (last ∷ before))) r
      → c.waits ≡ replicate children done ++ failed ∷ rest
      → (c' : Client) × (o : Operator) × (Whole.main all
            (before ++ last ∷ after)
            (heard c (replicate 25 done ++ r))
          ≡ some (pos 0, c', some o))
        × SegmentLeft c.all_drones c'.all_drones
        × SegmentLeft c.stack c'.stack
        × (c'.waits ≡ rest)
  unfolding Whole.main
  operator_main-Succeeds children rest new calm low h w =
      let (d, o, starts, ends, enough, waits) = run-Closes succeeding 2 calm low h in
      let (calls, left, spared) = split_answers 2 0 o.answers enough in
      let reached =
        subst (EndsIn (Held c) (Reached c true true false)) starts
          (start_ups-Held base (heard c (replicate 25 done ++ r)) new).1 in
      let (c', closes, drones, stack, over) =
        close_main-Reaps (pos 0) c (record d { answers = o.answers }) children calls rest reached.0
          left (waits ∙ w) in
      (c', o, ap (closed close_main) ends ∙ ap (noted (some o)) closes, drones, stack, over)
