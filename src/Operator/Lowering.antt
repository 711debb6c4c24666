-- ===== src/Operator/Lowering.antt =====
-- How the signals SIGUSR2 end the operator when no call fails (src/operator/operator.c).
use so_lab_project.Prelude.{
  by_test, ℕ, ◌≡◌, inl, inr, refl, true, false, List, [], ◌∷◌, ◌++◌, arith,
}
use so_lab_project.Ipc.{Answer}
use so_lab_project.Ipc.Works.{Supply, spare_more, more}
use so_lab_project.Operator.Loop.{Operator, Progress, closes, turn, Signals, receive, main_loop}
use so_lab_project.Operator.Reacting.{Below, Dropping, waiting, follow-Fell, turn-Fell}

-- The signals SIGUSR2 in these turns.
abbrev pub lowers : List Signals → ℕ
lowers [] = 0
lowers (e ∷ es) = waiting e.sigusr2 (lowers es)

abbrev pub NeverRaise : List Signals → Type 0
NeverRaise [] = Unit {0}
NeverRaise (e ∷ es) = (e.sigusr1 ≡ false) × NeverRaise es

still_asked :
    (e : Signals) (p : Operator) → Dropping 0 p → (receive e p).got_shutdown_requested ≡ true
still_asked e p (inl asked) = rw asked refl
still_asked e p (inr (m, i, l, h)) = absurd (omega (arith, h))

received :
    (k : ℕ) (e : Signals) (p : Operator)
    → p.got_sigusr2 ≡ false
    → Dropping (waiting e.sigusr2 k) p
    → Dropping (waiting (receive e p).got_sigusr2 k) (receive e p)
received k e p none_ (inl asked) = inl (rw asked refl)
received k e p none_ (inr below) = inr (rw none_ below)

-- Seven calls for each turn, and `q` behind them.
abbrev pub turn_calls : ℕ → List Signals → ℕ
turn_calls q [] = q
turn_calls q (e ∷ es) = more 7 (turn_calls q es)

module _ (A : Supply) (q : ℕ) where
  abbrev pub ClosedWell : Progress → Type 0
  ClosedWell x = (p : Operator) × (x ≡ closes 0 p) × A.Lasts q p.answers

  spare_turns : (es : List Signals) (a : List Answer) → A.Lasts (turn_calls q es) a → A.Lasts q a
  spare_turns [] a h = h
  spare_turns (e ∷ es) a h = spare_turns es a (spare_more A 7 (turn_calls q es) a h)

  stops_at_once :
      (m : ℕ) (es : List Signals) (o : Operator)
      → o.got_shutdown_requested ≡ true
      → A.Lasts q o.answers
      → ClosedWell (main_loop m es o)
  unfolding main_loop
  stops_at_once m [] o e h = (o, simp e refl, h)
  stops_at_once m (s ∷ es) o e h = (o, simp e refl, h)

  falls :
      (m : ℕ) (before after : List Signals) (last : Signals) (o : Operator)
      → NeverRaise before
      → o.got_sigusr1 ≡ false
      → A.Lasts (turn_calls q (last ∷ before)) o.answers
      → Dropping (waiting o.got_sigusr2 (lowers before)) o
      → ClosedWell (main_loop m (before ++ last ∷ after) o)
  unfolding main_loop
  falls m [] after last o calm e h low =
      by_test ClosedWell o.got_shutdown_requested _ _
        (λ asked. (o, refl, spare_more A 7 q o.answers h))
        (λ go.
          follow-Fell A ClosedWell q 0 (turn m o) _ (turn-Fell A m q 0 o h e low)
            λ p f. stops_at_once m after (receive last p) (still_asked last p f.3) f.0)
  falls m (s ∷ es) after last o calm e h low =
      by_test ClosedWell o.got_shutdown_requested _ _
        (λ asked. (o, refl, spare_turns (last ∷ s ∷ es) o.answers h))
        (λ go.
          let k = lowers (s ∷ es) in
          follow-Fell A ClosedWell (turn_calls q (last ∷ es)) k (turn m o) _
            (turn-Fell A m (turn_calls q (last ∷ es)) k o h e low)
            λ p (i, e1, e2, low').
              falls m es after last (receive s p) calm.1 (rw (e1, calm.0) refl) i
                (received (lowers es) s p e2 low'))

  -- An operator whose calls succeed, seven for each turn, without a SIGUSR1 meanwhile, and with a
  -- limit that is not negative and less than 2 ^ k: the `k` signals SIGUSR2, at least one, that
  -- come during the turns `before` make it call `close_main` with exit code 0, one turn behind them
  -- at the latest. What is known of the answers behind these turns lasts for `q` more calls.
  pub main_loop-ClosedWell :
      (m : ℕ) (before after : List Signals) (last : Signals) (o : Operator)
      → NeverRaise before
      → o.got_sigusr1 ≡ false
      → o.got_sigusr2 ≡ false
      → Below (lowers before) o.all
      → A.Lasts (turn_calls q (last ∷ before)) o.answers
      → ClosedWell (main_loop m (before ++ last ∷ after) o)
  main_loop-ClosedWell m before after last o calm e1 e2 low h =
      falls m before after last o calm e1 h (rw e2 (inr low))
