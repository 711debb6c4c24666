-- ===== src/Operator/Reacting.antt =====
-- What a turn of the operator's loop (src/operator/operator.c) does to the limit when no call fails.
use native.Mathlib.Nat.{pow-suc}
use so_lab_project.Prelude.{
  by_test, ℕ, zero, suc, ◌/◌, ◌^◌, ◌≤◌, ◌<◌, ◌≡◌, ◌⊎◌, inl, inr, refl, sym, ap, ◌∙◌, subst, Bool,
  true, false, List, ◌∷◌, pos, leb_ℤ, half_ℤ, arith,
}
use so_lab_project.Shm.{AllDronesData, base}
use so_lab_project.Ipc.{Answer}
use so_lab_project.Ipc.Works.{Supply, lock_lasts, unlock_lasts, spare_more, more}
use so_lab_project.Dron.{has_room}
use so_lab_project.Operator.{lower_limit}
use so_lab_project.Operator.Loop.{
  Operator, Progress, goes_on, closes, waits, go_on, critical, fork_outcome, creat_dron, with_child,
  react_sigusr1, react_sigusr2, resupply, describe_self, turn,
}

-- The limit is below 2 ^ k and not negative, and `k` is at least 1.
abbrev pub Below : ℕ → AllDronesData → Type 0
Below k d = (m : ℕ) × (d.maximum_dron_in_base_count ≡ pos m) × (m < 2 ^ k) × (1 ≤ k)

-- A request to stop has come, or the limit is that low.
abbrev pub Dropping : ℕ → Operator → Type 0
Dropping k o = (o.got_shutdown_requested ≡ true) ⊎ Below k o.all

-- A SIGUSR2 that waits for the reaction counts.
abbrev pub waiting : Bool → ℕ → ℕ
waiting true k = suc k
waiting false k = k

one_left : (k m : ℕ) → m < 2 ^ k → leb_ℤ (pos m) (pos 0) ≡ false → 1 ≤ k
one_left zero m h e = absurd (ground arith)
one_left (suc k) m h e = omega arith

halved :
    (k : ℕ) (d : AllDronesData)
    → Below (suc k) d
    → leb_ℤ (lower_limit d).maximum_dron_in_base_count (pos 0) ≡ false
    → Below k (lower_limit d)
unfolding lower_limit half_ℤ
halved k d (m, e, h, l) some_left =
    let left : leb_ℤ (pos (m / 2)) (pos 0) ≡ false =
      ap (λ i. leb_ℤ (half_ℤ i) (pos 0)) (sym e) ∙ some_left in
    let small : m / 2 < 2 ^ k = omega (arith, pow-suc 2 k, h) in
    (m / 2, ap half_ℤ e, small, one_left k (m / 2) small left)

halves :
    (k : ℕ) (o : Operator)
    → leb_ℤ (lower_limit o.all).maximum_dron_in_base_count (pos 0) ≡ false
    → Dropping (suc k) o
    → (o.got_shutdown_requested ≡ true) ⊎ Below k (lower_limit o.all)
halves k o some_left (inl asked) = inl asked
halves k o some_left (inr below) = inr (halved k o.all below some_left)

no_sigusr1 : (m : ℕ) (o : Operator) → o.got_sigusr1 ≡ false → react_sigusr1 m o ≡ goes_on o
unfolding react_sigusr1
no_sigusr1 m o e = simp e refl

module _ (A : Supply) where
  -- A part went on; `n` more calls succeed, and `k` signals SIGUSR2 will come.
  abbrev pub Fell : ℕ → ℕ → Progress → Type 0
  Fell n k (goes_on p) =
      A.Lasts n p.answers × (p.got_sigusr1 ≡ false) × (p.got_sigusr2 ≡ false) × Dropping k p
  Fell n k (closes e p) = ⊥
  Fell n k waits = ⊥

  pub follow-Fell :
      (Q : Progress → Type 0) (n k : ℕ) (x : Progress) (f : Operator → Progress)
      → Fell n k x
      → ((p : Operator) → Fell n k (goes_on p) → Q (f p))
      → Q (go_on x f)
  follow-Fell Q n k (goes_on p) f h g = g p h
  follow-Fell Q n k (closes e p) f h g = absurd h
  follow-Fell Q n k waits f h g = absurd h

  critical_works :
      (P : Progress → Type 0) (n : ℕ) (change : AllDronesData → AllDronesData) (o : Operator)
      → A.Lasts (more 2 n) o.answers
      → ((r : List Answer)
          → A.Lasts n r
          → P (goes_on (record o { answers = r; locked = false; all = change o.all })))
      → P (critical change o)
  unfolding critical
  critical_works P n change o h f =
      let (r, e, i) = lock_lasts A (suc n) o.answers h in
      let (s, e', j) = unlock_lasts A n r i in rw (e, e') (f s j)

  critical_then :
      (P : Progress → Type 0) (n : ℕ) (change : AllDronesData → AllDronesData)
      (k : Operator → Progress) (o : Operator)
      → A.Lasts (more 2 n) o.answers
      → ((r : List Answer)
          → A.Lasts n r
          → P (k (record o { answers = r; locked = false; all = change o.all })))
      → P (go_on (critical change o) k)
  critical_then P n change k o h f = critical_works (λ x. P (go_on x k)) n change o h f

  child_works :
      (P : Progress → Type 0) (n : ℕ) (o : Operator) (answers : List Answer)
      → A.Lasts (suc n) answers
      → ((r : List Answer)
          → A.Lasts n r
          → P (goes_on (record o { answers = r; created = base ∷ o.created })))
      → P (with_child (fork_outcome base answers o))
  unfolding fork_outcome
  child_works P n o answers h f = let (r, e, i) = A.one n answers h in rw e (f r i)

  module _ (n k : ℕ) where
    -- One reaction halves the limit.
    react_sigusr2-Fell :
        (o : Operator)
        → A.Lasts (more 2 n) o.answers
        → o.got_sigusr1 ≡ false
        → Dropping (waiting o.got_sigusr2 k) o
        → Fell n k (react_sigusr2 o)
    unfolding react_sigusr2
    react_sigusr2-Fell o h e low =
        by_test (Fell n k) o.got_sigusr2 _ _
          (λ asked.
            critical_then (Fell n k) n lower_limit _ (record o { got_sigusr2 = false }) h
              λ r i.
                by_test (λ p. Fell n k (goes_on p))
                  (leb_ℤ (lower_limit o.all).maximum_dron_in_base_count (pos 0)) _ _
                  (λ none_left. (i, e, refl, inl refl))
                  (λ some_left. (
                    i,
                    e,
                    refl,
                    halves k o some_left (subst (λ b. Dropping (waiting b k) o) asked low),
                  )))
          (λ not_asked. (
            spare_more A 2 n o.answers h,
            e,
            not_asked,
            subst (λ b. Dropping (waiting b k) o) not_asked low,
          ))

    resupply-Fell : (o : Operator) → Fell (more 3 n) k (goes_on o) → Fell n k (resupply o)
    unfolding resupply creat_dron
    resupply-Fell o (h, e, e', low) =
        critical_then (Fell n k) (suc n) (λ d. d) _ o h
          λ r i.
            by_test (Fell n k) (has_room o.all) _ _
              (λ room. child_works (Fell n k) n _ r i λ s j. (j, e, e', low))
              (λ full. (spare_more A 1 n r i, e, e', low))

    describe_self-Fell : (o : Operator) → Fell (more 2 n) k (goes_on o) → Fell n k (describe_self o)
    unfolding describe_self
    describe_self-Fell o (h, flags1, flags2, low) =
        critical_works (Fell n k) n _ o h λ r i. (i, flags1, flags2, low)

  pub turn-Fell :
      (m n k : ℕ) (o : Operator)
      → A.Lasts (more 7 n) o.answers
      → o.got_sigusr1 ≡ false
      → Dropping (waiting o.got_sigusr2 k) o
      → Fell n k (turn m o)
  unfolding turn
  turn-Fell m n k o h e low = rw (no_sigusr1 m o e) (
      follow-Fell (Fell n k) (more 5 n) k (react_sigusr2 o) _
        (react_sigusr2-Fell (more 5 n) k o h e low)
        λ p f.
          follow-Fell (Fell n k) (more 2 n) k (resupply p) describe_self
            (resupply-Fell (more 2 n) k p f) (describe_self-Fell n k))
