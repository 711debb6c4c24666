-- ===== src/Ipc/Gate/Laws.antt =====
-- What the set-up of the gate leaves behind.
use so_lab_project.Prelude.{
  Bool, by_test, ℕ, zero, suc, ◌+◌, ◌≡◌, ◌<◌, refl, ap, ◌∙◌, true, false, List, Option, none, some,
  ℤ, pos, negsuc, leb_ℤ, leb, length, pos_part, arith,
}
use so_lab_project.Ipc.{Answer, minus_one, FifoSem, write_token, one_more, then_more, write_tokens}
use so_lab_project.Ipc.Attempts.{attempt_rule}
use so_lab_project.Ipc.Gate.{
  fifo_sem_get, closed_again, Place, Result, unlinked, given_up, with_tokens, fifo_sem_create,
}

-- The tokens that a result of `write_tokens` counts: all `n` if it is 0.
abbrev Writes : ℕ → Option (ℤ × ℕ × List Answer) → Type 0
Writes n none = Unit {0}
Writes n (some (pos zero, k, rest)) = k ≡ n
Writes n (some (pos (suc c), k, rest)) = ⊥
Writes n (some (negsuc c, k, rest)) = k < n

one_more-Writes :
    (n : ℕ) (r : Option (ℤ × ℕ × List Answer)) → Writes n r → Writes (suc n) (one_more r)
one_more-Writes n none h = tt
one_more-Writes n (some (pos zero, k, rest)) h = ap suc h
one_more-Writes n (some (pos (suc c), k, rest)) h = absurd h
one_more-Writes n (some (negsuc c, k, rest)) h = omega (arith, h)

then_more-Writes :
    (n : ℕ) (r : Option (ℤ × List Answer)) (f : List Answer → Option (ℤ × ℕ × List Answer))
    → ((rest : List Answer) → Writes n (f rest))
    → Writes (suc n) (then_more r f)
then_more-Writes n none f h = tt
then_more-Writes n (some (pos c, rest)) f h = one_more-Writes n (f rest) (h rest)
then_more-Writes n (some (negsuc c, rest)) f h = omega arith

write_tokens-Writes : (n : ℕ) (answers : List Answer) → Writes n (write_tokens n answers)
unfolding write_tokens
write_tokens-Writes zero answers = refl
write_tokens-Writes (suc n) answers =
    then_more-Writes n (write_token answers) (write_tokens n) (write_tokens-Writes n)

-- How `fifo_sem_create` can end.
abbrev pub Creates : List ℕ → ℤ → ℕ → Result → Type 0
Creates path capacity fd none = Unit {0}
Creates path capacity fd (some (pos zero, p, rest)) =
    (p.exists ≡ true)
    × (p.is_open ≡ true)
    × (pos p.tokens ≡ capacity)
    × (p.fifo ≡ record { path = path; file_descriptor = pos fd; capacity = capacity })
Creates path capacity fd (some (pos (suc c), p, rest)) = ⊥
Creates path capacity fd (some (negsuc c, p, rest)) =
    (p.is_open ≡ false) × (leb_ℤ (pos 0) p.fifo.file_descriptor ≡ false)

module _ (path : List ℕ) (capacity : ℤ) (fd : ℕ) where
  abbrev Created : Result → Type 0
  Created = Creates path capacity fd

  unlinked-Creates :
      (p : Place) (answers : List Answer)
      → p.is_open ≡ false
      → leb_ℤ (pos 0) p.fifo.file_descriptor ≡ false
      → Creates path capacity fd (unlinked p answers)
  unlinked-Creates p answers h u = attempt_rule Created answers _ _ tt (λ r. (h, u)) (λ r. (h, u))

  given_up-Creates :
      (p : Place) (answers : List Answer)
      → leb_ℤ (pos 0) p.fifo.file_descriptor ≡ false
      → Creates path capacity fd (given_up p answers)
  given_up-Creates p answers u =
      attempt_rule Created answers _ _ tt
        (λ r. unlinked-Creates (record p { is_open = false }) r refl u)
        (λ r. unlinked-Creates (record p { is_open = false }) r refl u)

  with_tokens-Creates :
      (p : Place) (r : Option (ℤ × ℕ × List Answer))
      → pos (pos_part capacity) ≡ capacity
      → Writes (pos_part capacity) r
      → p.exists ≡ true
      → p.is_open ≡ true
      → p.tokens ≡ 0
      → p.fifo ≡ record { path = path; file_descriptor = minus_one; capacity = capacity }
      → Creates path capacity fd (with_tokens fd p r)
  with_tokens-Creates p none c h e o z f = tt
  with_tokens-Creates p (some (pos zero, k, rest)) c h e o z f = (
    e,
    o,
    ap pos (omega (arith, h, z)) ∙ c,
    ap {A = FifoSem} (λ q. record q { file_descriptor = pos fd }) f,
  )
  with_tokens-Creates p (some (negsuc c', k, rest)) c h e o z f =
      given_up-Creates (record p { tokens = k + p.tokens }) rest
        (ap (λ (q : FifoSem). leb_ℤ (pos 0) q.file_descriptor) f)
  with_tokens-Creates p (some (pos (suc c'), k, rest)) c h e o z f = absurd h

  not_positive : leb_ℤ capacity (pos 0) ≡ false → pos (pos_part capacity) ≡ capacity
  not_positive h = ground arith

  abbrev opened : Place
  opened = record {
    fifo = record { path = path; file_descriptor = minus_one; capacity = capacity };
    exists = true;
    is_open = true;
    tokens = 0;
  }

  -- However the system answers, a call of `fifo_sem_create` that returns 0 leaves the FIFO in the file
  -- system, an open descriptor in the structure, and as many tokens in the pipe as the capacity says;
  -- one that returns -1 leaves no descriptor open, and none in the structure; and no other result is
  -- returned. (`p` is the state before the call, with no descriptor open and none in the structure.)
  pub fifo_sem_create-Creates :
      (p : Place) (answers : List Answer)
      → p.is_open ≡ false
      → leb_ℤ (pos 0) p.fifo.file_descriptor ≡ false
      → Creates path capacity fd (fifo_sem_create (some path) capacity fd p answers)
  unfolding fifo_sem_create
  fifo_sem_create-Creates p answers h u =
      by_test (Creates path capacity fd) (leb_ℤ capacity (pos 0)) _ _ (λ e. (h, u))
        λ positive.
          by_test (Creates path capacity fd) (leb 4096 (length path)) _ _ (λ e. (h, refl))
            λ e.
              attempt_rule Created answers _ _ tt
                (λ r.
                  attempt_rule Created r _ _ tt
                    (λ r.
                      attempt_rule Created r _ _ tt
                        (λ r.
                          attempt_rule Created r _ _ tt
                            (λ r.
                              with_tokens-Creates _ (write_tokens (pos_part capacity) r)
                                (not_positive positive) (write_tokens-Writes (pos_part capacity) r)
                                refl refl refl refl)
                            (λ r. given_up-Creates opened r refl))
                        (λ r. given_up-Creates opened r refl))
                    (λ r. unlinked-Creates _ r h refl))
                (λ r. (h, refl))

-- How `fifo_sem_get` can end.
abbrev pub Gets : List ℕ → ℕ → Place → Result → Type 0
Gets path fd q none = Unit {0}
Gets path fd q (some (pos zero, p, rest)) =
    (p.is_open ≡ true)
    × (p.fifo ≡ record { path = path; file_descriptor = pos fd; capacity = minus_one })
    × (p.exists ≡ q.exists)
    × (p.tokens ≡ q.tokens)
Gets path fd q (some (pos (suc c), p, rest)) = ⊥
Gets path fd q (some (negsuc c, p, rest)) =
    (p.is_open ≡ false)
    × (leb_ℤ (pos 0) p.fifo.file_descriptor ≡ false)
    × (p.exists ≡ q.exists)
    × (p.tokens ≡ q.tokens)

-- However the system answers, a call of `fifo_sem_get` that returns 0 leaves an open descriptor in
-- the structure, one that returns -1 leaves none open and none in the structure, and neither
-- changes the FIFO or its tokens; no other result is returned. (`p` is the state before the call,
-- with no descriptor open.)
pub fifo_sem_get-Gets :
    (path : List ℕ) (is_fifo : Bool) (fd : ℕ) (p : Place) (answers : List Answer)
    → p.is_open ≡ false
    → Gets path fd p (fifo_sem_get (some path) is_fifo fd p answers)
unfolding fifo_sem_get
fifo_sem_get-Gets path is_fifo fd p answers h =
    by_test (Gets path fd p) (leb 4096 (length path)) _ _ (λ long. (h, refl, refl, refl))
      λ short.
        attempt_rule (Gets path fd p) answers _ _ tt
          (λ r.
            by_test (Gets path fd p) is_fifo _ _
              (λ fifo.
                attempt_rule (Gets path fd p) r _ _ tt
                  (λ r.
                    attempt_rule (Gets path fd p) r _ _ tt
                      (λ r.
                        attempt_rule (Gets path fd p) r _ _ tt (λ r. (refl, refl, refl, refl)) back)
                      back)
                  (λ r. (h, refl, refl, refl)))
              (λ no_fifo. (h, refl, refl, refl)))
          (λ r. (h, refl, refl, refl))
  where
    back :
        (r : List Answer)
        → Gets path fd p (
            closed_again
              (record p {
                is_open = true;
                fifo = record { path = path; file_descriptor = minus_one; capacity = minus_one };
              })
              r)
    back r =
        attempt_rule (Gets path fd p) r _ _ tt (λ s. (refl, refl, refl, refl))
          (λ s. (refl, refl, refl, refl))
