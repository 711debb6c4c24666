-- ===== src/Dron/Gate.antt =====
-- `pass_the_gate_fifo`: how it can end, and what the world looks like then.
use so_lab_project.Prelude.{◌+◌, ◌-◌, ◌≡◌, ap, ◌⊎◌, inl, inr, List, [], pos, arith}
use so_lab_project.Ipc.{Answer, minus_one}
use so_lab_project.Dron.Code.{
  World, Outcome, ret, blocked, Code, return, ◌>>=◌, or_fail, take_token, give_token,
  pass_the_gate_fifo, through_gate,
}
use so_lab_project.Dron.Calls.{Tolerant, fifo_sem_lock_timeout-Verdict, fifo_sem_unlock-Verdict}

-- Passed, given up, failed or still waiting.
abbrev pub Passes : World → Outcome × World → Type 0
Passes w r =
    ((rest : List Answer) × (r ≡ (ret (pos 0), record w { answers = rest; taken = w.taken + 1 })))
    ⊎ (((rest : List Answer) × (r ≡ (ret (pos 1), record w { answers = rest })))
        ⊎ (((w' : World) × (r ≡ (ret minus_one, w'))) ⊎ ((w' : World) × (r ≡ (blocked, w')))))

-- Behind a token that was read: the token is written back.
returned :
    (w : World)
    → Passes w (
        (give_token >>= λ u. or_fail u (return (pos 0)))
          (record w { tokens = w.tokens + 1; taken = w.taken + 1 }))
unfolding give_token
returned w = elim (fifo_sem_unlock-Verdict w.gate w.answers) [
  | inl e ↦
      inr (inr (inr (record w { answers = []; tokens = w.tokens + 1; taken = w.taken + 1 }, rw e)))
  | inr (inl (rest, e)) ↦ inl (
    rest,
    rw e (
        ap (λ t. (ret (pos 0), record w { answers = rest; tokens = t; taken = w.taken + 1 })) back),
  )
  | inr (inr (rest, e)) ↦
      inr
        (inr (inl (record w { answers = rest; tokens = w.tokens + 1; taken = w.taken + 1 }, rw e)))
]
  where
    back : w.tokens + 1 - 1 ≡ w.tokens
    back = omega arith

-- Whatever the system answers, `pass_the_gate_fifo` returns 0 when it has read one token more and
-- holds as many as before, returns 1 when it has read none, returns -1, or waits.
pub pass_the_gate_fifo-Passes : (w : World) → Passes w (pass_the_gate_fifo w)
unfolding pass_the_gate_fifo take_token
pass_the_gate_fifo-Passes w = elim (fifo_sem_lock_timeout-Verdict w.gate w.answers) [
  | inl (inl e) ↦ inr (inr (inr (record w { answers = [] }, rw e)))
  | inl (inr (inl (rest, e))) ↦ rw e (returned (record w { answers = rest }))
  | inl (inr (inr (rest, e))) ↦ inr (inr (inl (record w { answers = rest }, rw e)))
  | inr (rest, e) ↦ inr (inl (rest, rw e))
]

module _ (P : Outcome × World → Type 0) (tol : Tolerant P) where
  pub gate_rule :
      (k : Code) (w : World)
      → ((rest : List Answer) → P (ret (pos 0), record w { answers = rest }))
      → ((rest : List Answer) → P (k (record w { answers = rest; taken = w.taken + 1 })))
      → P (through_gate k w)
  unfolding through_gate
  gate_rule k w timeout pass = elim (pass_the_gate_fifo-Passes w) [
    | inl (rest, e) ↦ rw e (pass rest)
    | inr (inl (rest, e)) ↦ rw e (timeout rest)
    | inr (inr (inl (w', e))) ↦ rw e (tol.fails 0 w')
    | inr (inr (inr (w', e))) ↦ rw e (tol.waits w')
  ]
