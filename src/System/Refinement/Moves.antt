-- ===== src/System/Refinement/Moves.antt =====
-- How a run of the swarm goes on by one step of a drone (src/dron/dron.c), and what a call of the drone
-- amounts to.
use so_lab_project.Prelude.{
  List, [], ◌∷◌, ℕ, ◌+◌, ◌-◌, ◌<◌, ◌≡◌, sym, subst, some, pos, negsuc, zero, suc, arith, get_elem?,
  set, set-set, set-get_elem?, get_elem?-set_self, get_elem?-lt,
}
use so_lab_project.Dron.{Shared}
use so_lab_project.Dron.Code.{
  World, Outcome, Code, ret, exited, blocked, follow, return, close_main,
}
use so_lab_project.Dron.Calls.{Tolerant}
use so_lab_project.System.{
  Swarm, Step, Proc, Phase, Direction, active, gone, idle, waiting, inside, past, enters_gate,
  leaves_gate,
}
use so_lab_project.Dron.Loop.{or_close, or_close_negative}
use so_lab_project.System.Traces.{Label, entering, labelled, Traced, at_start, onward, passages}

-- The swarm with process `k` at `p`.
abbrev pub moved : Swarm → ℕ → ℕ → Proc → Shared → Swarm
moved s k t p sh = record { shared = sh; tokens = t; procs = set s.procs k p }

-- The swarm came here with process `k` at `p`; the tokens that the drone has read since `b` are the
-- passages of `k` through the gate, and it holds as many as in `b`.
abbrev pub Stands : ℕ → Swarm → ℕ → World → Proc → World → Type 0
Stands n s k b p w =
    (m : ℕ) × (w.taken ≡ m + b.taken)
    × (w.tokens ≡ b.tokens)
    × Traced n s (passages k m) (moved s k s.tokens p w.shared)

-- What a call that returned 0, or ended the process with success, amounts to. A call that failed
-- or still waits is left out.
abbrev pub Refines : ℕ → Swarm → ℕ → World → Outcome × World → Type 0
Refines n s k b (ret (pos zero), w) = Stands n s k b (active idle w.me) w
Refines n s k b (ret (pos (suc c)), w) = ⊥
Refines n s k b (ret (negsuc c), w) = Unit {0}
Refines n s k b (exited zero, w) = Stands n s k b gone w
Refines n s k b (exited (suc e), w) = Unit {0}
Refines n s k b (blocked, w) = Unit {0}

pub Refines-Tolerant : (n : ℕ) (s : Swarm) (k : ℕ) (b : World) → Tolerant (Refines n s k b)
Refines-Tolerant n s k b = record { waits = λ w. tt; fails = λ c w. tt }

module _ (n : ℕ) (s : Swarm) (k : ℕ) (b : World) (start_ : Proc)
    (present : get_elem? s.procs k ≡ some start_) where
  pub at_k : (p : Proc) → get_elem? (set s.procs k p) k ≡ some p
  at_k p = get_elem?-set_self s.procs k p (get_elem?-lt s.procs k start_ present)

  -- One more step of process `k`.
  advance :
      (t t' : ℕ) (p p' : Proc) (sh sh' : Shared) (ls : List Label)
      → Traced n s ls (moved s k t p sh)
      → (st : Step n
          (moved s k t p sh)
          (record { shared = sh'; tokens = t'; procs = set (set s.procs k p) k p' }))
      → Traced n s (labelled st ls) (moved s k t' p' sh')
  advance t t' p p' sh sh' ls r st =
      subst (λ ps. Traced n s (labelled st ls) (record { shared = sh'; tokens = t'; procs = ps }))
        (set-set s.procs k p p') (onward r st)

  pub begin : Traced n s [] (moved s k s.tokens start_ s.shared)
  begin =
      subst (λ ps. Traced n s [] (record { shared = s.shared; tokens = s.tokens; procs = ps }))
        (sym (set-get_elem? s.procs k start_ present)) at_start

  -- One more step of process `k` that neither takes nor puts back a token.
  pub stays :
      (p p' : Proc) (w : World) (sh' : Shared)
      (st : Step n
        (moved s k s.tokens p w.shared)
        (record { shared = sh'; tokens = s.tokens; procs = set (set s.procs k p) k p' }))
      → ((ls : List Label) → labelled st ls ≡ ls)
      → Stands n s k b p w
      → Stands n s k b p' (record w { shared = sh' })
  stays p p' w sh' st silent (m, c, d, r) = (
    m,
    c,
    d,
    subst (λ ls. Traced n s ls (moved s k s.tokens p' sh')) (silent (passages k m))
        (advance s.tokens s.tokens p p' w.shared sh' (passages k m) r st),
  )

  module _ (free_gate : 0 < s.tokens) where
    -- Where the swarm stands when process `k` is at a phase with the world `w`.
    abbrev pub At : Phase → World → Type 0
    At ph w = Stands n s k b (active ph w.me) w

    -- Through the gate: a token taken and put back.
    pub passes :
        (to : Direction) (w : World)
        → At (waiting to) w
        → At (past to) (record w { taken = w.taken + 1 })
    passes to w (m, c, d, r) =
        let in_gate =
          advance s.tokens (s.tokens - 1) (active (waiting to) w.me) (active (inside to) w.me)
            w.shared w.shared (passages k m) r
            (enters_gate k w.me to (at_k (active (waiting to) w.me)) free_gate) in
        let out =
          advance (s.tokens - 1) (s.tokens - 1 + 1) (active (inside to) w.me)
            (active (past to) w.me) w.shared w.shared (entering k ∷ passages k m) in_gate
            (leaves_gate k w.me to (at_k (active (inside to) w.me))) in
        (
          suc m,
          omega (arith, c),
          d,
          subst
              (λ t. Traced n s (passages k (suc m)) (moved s k t (active (past to) w.me) w.shared))
              back out,
        )
      where
        back : s.tokens - 1 + 1 ≡ s.tokens
        back = omega arith

-- What comes behind a call.
module _ (n : ℕ) (s : Swarm) (k : ℕ) (b : World) where
  pub follow-Refines :
      (r : Outcome × World) (code : Code)
      → Refines n s k b r
      → ((w : World) → Stands n s k b (active idle w.me) w → Refines n s k b (code w))
      → Refines n s k b (follow r (λ c. or_close c code))
  unfolding close_main
  follow-Refines (ret (pos zero), w) code h then_code = then_code w h
  follow-Refines (ret (pos (suc c)), w) code h then_code = absurd h
  follow-Refines (ret (negsuc c), w) code h then_code = tt
  follow-Refines (exited zero, w) code h then_code = h
  follow-Refines (exited (suc e), w) code h then_code = tt
  follow-Refines (blocked, w) code h then_code = tt

  pub follow_negative-Refines :
      (r : Outcome × World)
      → Refines n s k b r
      → Refines n s k b (follow r (λ c. or_close_negative c (return (pos 0))))
  unfolding close_main
  follow_negative-Refines (ret (pos zero), w) h = h
  follow_negative-Refines (ret (pos (suc c)), w) h = absurd h
  follow_negative-Refines (ret (negsuc c), w) h = tt
  follow_negative-Refines (exited zero, w) h = h
  follow_negative-Refines (exited (suc e), w) h = tt
  follow_negative-Refines (blocked, w) h = tt
