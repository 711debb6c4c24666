-- ===== src/Ipc/Attempts/Chains.antt =====
-- Chains of steps that succeed as long as their calls do.
use so_lab_project.Prelude.{ℕ, ◌≡◌, sym, ap, ◌∙◌, subst, List, Option, some}
use so_lab_project.Ipc.{Answer}
use so_lab_project.Ipc.Acts.{next, ◌>=>◌}
use so_lab_project.Ipc.Attempts.{Succeed}

-- A step on states that fit needs `p` successful calls at most, leaves `q` of them, and changes the
-- state by `f`.
pub record Requires {S : Type 0} (answers : S → List Answer) (heard : S → List Answer → S)
    (Fit : S → Type 0) (p q : ℕ) (a : S → Option S) (f : S → S) : Type 0 where
  pub run :
      (m : S)
      → Fit m
      → Succeed p (answers m)
      → (r : List Answer) × (a m ≡ some (heard (f m) r)) × Succeed q r

module _ {S : Type 0} (answers : S → List Answer) (heard : S → List Answer → S) (Fit : S → Type 0)
    (reads : (m : S) (r : List Answer) → answers (heard m r) ≡ r) where
  pub seq :
      (p q n : ℕ) (a b : S → Option S) (f g : S → S)
      → ((m : S) (r : List Answer) → Fit m → Fit (heard (f m) r))
      → ((m : S) (r s : List Answer) → heard (g (heard m r)) s ≡ heard (g m) s)
      → Requires answers heard Fit p q a f
      → Requires answers heard Fit q n b g
      → Requires answers heard Fit p n (a >=> b) (λ m. g (f m))
  seq p q n a b f g keeps same ta tb = record {
    run = λ m u h.
        let (r, e, i) = ta.run m u h in
        let (s, e', i') =
          tb.run (heard (f m) r) (keeps m r u) (subst (Succeed q) (sym (reads (f m) r)) i) in
        (s, ap (λ o. next o b) e ∙ e' ∙ ap some (same (f m) r s), i');
  }
