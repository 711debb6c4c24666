-- ===== src/Ipc/Attempts.antt =====
-- What holds whatever a system call answers.
pub mod Chains
use so_lab_project.Prelude.{
  ℕ, zero, suc, ◌≡◌, refl, Bool, true, false, List, [], ◌∷◌, Option, none, some, if◌then◌else◌,
}
use so_lab_project.Ipc.{Answer, done, interrupted, timed_out, failed, attempt}

pub attempt_rule {ℓ} :
    {R : Type ℓ} (P : Option R → Type 0) (answers : List Answer) (f g : List Answer → Option R)
    → P none
    → ((r : List Answer) → P (f r))
    → ((r : List Answer) → P (g r))
    → P (attempt answers f g)
attempt_rule P [] f g w hf hg = w
attempt_rule P (done ∷ rest) f g w hf hg = hf rest
attempt_rule P (interrupted ∷ rest) f g w hf hg = hg rest
attempt_rule P (timed_out ∷ rest) f g w hf hg = hg rest
attempt_rule P (failed ∷ rest) f g w hf hg = hg rest

-- The next `n` calls succeed.
abbrev pub Succeed : ℕ → List Answer → Type 0
Succeed zero answers = Unit {0}
Succeed (suc n) [] = ⊥
Succeed (suc n) (done ∷ rest) = Succeed n rest
Succeed (suc n) (_ ∷ rest) = ⊥

pub fewer : (n : ℕ) (answers : List Answer) → Succeed (suc n) answers → Succeed n answers
fewer zero answers h = tt
fewer (suc n) [] h = absurd h
fewer (suc n) (done ∷ rest) h = fewer n rest h
fewer (suc n) (interrupted ∷ rest) h = absurd h
fewer (suc n) (timed_out ∷ rest) h = absurd h
fewer (suc n) (failed ∷ rest) h = absurd h

pub done_rule {ℓ} :
    {R : Type ℓ} (Q : Option R → Type 0) (n : ℕ) (answers : List Answer)
    (f g : List Answer → Option R)
    → Succeed (suc n) answers
    → ((r : List Answer) → Succeed n r → Q (f r))
    → Q (attempt answers f g)
done_rule Q n [] f g h k = absurd h
done_rule Q n (done ∷ rest) f g h k = k rest h
done_rule Q n (interrupted ∷ rest) f g h k = absurd h
done_rule Q n (timed_out ∷ rest) f g h k = absurd h
done_rule Q n (failed ∷ rest) f g h k = absurd h

-- A part that is taken away if a test says so.
pub guarded_rule {ℓ} :
    {S : Type ℓ} (Q : Option (S × List Answer) → Type 0) (n : ℕ) (test : Bool) (gone kept : S)
    (answers : List Answer) (o : Option (S × List Answer))
    → Succeed n answers
    → (test ≡ true → ((r : List Answer) → Succeed n r → Q (some (gone, r))) → Q o)
    → ((r : List Answer) → Succeed n r → Q (some ((if test then gone else kept), r)))
    → Q (if test then o else some (kept, answers))
guarded_rule Q n true gone kept answers o h away k = away refl k
guarded_rule Q n false gone kept answers o h away k = k answers h
