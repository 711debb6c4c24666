-- ===== src/Ipc/Gate/Closing.antt =====
-- The close of a descriptor that succeeds at once, and what `> 0` says of it.
use so_lab_project.Prelude.{
  ℕ, zero, suc, ◌≡◌, ◌≢◌, refl, true, false, List, [], ◌∷◌, Option, some, ℤ, pos, negsuc, leb_ℤ,
  ltb_ℤ, arith,
}
use so_lab_project.Ipc.{Answer, done, interrupted, timed_out, failed, minus_one}
use so_lab_project.Ipc.Attempts.{Succeed}
use so_lab_project.Ipc.Gate.{Place, close_descriptor}

pub descriptor_rule :
    (Q : Option (ℤ × Place × List Answer) → Type 0) (n : ℕ) (p : Place) (answers : List Answer)
    → Succeed (suc n) answers
    → ((r : List Answer)
        → Succeed n r
        → Q (
            some (
              pos 0,
              record p { is_open = false; fifo = record (p.fifo) { file_descriptor = minus_one } },
              r,
            )))
    → Q (close_descriptor p answers)
unfolding close_descriptor
descriptor_rule Q n p [] h k = absurd h
descriptor_rule Q n p (done ∷ rest) h k = k rest h
descriptor_rule Q n p (interrupted ∷ rest) h k = absurd h
descriptor_rule Q n p (timed_out ∷ rest) h k = absurd h
descriptor_rule Q n p (failed ∷ rest) h k = absurd h

pub is_set : (z : ℤ) → ltb_ℤ (pos 0) z ≡ true → leb_ℤ (pos 0) z ≡ true
is_set (pos n) h = ground arith
is_set (negsuc n) h = ground arith

pub is_unset : (z : ℤ) → ltb_ℤ (pos 0) z ≡ false → z ≢ pos 0 → leb_ℤ (pos 0) z ≡ false
is_unset (pos zero) h n = absurd (n refl)
is_unset (pos (suc k)) h n = ground arith
is_unset (negsuc k) h n = ground arith
