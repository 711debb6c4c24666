-- ===== src/Main/Closing/Objects.antt =====
-- Each object of the main process in `close_main` when no call fails (src/main.c).
use so_lab_project.Prelude.{
  ℕ, suc, ◌-◌, ◌≡◌, sym, ◌∙◌, subst, ◌⊎◌, inl, inr, Bool, true, false, Bool-cases, ◌&&◌, List, [],
  Option, some, ℤ, pos, leb_ℤ, ltb_ℤ, if◌then◌else◌,
}
use so_lab_project.Ipc.{Answer, minus_one}
use so_lab_project.Ipc.Attempts.{Succeed, fewer, done_rule, guarded_rule}
use so_lab_project.Ipc.Gate.Closing.{descriptor_rule, is_set}
use so_lab_project.Ipc.Gate.{Place, fifo_sem_close, fifo_sem_destroy, removed, after_close}
use so_lab_project.Ipc.Objects.{Segment, Semaphore, shm_detach, shm_destroy, semaphore_delete}
use so_lab_project.Main.Launch.{gate_path}
use so_lab_project.Main.Launch.Sound.{GateSound}
use so_lab_project.Main.Closing.{
  join, forgotten, destroyed, close_segment, dropped, close_semaphore, zeroed, close_gate,
}

-- What is left of each object.
abbrev pub closed_segment : Segment → Segment
closed_segment g =
    if leb_ℤ (pos 0) g.identifier && g.mapped
    then record g {
      mapped = false;
      identifier = minus_one;
      exists = false;
      attached = g.attached - 1;
    }
    else g

pub close_segment_rule :
    (Q : Option (Segment × List Answer) → Type 0) (n : ℕ) (g : Segment) (answers : List Answer)
    → Succeed (suc (suc n)) answers
    → ((r : List Answer) → Succeed n r → Q (some (closed_segment g, r)))
    → Q (close_segment g answers)
unfolding close_segment shm_detach shm_destroy
close_segment_rule Q n g answers h =
    guarded_rule Q n (leb_ℤ (pos 0) g.identifier && g.mapped) _ g answers _
      (fewer n answers (fewer (suc n) answers h))
      (λ _ k.
        done_rule (λ o. Q (destroyed o)) (suc n) answers _ _ h
          (λ r h. done_rule (λ o. Q (forgotten o)) n r _ _ h k))

abbrev pub closed_semaphore : Semaphore → Semaphore
closed_semaphore s =
    if leb_ℤ (pos 0) s.identifier then record s { identifier = minus_one; exists = false } else s

pub close_semaphore_rule :
    (Q : Option (Semaphore × List Answer) → Type 0) (n : ℕ) (s : Semaphore) (answers : List Answer)
    → Succeed (suc n) answers
    → ((r : List Answer) → Succeed n r → Q (some (closed_semaphore s, r)))
    → Q (close_semaphore s answers)
unfolding close_semaphore semaphore_delete
close_semaphore_rule Q n s answers h =
    guarded_rule Q n (leb_ℤ (pos 0) s.identifier) _ s answers _ (fewer n answers h)
      (λ _ k. done_rule (λ o. Q (dropped o)) n answers _ _ h k)

pub join_rule :
    (Q : Option (List Answer) → Type 0) (n : ℕ) (pid : ℤ) (answers : List Answer)
    → Succeed (suc n) answers
    → ((r : List Answer) → Succeed n r → Q (some r))
    → Q (join pid answers)
unfolding join
join_rule Q n pid answers h k = elim (Bool-cases (leb_ℤ (pos 0) pid)) [
  | inl living ↦ rw living (done_rule Q n answers _ _ h k)
  | inr none_there ↦ rw none_there (k answers (fewer n answers h))
]

abbrev pub closed_gate : Place → Place
closed_gate p =
    if ltb_ℤ (pos 0) p.fifo.file_descriptor
    then record p {
      fifo = record { path = []; file_descriptor = minus_one; capacity = pos 0 };
      exists = false;
      is_open = false;
    }
    else p

removed_rule :
    (Q : Option (ℤ × Place × List Answer) → Type 0) (n : ℕ) (p : Place) (answers : List Answer)
    → p.fifo.path ≡ gate_path
    → Succeed (suc n) answers
    → ((r : List Answer) → Succeed n r → Q (some (pos 0, record p { exists = false }, r)))
    → Q (removed p answers)
removed_rule Q n p answers e h k =
    subst
      (λ l.
        let q : Place = record p { fifo = record (p.fifo) { path = l } } in
        ((r : List Answer) → Succeed n r → Q (some (pos 0, record q { exists = false }, r)))
        → Q (removed q answers))
      (sym e) (λ k. done_rule Q n answers _ _ h k) k

open_path : (b : Bool) (A : Type 0) → b ≡ true → (b ≡ false) ⊎ A → A
open_path b A e (inl f) = absurd (cc)
open_path b A e (inr x) = x

destroy_rule :
    (Q : Option (Place × List Answer) → Type 0) (n : ℕ) (p : Place) (answers : List Answer)
    → leb_ℤ (pos 0) p.fifo.file_descriptor ≡ true
    → p.fifo.path ≡ gate_path
    → Succeed (suc (suc n)) answers
    → ((r : List Answer)
        → Succeed n r
        → Q (
            some (
              record p {
                fifo = record { path = []; file_descriptor = minus_one; capacity = pos 0 };
                exists = false;
                is_open = false;
              },
              r,
            )))
    → Q (zeroed (fifo_sem_destroy p answers))
unfolding fifo_sem_destroy fifo_sem_close
destroy_rule Q n p answers there e h k = rw there (
    descriptor_rule (λ o. Q (zeroed (after_close o))) (suc n) p answers h
      (λ r h. removed_rule (λ o. Q (zeroed o)) n _ r e h k))

pub close_gate_rule :
    (Q : Option (Place × List Answer) → Type 0) (n : ℕ) (p : Place) (answers : List Answer)
    → GateSound p
    → Succeed (suc (suc n)) answers
    → ((r : List Answer) → Succeed n r → Q (some (closed_gate p, r)))
    → Q (close_gate p answers)
unfolding close_gate
close_gate_rule Q n p answers (same, path) h =
    guarded_rule Q n (ltb_ℤ (pos 0) p.fifo.file_descriptor) _ p answers _
      (fewer n answers (fewer (suc n) answers h))
      (λ there k.
        let set = is_set p.fifo.file_descriptor there in
        destroy_rule Q n p answers set (open_path p.is_open _ (sym same ∙ set) path) h k)
