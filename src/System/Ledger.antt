-- ===== src/System/Ledger.antt =====
-- The books of the swarm: as many ids were given out as there are drones in their slots, drones
-- that were lost, and drones that found no slot.
use so_lab_project.Prelude.{
  ℕ, ◌+◌, ◌≤◌, ◌≡◌, refl, sym, ap, subst, inl, inr, true, false, some, List, ℤ, pos, arith, ◌+ℤ◌,
  ◌-ℤ◌, ltb_ℤ, total-le, int_laws, pos_part, neg_part, total,
}
use so_lab_project.Stack.{Stack}
use so_lab_project.Shm.{base, mission, DronData}
use so_lab_project.Shm.Books.{books, update_dron_location-books, delete_drone-books}
use so_lab_project.Shm.Consistency.{live, in_base, in_base-le-live}
use so_lab_project.Dron.{Shared, DronInternalData, reserve, relocate, remove_self, slot}
use so_lab_project.Dron.Books.{Books, register-Books}
use so_lab_project.Dron.Reserving.{reserve-true}
use so_lab_project.Operator.{raise_limit, lower_limit}
use so_lab_project.Main.{lost_total, report}
use so_lab_project.System.{
  Swarm, Step, forks, refused, out_of_memory, joins, reserves, turns, gives_up, enters_gate,
  leaves_gate, arrives, departs, removes, stops, raises, lowers,
}
use so_lab_project.System.Safety.{start, Reach, here, next, IsFresh, runs, Runs-Inv}
use so_lab_project.Setup.Filling.{create_shm_all_drones_data-books}
use so_lab_project.Setup.{Settings, create_shm_all_drones_data}

-- The drones that are there, the losses and `b` ids that went to drones without a slot make up the ids
-- that were given out.
abbrev pub Balanced : ℕ → ℤ × ℕ × ℕ → Type 0
Balanced b (c, l, n) = pos_part c + l + b + 1 ≡ n + neg_part c

-- The ids that a step gives out for nothing.
abbrev pub wasted : {n : ℕ} {s t : Swarm} → Step n s t → ℕ
wasted (forks x me b) = 0
wasted (refused k x me h e) = 0
wasted (out_of_memory k x me sh h e) = 1
wasted (joins k x me i id sh h e) = 0
wasted (reserves k me me' sh h l c e) = 0
wasted (turns k me h l) = 0
wasted (gives_up k me to h) = 0
wasted (enters_gate k me to h t) = 0
wasted (leaves_gate k me to h) = 0
wasted (arrives k me h) = 0
wasted (departs k me h) = 0
wasted (removes k me reason h) = 0
wasted (stops k me h) = 0
wasted raises = 0
wasted lowers = 0

unfoldable pub wasted_on : {n : ℕ} {s t : Swarm} → Reach n s t → ℕ
wasted_on here = 0
wasted_on (next r st) = wasted_on r + wasted st

same-Balanced : (b : ℕ) (k k' : ℤ × ℕ × ℕ) → k' ≡ k → Balanced b k → Balanced (b + 0) k'
same-Balanced b (c, l, n) k' e h =
    let g : Balanced (b + 0) (c, l, n) = omega (arith, h) in subst (Balanced (b + 0)) (sym e) g

joined-Balanced :
    (b : ℕ) (c : ℤ) (l n : ℕ) (k' : ℤ × ℕ × ℕ)
    → k' ≡ (c +ℤ pos 1, l, n + 1)
    → Balanced b (c, l, n)
    → Balanced (b + 0) k'
joined-Balanced b c l n k' e h =
    let g : Balanced (b + 0) (c +ℤ pos 1, l, n + 1) = omega (int_laws, h) in
    subst (Balanced (b + 0)) (sym e) g

wasted-Balanced :
    (b : ℕ) (c : ℤ) (l n : ℕ) (k' : ℤ × ℕ × ℕ)
    → k' ≡ (c, l, n + 1)
    → Balanced b (c, l, n)
    → Balanced (b + 1) k'
wasted-Balanced b c l n k' e h =
    let g : Balanced (b + 1) (c, l, n + 1) = omega (arith, h) in subst (Balanced (b + 1)) (sym e) g

lost-Balanced :
    (b : ℕ) (c : ℤ) (l n : ℕ) (k' : ℤ × ℕ × ℕ)
    → k' ≡ (c -ℤ pos 1, l + 1, n)
    → Balanced b (c, l, n)
    → Balanced (b + 0) k'
lost-Balanced b c l n k' e h =
    let g : Balanced (b + 0) (c -ℤ pos 1, l + 1, n) = omega (int_laws, h) in
    subst (Balanced (b + 0)) (sym e) g

reserve-books :
    (sh sh' : Shared) (me me' : DronInternalData)
    → reserve sh me ≡ (true, sh', me')
    → books sh'.all ≡ books sh.all
unfolding lost_total
reserve-books sh sh' me me' e = elim (reserve-true sh sh' me me' e) [
  | inl (had, same, same_me) ↦ ap (λ z. books z.all) same
  | inr (none_yet, room, after, after_me) ↦ ap (λ z. books z.all) after
]

Step-Balanced :
    {n : ℕ} {s t : Swarm} (b : ℕ) (st : Step n s t)
    → Balanced b (books s.shared.all)
    → Balanced (b + wasted st) (books t.shared.all)
unfolding lost_total relocate remove_self raise_limit lower_limit
Step-Balanced b (forks x me i) h = same-Balanced b _ _ refl h
Step-Balanced b (refused k x me p e) h = same-Balanced b _ _ refl h
Step-Balanced {s = s} b (out_of_memory k x me sh p e) h =
    let d = s.shared.all in
    wasted-Balanced b d.dron_count (lost_total d) d.next_dron_id _
      (subst (Books (books d)) e (register-Books s.shared x)) h
Step-Balanced {s = s} b (joins k x me i id sh p e) h =
    let d = s.shared.all in
    joined-Balanced b d.dron_count (lost_total d) d.next_dron_id _
      (subst (Books (books d)) e (register-Books s.shared x)) h
Step-Balanced {s = s} b (reserves k me me' sh p l c e) h =
    same-Balanced b _ _ (reserve-books s.shared sh me me' e) h
Step-Balanced b (turns k me p l) h = same-Balanced b _ _ refl h
Step-Balanced b (gives_up k me to p) h = same-Balanced b _ _ refl h
Step-Balanced b (enters_gate k me to p t) h = same-Balanced b _ _ refl h
Step-Balanced b (leaves_gate k me to p) h = same-Balanced b _ _ refl h
Step-Balanced {s = s} b (arrives k me p) h =
    same-Balanced b _ _ (update_dron_location-books s.shared.all (slot me) base) h
Step-Balanced {s = s} b (departs k me p) h =
    same-Balanced b _ _ (update_dron_location-books s.shared.all (slot me) mission) h
Step-Balanced {s = s} b (removes k me reason p) h =
    let d = s.shared.all in
    lost-Balanced b d.dron_count (lost_total d) d.next_dron_id _
      (delete_drone-books d s.shared.free (slot me) me.have_reserved_space reason) h
Step-Balanced b (stops k me p) h = same-Balanced b _ _ refl h
Step-Balanced b raises h = same-Balanced b _ _ refl h
Step-Balanced b lowers h = same-Balanced b _ _ refl h

Reach-Balanced :
    {n : ℕ} {s t : Swarm} (r : Reach n s t)
    → Balanced 0 (books s.shared.all)
    → Balanced (wasted_on r) (books t.shared.all)
unfolding wasted_on
Reach-Balanced here h = h
Reach-Balanced (next r st) h = Step-Balanced (wasted_on r) st (Reach-Balanced r h)

no_warning : (a : ℤ) (k cap : ℕ) → a ≡ pos k → k ≤ cap → ltb_ℤ (pos cap) a ≡ false
no_warning a k cap e h = ground arith

-- Along every run from the set-up the report at the end has the number of drones in use as its
-- total and never the warning about more drones in the base than the capacity; and the number of
-- ids that were given out is the number of drones that are there, of those counted as lost, and of
-- those that found no slot in memory, all together.
pub report_balances :
    (s : Settings) (block : List DronData) (st : Stack ℕ) (sh : Shared) (t : Swarm)
    → IsFresh s block st
    → (e : create_shm_all_drones_data s block st ≡ some sh)
    → (r : Reach s.cfg.starting_drones_count (start sh) t)
    → let rep = report t.shared.all in
      (rep.total ≡ pos (total live t.shared.all.drones))
      × (rep.warned ≡ false)
      × (total live t.shared.all.drones + rep.lost + wasted_on r + 1 ≡ rep.next_dron_id)
unfolding report
report_balances s block st sh t f e r =
    let c = (Runs-Inv f (runs sh e r)).consistent in
    let b : Balanced (wasted_on r) (books t.shared.all) =
      Reach-Balanced r (
        subst (Balanced 0) (sym (create_shm_all_drones_data-books s block st sh e))
          (omega arith)) in
    (
      c.counted,
      no_warning t.shared.all.dron_in_base_count (total in_base t.shared.all.drones)
          t.shared.all.capacity c.based
          (omega (arith, c.split, total-le in_base live t.shared.all.drones in_base-le-live)),
      omega (arith, b, ap pos_part c.counted, ap neg_part c.counted),
    )
