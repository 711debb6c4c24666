-- ===== src/Shm/Books.antt =====
-- What the operations of src/ipc/shm.c do to the numbers of drones: those there, those lost, and the
-- ids that were given out.
use so_lab_project.Prelude.{
  ℕ, ◌+◌, ◌≡◌, refl, ap, ◌∙◌, Bool, true, false, Option, none, some, ℤ, pos, arith, ◌+ℤ◌, ◌-ℤ◌,
}
use so_lab_project.Stack.{Stack, Status, success, error, pop_elem}
use so_lab_project.Shm.{
  Location, undefine, base, mission, unknown, DronData, AllDronesData, DestructionReason,
  out_of_power, decommissioned, suicide, other, add_dron, add_at, location_at, update_dron_location,
  recount, delete_drone, count_loss, release_base, release_reservation,
}
use so_lab_project.Main.{lost_total}

-- The drones, the losses and the next id.
abbrev pub books : AllDronesData → ℤ × ℕ × ℕ
books d = (d.dron_count, lost_total d, d.next_dron_id)

abbrev pub booked : Option ℕ → ℤ × ℕ × ℕ → ℤ × ℕ × ℕ
booked none k = k
booked (some i) (c, l, n) = (c +ℤ pos 1, l, n)

add_at-books :
    (d : AllDronesData) (x : DronData) (r : Status × ℕ × Stack ℕ)
    → books (add_at d x r).1 ≡ booked (add_at d x r).0 (books d)
unfolding add_at lost_total
add_at-books d x (success, i, free) = refl
add_at-books d x (error, i, free) = refl

pub add_dron-books :
    (d : AllDronesData) (free : Stack ℕ) (x : DronData)
    → books (add_dron d free x).1 ≡ booked (add_dron d free x).0 (books d)
unfolding add_dron
add_dron-books d free x = add_at-books d x (pop_elem free 0)

recount-books : (l : Location) (d : AllDronesData) → books (recount l d).1 ≡ books d
unfolding recount lost_total
recount-books undefine d = refl
recount-books base d = refl
recount-books mission d = refl
recount-books (unknown n) d = refl

pub update_dron_location-books :
    (d : AllDronesData) (i : ℕ) (l : Location) → books (update_dron_location d i l).1 ≡ books d
unfolding update_dron_location lost_total
update_dron_location-books d i l = unfold lost_total in recount-books (location_at d i) d

release-books :
    (l : Location) (r : Bool) (d : AllDronesData)
    → books (release_reservation r (release_base l d)).1 ≡ books d
unfolding release_reservation release_base lost_total
release-books undefine true d = refl
release-books undefine false d = refl
release-books base true d = refl
release-books base false d = refl
release-books mission true d = refl
release-books mission false d = refl
release-books (unknown n) true d = refl
release-books (unknown n) false d = refl

lost_more : AllDronesData → ℕ → ℤ × ℕ × ℕ
lost_more d m = (d.dron_count -ℤ pos 1, m, d.next_dron_id)

count_loss-books :
    (reason : DestructionReason) (d : AllDronesData)
    → books (count_loss reason (record d { dron_count = d.dron_count -ℤ pos 1 }))
      ≡ (d.dron_count -ℤ pos 1, lost_total d + 1, d.next_dron_id)
unfolding count_loss lost_total lost_more
count_loss-books out_of_power d = ap (lost_more d) (omega arith)
count_loss-books decommissioned d = ap (lost_more d) (omega arith)
count_loss-books suicide d = ap (lost_more d) (omega arith)
count_loss-books other d = ap (lost_more d) (omega arith)

pub delete_drone-books :
    (d : AllDronesData) (free : Stack ℕ) (i : ℕ) (r : Bool) (reason : DestructionReason)
    → books (delete_drone d free i r reason).2
      ≡ (d.dron_count -ℤ pos 1, lost_total d + 1, d.next_dron_id)
unfolding delete_drone lost_total
delete_drone-books d free i r reason =
    let lost : AllDronesData =
      count_loss reason (record d { dron_count = d.dron_count -ℤ pos 1 }) in
    release-books (location_at lost i) r lost ∙ count_loss-books reason d
