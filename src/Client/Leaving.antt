-- ===== src/Client/Leaving.antt =====
-- How a drone, the operator and the commander leave when the calls succeed that give back what they
-- hold.
use so_lab_project.Prelude.{
  ℕ, suc, ◌-◌, ◌≡◌, ◌≢◌, refl, sym, ◌∙◌, inl, inr, false, Bool-cases, ◌&&◌, List, [], Option, some,
  pos, leb_ℤ, ltb_ℤ, arith, if◌then◌else◌,
}
use so_lab_project.Ipc.{Answer, minus_one}
use so_lab_project.Ipc.Gate.{Place, fifo_sem_close}
use so_lab_project.Ipc.Objects.{Segment, shm_detach}
use so_lab_project.Ipc.Attempts.{Succeed, fewer, done_rule, guarded_rule}
use so_lab_project.Ipc.Gate.Closing.{descriptor_rule, is_set, is_unset}
use so_lab_project.Client.{Client, forgotten, leave_segment}
use so_lab_project.Client.Holding.{SegmentHeld, GateHeld}
use so_lab_project.Client.Dron
use so_lab_project.Client.Commander

-- A segment that is no longer attached and exists as it did at first; a FIFO alike.
abbrev pub SegmentLeft : Segment → Segment → Type 0
SegmentLeft first g = (g.attached ≡ 0) × (g.mapped ≡ false) × (g.exists ≡ first.exists)

abbrev pub GateLeft : Place → Place → Type 0
GateLeft first p = (p.is_open ≡ false) × (p.exists ≡ first.exists)

abbrev pub Left : Client → Client → Type 0
Left first c =
    SegmentLeft first.all_drones c.all_drones
    × SegmentLeft first.stack c.stack
    × GateLeft first.gate c.gate

-- What is left of a segment, with the test of a drone and the operator, and with the commander's.
abbrev pub left_segment : Segment → Segment
left_segment g =
    if leb_ℤ (pos 0) g.identifier && g.mapped
    then record g { mapped = false; identifier = minus_one; attached = g.attached - 1 }
    else g

abbrev pub released_segment : Segment → Segment
released_segment g = if g.mapped then record g { mapped = false; attached = g.attached - 1 } else g

pub left_segment-SegmentLeft : (f g : Segment) → SegmentHeld f g → SegmentLeft f (left_segment g)
left_segment-SegmentLeft f g (same, counted, known) = (ground arith, ground arith, ground arith)

pub released_segment-SegmentLeft :
    (f g : Segment) → SegmentHeld f g → SegmentLeft f (released_segment g)
released_segment-SegmentLeft f g (same, counted, known) = (ground arith, ground arith, ground arith)

abbrev pub left_gate : Place → Place
left_gate p =
    if ltb_ℤ (pos 0) p.fifo.file_descriptor
    then record p {
      fifo = record { path = []; file_descriptor = minus_one; capacity = pos 0 };
      is_open = false;
    }
    else p

pub left_gate-GateLeft :
    (f p : Place) → GateHeld f p → p.fifo.file_descriptor ≢ pos 0 → GateLeft f (left_gate p)
left_gate-GateLeft f p (same, opened) n = elim (Bool-cases (ltb_ℤ (pos 0) p.fifo.file_descriptor)) [
  | inl there ↦ rw there (refl, same)
  | inr away ↦ rw away (sym opened ∙ is_unset p.fifo.file_descriptor away n, same)
]

module _ (n : ℕ) (answers : List Answer) where
  pub leave_segment_rule :
      (Q : Option (Segment × List Answer) → Type 0) (g : Segment)
      → Succeed (suc n) answers
      → ((r : List Answer) → Succeed n r → Q (some (left_segment g, r)))
      → Q (leave_segment g answers)
  unfolding leave_segment shm_detach
  leave_segment_rule Q g h =
      guarded_rule Q n (leb_ℤ (pos 0) g.identifier && g.mapped) _ g answers _ (fewer n answers h)
        (λ _ k. done_rule (λ o. Q (forgotten o)) n answers _ _ h k)

  pub release_segment_rule :
      (Q : Option (Segment × List Answer) → Type 0) (g : Segment)
      → Succeed (suc n) answers
      → ((r : List Answer) → Succeed n r → Q (some (released_segment g, r)))
      → Q (Commander.release_segment g answers)
  unfolding Commander.release_segment shm_detach
  release_segment_rule Q g h =
      guarded_rule Q n g.mapped _ g answers _ (fewer n answers h)
        (λ _ k. done_rule (λ o. Q (Commander.unmapped o)) n answers _ _ h k)

  pub leave_gate_rule :
      (Q : Option (Place × List Answer) → Type 0) (p : Place)
      → Succeed (suc n) answers
      → ((r : List Answer) → Succeed n r → Q (some (left_gate p, r)))
      → Q (Dron.leave_gate p answers)
  unfolding Dron.leave_gate fifo_sem_close
  leave_gate_rule Q p h =
      guarded_rule Q n (ltb_ℤ (pos 0) p.fifo.file_descriptor) _ p answers _ (fewer n answers h)
        (λ there k.
          let set = is_set p.fifo.file_descriptor there in
          rw set (descriptor_rule (λ o. Q (Dron.zeroed o)) n p answers h k))
