-- ===== src/Main/Closing/Leftover.antt =====
-- What `main` and `close_main` (src/main.c) leave behind when no call of the clean-up fails,
-- however far the set-up came.
use so_lab_project.Prelude.{
  ◌≡◌, ◌≢◌, refl, sym, ap, ◌∙◌, subst, inl, inr, false, Bool-cases, ◌&&◌, not, some, ℤ, pos, negsuc,
  arith, leb_ℤ, ltb_ℤ,
}
use so_lab_project.Ipc.{minus_one}
use so_lab_project.Ipc.Acts.{exits}
use so_lab_project.Ipc.Attempts.{Succeed}
use so_lab_project.Ipc.Gate.{Place}
use so_lab_project.Ipc.Gate.Closing.{is_set, is_unset}
use so_lab_project.Ipc.Objects.{Segment, Semaphore}
use so_lab_project.Main.Launch.{Main, heard, set_up}
use so_lab_project.Main.Launch.Sound.{SegmentSound, GateSound, Sound, IsUntouched, IsComplete, Ends}
use so_lab_project.Main.Launch.Stages.{set_up-Ends}
use so_lab_project.Main.Launch.Leading.{complete-Sound}
use so_lab_project.Main.Closing.{close_main, closed_by, main}
use so_lab_project.Main.Closing.Objects.{closed_segment, closed_semaphore, closed_gate}
use so_lab_project.Main.Closing.Cleaning.{cleaned, clean_up-Takes}

-- What is left of an object: nothing of a segment that was attached, and the id of one that was not;
-- no semaphore whose id was known; no gate that was open.
abbrev pub SegmentCleaned : Segment → Segment → Type 0
SegmentCleaned g h = (h.attached ≡ 0) × (h.mapped ≡ false) × (h.exists ≡ g.exists && not g.mapped)

abbrev pub SemaphoreCleaned : Semaphore → Semaphore → Type 0
SemaphoreCleaned s h =
    (leb_ℤ (pos 0) h.identifier ≡ false) × (h.exists ≡ s.exists && not (leb_ℤ (pos 0) s.identifier))

abbrev pub GateCleaned : Place → Place → Type 0
GateCleaned p q = (q.is_open ≡ false) × (q.exists ≡ p.exists && not p.is_open)

closed_segment-SegmentCleaned : (g : Segment) → SegmentSound g → SegmentCleaned g (closed_segment g)
closed_segment-SegmentCleaned g h =
    let known = h.known in
    let counted = h.counted in let based = h.based in (ground arith, ground arith, ground arith)

closed_semaphore-SemaphoreCleaned : (s : Semaphore) → SemaphoreCleaned s (closed_semaphore s)
closed_semaphore-SemaphoreCleaned s = (ground arith, ground arith)

closed_gate-GateCleaned :
    (p : Place) → GateSound p → p.fifo.file_descriptor ≢ pos 0 → GateCleaned p (closed_gate p)
closed_gate-GateCleaned p (same, path) n =
    elim (Bool-cases (ltb_ℤ (pos 0) p.fifo.file_descriptor)) [
      | inl there ↦
          let set = sym same ∙ is_set p.fifo.file_descriptor there in rw there (refl, ground arith)
      | inr away ↦
          let unset = sym same ∙ is_unset p.fifo.file_descriptor away n in
          rw away (unset, ground arith)
    ]

abbrev pub Cleaned : Main → Main → Type 0
Cleaned m m' =
    SegmentCleaned m.config m'.config
    × SegmentCleaned m.all_drones m'.all_drones
    × SegmentCleaned m.stack m'.stack
    × SemaphoreCleaned m.config_semaphore m'.config_semaphore
    × SemaphoreCleaned m.all_drones_semaphore m'.all_drones_semaphore
    × SemaphoreCleaned m.gate_semaphore m'.gate_semaphore
    × GateCleaned m.gate m'.gate

-- When no call fails, `close_main` ends with its exit code, and however far the set-up of the main
-- process came, nothing stays attached, no descriptor of the gate stays open, and every object that
-- was created is gone, except for a segment that was never attached.
close_main-Cleaned :
    (e : ℤ) (m : Main)
    → Sound m
    → m.gate.fifo.file_descriptor ≢ pos 0
    → Succeed 13 m.answers
    → (m' : Main) × (close_main e m ≡ some (e, m')) × Cleaned m m'
unfolding close_main
close_main-Cleaned e m (a, b, c, d, i, f, g) n h =
    let (r, done_, rest) = clean_up-Takes.run m g h in
    (
      heard (cleaned m) r,
      ap (exits e) done_,
      (
        closed_segment-SegmentCleaned m.config a,
        closed_segment-SegmentCleaned m.all_drones b,
        closed_segment-SegmentCleaned m.stack c,
        closed_semaphore-SemaphoreCleaned m.config_semaphore,
        closed_semaphore-SemaphoreCleaned m.all_drones_semaphore,
        closed_semaphore-SemaphoreCleaned m.gate_semaphore,
        closed_gate-GateCleaned m.gate g n,
      ),
    )

-- The exit code of `main`.
abbrev pub exit_code : ℤ → ℤ
exit_code (pos c) = pos 0
exit_code (negsuc c) = minus_one

ended : (c : ℤ) (m : Main) → Ends IsComplete (some (c, m)) → Sound m
ended (pos c) m h = complete-Sound m h
ended (negsuc c) m h = h

closed_by-close : (c : ℤ) (m : Main) → closed_by (some (c, m)) ≡ close_main (exit_code c) m
closed_by-close (pos c) m = refl
closed_by-close (negsuc c) m = refl

-- Wherever the set-up of the main process ends, with success or at any of its failures: when the
-- descriptor of the gate is not 0 and none of the next 13 calls fails, `main` exits with 0 after a
-- success and with -1 otherwise; no segment stays attached, no descriptor of the gate stays open,
-- and of what was created nothing exists any more, except for a segment that could not be attached
-- and a semaphore whose id was lost.
pub main-Cleaned :
    (m m1 : Main) (c : ℤ)
    → IsUntouched m
    → set_up m ≡ some (c, m1)
    → m1.gate.fifo.file_descriptor ≢ pos 0
    → Succeed 13 m1.answers
    → (m' : Main) × (main m ≡ some (exit_code c, m')) × Cleaned m1 m'
unfolding main
main-Cleaned m m1 c u e n h =
    let sound = ended c m1 (subst (Ends IsComplete) e (set_up-Ends m u)) in
    let (m', done_, clean) = close_main-Cleaned (exit_code c) m1 sound n h in
    (m', ap closed_by e ∙ closed_by-close c m1 ∙ done_, clean)
