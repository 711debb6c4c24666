-- ===== src/System/Traces.antt =====
-- Runs of the swarm with what they did at the gate, to the limit and in creating drones.
use so_lab_project.Prelude.{ℕ, zero, suc, List, [], ◌∷◌}
use so_lab_project.Shm.{Location}
use so_lab_project.System.{Swarm, Step, forks, enters_gate, leaves_gate, raises, lowers}
use so_lab_project.System.Safety.{Reach, here, next}

-- Process `k` takes a token of the gate, and puts it back; a drone is created for a place; the limit is
-- raised and lowered.
pub data Label : Type 0 where
  entering leaving : ℕ → Label
  forking : Location → Label
  raising lowering : Label

abbrev pub labelled : {n : ℕ} {s t : Swarm} → Step n s t → List Label → List Label
labelled (enters_gate k me to e h) ls = entering k ∷ ls
labelled (leaves_gate k me to e) ls = leaving k ∷ ls
labelled (forks x me b) ls = forking x.location ∷ ls
labelled raises ls = raising ∷ ls
labelled lowers ls = lowering ∷ ls
labelled _ ls = ls

-- The last label comes first.
pub data Traced (n : ℕ) (s : Swarm) : List Label → Swarm → Type 0 where
  at_start : Traced n s [] s
  onward :
      {t u : Swarm} {ls : List Label}
      → Traced n s ls t
      → (st : Step n t u) → Traced n s (labelled st ls) u

-- A traced run is a run.
pub Traced-Reach : (n : ℕ) (s t : Swarm) (ls : List Label) → Traced n s ls t → Reach n s t
Traced-Reach n s _ _ at_start = here
Traced-Reach n s _ _ (onward {t = t} {ls = ls} r st) = next (Traced-Reach n s t ls r) st

-- Process `k` goes through the gate `m` times, with its token back each time.
abbrev pub passages : ℕ → ℕ → List Label
passages k zero = []
passages k (suc m) = leaving k ∷ entering k ∷ passages k m
