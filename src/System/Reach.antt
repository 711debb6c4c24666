-- ===== src/System/Reach.antt =====
-- The runs of the swarm from its start, and the invariant along them.
use so_lab_project.Prelude.{ℕ}
use so_lab_project.Operator.{raise_limit, lower_limit}
use so_lab_project.System.{
  Swarm, Step, forks, refused, out_of_memory, joins, reserves, turns, gives_up, enters_gate,
  leaves_gate, arrives, departs, removes, stops, raises, lowers,
}
use so_lab_project.System.Invariant.{Inv}
use so_lab_project.System.Local.{
  forks-Inv, refused-Inv, stops-Inv, turns-Inv, gives_up-Inv, enters_gate-Inv, leaves_gate-Inv,
}
use so_lab_project.System.Slots.{limit-Inv}
use so_lab_project.System.Steps.{out_of_memory-Inv, joins-Inv, reserves-Inv}
use so_lab_project.System.Moves.{arrives-Inv, departs-Inv, removes-Inv}

-- Every step of a drone or of the operator keeps the invariant.
pub Step-Inv : {n : ℕ} {s t : Swarm} → Step n s t → Inv s → Inv t
unfolding raise_limit lower_limit
Step-Inv {s = s} (forks x me b) v = forks-Inv s x me v b
Step-Inv {s = s} (refused k x me h e) v = refused-Inv s k x me v h
Step-Inv {s = s} (out_of_memory k x me sh h e) v = out_of_memory-Inv s k x me sh v h e
Step-Inv {s = s} (joins k x me i id sh h e) v = joins-Inv s k x me i id sh v h e
Step-Inv {s = s} (reserves k me me' sh h l c e) v = reserves-Inv s k me me' sh v h l e
Step-Inv {s = s} (turns k me h l) v = turns-Inv s k me v h l
Step-Inv {s = s} (gives_up k me to h) v = gives_up-Inv s k me to v h
Step-Inv {s = s} (enters_gate k me to h t) v = enters_gate-Inv s k me to v h t
Step-Inv {s = s} (leaves_gate k me to h) v = leaves_gate-Inv s k me to v h
Step-Inv {s = s} (arrives k me h) v = arrives-Inv s k me v h
Step-Inv {s = s} (departs k me h) v = departs-Inv s k me v h
Step-Inv {s = s} (removes k me reason h) v = removes-Inv s k me v reason h
Step-Inv {s = s} (stops k me h) v = stops-Inv s k me v h
Step-Inv {s = s} raises v = limit-Inv s _ v
Step-Inv {s = s} lowers v = limit-Inv s _ v
