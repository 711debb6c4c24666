-- ===== src/System/Staffing.antt =====
-- The operator's loop (src/operator/operator.c) is a run of the step relation too: it changes the
-- limit, and it forks drones.
pub mod Parts
use so_lab_project.Prelude.{
  by_test, either_way, map, ◌⊎◌, inl, inr, if◌then◌else◌, ℕ, zero, suc, ◌≡◌, refl, sym, subst, ap,
  ◌∙◌, Bool, true, false, List, [], ◌∷◌, ◌++◌, Option, none, some, ℤ, pos, negsuc, length,
  replicate, leb_ℤ,
}
use so_lab_project.Shm.{base, AllDronesData, DronData}
use so_lab_project.Ipc.{
  Answer, done, interrupted, timed_out, failed, semaphore_lock, semaphore_unlock,
}
use so_lab_project.Dron.{DronInternalData, has_room}
use so_lab_project.Operator.{raise_limit, lower_limit}
use so_lab_project.Operator.Loop.{
  Operator, Progress, goes_on, closes, waits, go_on, guarded, critical, creat_dron, fork_outcome,
  with_child, react_sigusr1, react_sigusr2, resupply, describe_self, turn,
}
use so_lab_project.System.{Swarm, Proc, starting, IsBorn, forks, raises, lowers}
use so_lab_project.System.Staffing.Parts.{Leads, chain, critical-Leads}
use so_lab_project.System.Traces.{Label, forking, raising, lowering, Traced, at_start, onward}

-- What holds of both branches, each with what the test said.
by_flag {ℓ} :
    {A : Type ℓ} (P : Bool → A → Type 0) (b : Bool) (x y : A)
    → P true x
    → P false y
    → P b (if b then x else y)
by_flag P true x y h k = h
by_flag P false x y h k = k

replicate-snoc {ℓ} :
    {A : Type ℓ} (ps : List A) (j : ℕ) (a : A)
    → (ps ++ replicate j a) ++ a ∷ [] ≡ ps ++ replicate (suc j) a
replicate-snoc [] zero a = refl
replicate-snoc [] (suc j) a = ap (λ q. a ∷ q) (replicate-snoc [] j a)
replicate-snoc (p ∷ ps) j a = ap (λ q. p ∷ q) (replicate-snoc ps j a)

++-nil {ℓ} : {A : Type ℓ} (ps : List A) → ps ++ [] ≡ ps
++-nil [] = refl
++-nil (p ∷ ps) = ap (λ q. p ∷ q) (++-nil ps)

-- The swarm with the operator's view of the shared memory, and one process `a` for each child.
abbrev pub staffed : Swarm → Proc → Operator → Swarm
staffed s a o = record {
  shared = record (s.shared) { all = o.all };
  tokens = s.tokens;
  procs = s.procs ++ replicate (length o.created) a;
}

-- What the reactions to the signals do, the last one first.
abbrev pub reactions : Operator → List Label
reactions o =
    (if o.got_sigusr2 then lowering ∷ [] else []) ++ (if o.got_sigusr1 then raising ∷ [] else [])

-- What a turn that goes on amounts to: the swarm came to the shared memory that it leaves by one
-- raise for a SIGUSR1, then one lowering for a SIGUSR2, then the creation of each new drone in its
-- place; and there is a new drone only if the base has room.
abbrev pub Staffs : ℕ → Swarm → Proc → Operator → Progress → Type 0
Staffs n s a b (goes_on o) =
    Traced n s (map forking o.created ++ reactions b) (staffed s a o)
    × ((o.created ≡ []) ⊎ (has_room o.all ≡ true))
Staffs n s a b (closes e o) = Unit {0}
Staffs n s a b waits = Unit {0}

module _ (n : ℕ) (s : Swarm) (x : DronData) (me : DronInternalData) (born : IsBorn x me) where
  abbrev a : Proc
  a = starting x me

  -- No drone has been created so far.
  abbrev Alone : List Label → Operator → Type 0
  Alone ls o = Traced n s ls (staffed s a o) × (o.created ≡ [])

  -- The flag for SIGUSR2 is as before, and the raise is done.
  abbrev Raised : Operator → Operator → Type 0
  Raised b o =
      Alone (if b.got_sigusr1 then raising ∷ [] else []) o × (o.got_sigusr2 ≡ b.got_sigusr2)

  react_sigusr1-Leads : (o : Operator) → Alone [] o → Leads (Raised o) (react_sigusr1 n o)
  unfolding react_sigusr1
  react_sigusr1-Leads o (h, e) =
      by_flag
        (λ f r.
          Leads (λ p. Alone (if f then raising ∷ [] else []) p × (p.got_sigusr2 ≡ o.got_sigusr2)) r)
        o.got_sigusr1 _ _
        (critical-Leads _ (raise_limit n) (record o { got_sigusr1 = false })
          (λ r. ((onward h raises, e), refl)))
        ((h, e), refl)

  react_sigusr2-Leads :
      (b o : Operator) → Raised b o → Leads (Alone (reactions b)) (react_sigusr2 o)
  unfolding react_sigusr2
  react_sigusr2-Leads b o ((h, e), same) =
      let after : List Label = lowering ∷ (if b.got_sigusr1 then raising ∷ [] else []) in
      subst
        (λ f.
          Leads
            (Alone
              ((if f then lowering ∷ [] else []) ++ (if b.got_sigusr1 then raising ∷ [] else [])))
            (react_sigusr2 o))
        same
        (by_flag
          (λ f r.
            Leads
              (Alone
                ((if f then lowering ∷ [] else []) ++ (if b.got_sigusr1 then raising ∷ [] else [])))
              r)
          o.got_sigusr2 _ _
          (chain (Alone after) (Alone after)
            (critical lower_limit (record o { got_sigusr2 = false })) _
            (critical-Leads (Alone after) lower_limit (record o { got_sigusr2 = false })
              (λ r. (onward h lowers, e)))
            (λ p q.
              either_way (Alone after) (leb_ℤ p.all.maximum_dron_in_base_count (pos 0))
                (record p { got_shutdown_requested = true }) p q q))
          (h, e))

  -- Behind the supply: a new drone only with room, and with its label.
  abbrev Supplied : List Label → Operator → Type 0
  Supplied ls o =
      Traced n s (map forking o.created ++ ls) (staffed s a o)
      × ((o.created ≡ []) ⊎ (has_room o.all ≡ true))

  Alone-Supplied : (ls : List Label) (o : Operator) → Alone ls o → Supplied ls o
  Alone-Supplied ls o (h, e) =
      (subst (λ c. Traced n s (map forking c ++ ls) (staffed s a o)) (sym e) h, inl e)

  module _ (place : x.location ≡ base) (ls : List Label) where
    hires :
        (o : Operator)
        → Traced n s (map forking o.created ++ ls) (staffed s a o)
        → Traced n s
            (forking base ∷ map forking o.created ++ ls)
            (staffed s a (record o { created = base ∷ o.created }))
    hires o h =
        subst
          (λ l.
            Traced n s (forking l ∷ map forking o.created ++ ls)
              (staffed s a (record o { created = base ∷ o.created })))
          place
          (subst
            (λ ps. Traced n s (forking x.location ∷ map forking o.created ++ ls) (record {
              shared = record (s.shared) { all = o.all };
              tokens = s.tokens;
              procs = ps;
            }))
            (replicate-snoc s.procs (length o.created) a) (onward h (forks x me born)))

    fork-Leads :
        (answers : List Answer) (o : Operator)
        → Alone ls o
        → has_room o.all ≡ true
        → Leads (Supplied ls) (with_child (fork_outcome base answers o))
    unfolding fork_outcome
    fork-Leads [] o h room = tt
    fork-Leads (done ∷ rest) o (h, e) room = (hires o (Alone-Supplied ls o (h, e)).0, inr room)
    fork-Leads (interrupted ∷ rest) o h room = Alone-Supplied ls (record o { answers = rest }) h
    fork-Leads (timed_out ∷ rest) o h room = Alone-Supplied ls (record o { answers = rest }) h
    fork-Leads (failed ∷ rest) o h room = Alone-Supplied ls (record o { answers = rest }) h

    resupply-Leads : (o : Operator) → Alone ls o → Leads (Supplied ls) (resupply o)
    unfolding resupply creat_dron
    resupply-Leads o h =
        chain (Alone ls) (Supplied ls) (critical (λ d. d) o) _
          (critical-Leads (Alone ls) (λ d. d) o (λ r. h))
          λ p q.
            by_test (Leads (Supplied ls)) (has_room p.all) _ _ (fork-Leads p.answers p q)
              (λ full. Alone-Supplied ls p q)

  turn_from :
      (o : Operator) → x.location ≡ base → Alone [] o → Leads (Supplied (reactions o)) (turn n o)
  unfolding turn describe_self
  turn_from o place h =
      let ls = reactions o in
      chain (Raised o) (Supplied ls) (react_sigusr1 n o) _ (react_sigusr1-Leads o h) λ p r.
        chain (Alone ls) (Supplied ls) (react_sigusr2 p) _ (react_sigusr2-Leads o p r) λ q t.
          chain (Supplied ls) (Supplied ls) (resupply q) _ (resupply-Leads place ls q t)
            λ u v. critical-Leads (Supplied ls) (λ d. d) u (λ r. v)

  staffs : (b : Operator) (r : Progress) → Leads (Supplied (reactions b)) r → Staffs n s a b r
  staffs b (goes_on o) h = h
  staffs b (closes e o) h = tt
  staffs b waits h = tt

  -- One turn of the operator's loop, by an operator that has created no drone yet and sees the
  -- swarm's shared memory, is a run of the swarm: if the turn goes on, the swarm can reach the
  -- shared memory that it leaves, with one process that has still to register for each drone it
  -- created. The run raises the limit exactly if a SIGUSR1 was pending, lowers it then exactly if a
  -- SIGUSR2 was pending, and then creates the drones in the places where the operator created them;
  -- it creates one only if the base has room. Turns that close the operator, or wait, are left out.
  pub turn-Staffs :
      (o : Operator)
      → x.location ≡ base
      → s.shared.all ≡ o.all
      → o.created ≡ []
      → Staffs n s (starting x me) o (turn n o)
  turn-Staffs o place same none_yet = staffs o (turn n o) (turn_from o place (begun, none_yet))
    where
      begun : Traced n s [] (staffed s a o)
      begun =
          subst (λ t. Traced n s [] t)
            (ap (λ ps. record { shared = s.shared; tokens = s.tokens; procs = ps })
                (sym (++-nil s.procs))
              ∙ (λ i. record {
                shared = record (s.shared) { all = same i };
                tokens = s.tokens;
                procs = s.procs ++ replicate (length (sym none_yet i)) a;
              }))
            at_start
