-- ===== src/System/Semaphore/Exclusion.antt =====
-- `semaphore_lock` and `semaphore_unlock` (src/ipc/semaphore.c) make critical sections exclude one
-- another, whenever a process dies.
use so_lab_project.Prelude.{
  ℕ, ◌≡◌, ◌≢◌, ◌⊎◌, inl, inr, refl, sym, ap, ◌∙◌, subst, List, [], ◌∷◌, none, some, ◌==◌,
  if◌then◌else◌, Bool, true, false, Option-cases,
}
use so_lab_project.Ipc.{
  Answer, done, interrupted, timed_out, failed, semaphore_lock, semaphore_unlock,
}
use so_lab_project.System.Semaphore.{
  Kernel, Act, run, Work, Phase, outside, locking, unlocking, gone, after_lock, after_unlock, State,
  put, Waited, Signalled, Step, begins, semop_lock, writes, ends, semop_unlock, dies, Reach, here,
  next, IsStart, Log, work_of, cut_off, answered, recorded, sections, Serial, none_yet,
}
use so_lab_project.System.Semaphore.Changes.{
  taken, Written, Excludes, put_known, owner-Owned, wait-Excludes, write-Excludes, signal-Excludes,
  exit-Excludes,
}

either :
    {X Y : Type 0} (f : X → Y) (b : Bool) (x y : X)
    → (if b then f x else f y) ≡ f (if b then x else y)
either f true x y = refl
either f false x y = refl

module _ {K : Kernel} {S L : Type 0} (first : S) where
  abbrev Guarded : Log S L → State K S L → Type 0
  Guarded log s = Excludes K first log s.kernel s.shared (λ q. work_of (s.phases q))

  -- What a process does to its phase it does to its section.
  phased :
      (log : Log S L) (k : K.State) (sh : S) (p : ℕ) (x : Phase S L) (phases : ℕ → Phase S L)
      → Excludes K first log k sh (put p (work_of x) (λ q. work_of (phases q)))
      → Excludes K first log k sh (λ q. work_of (put p x phases q))
  phased log k sh p x phases =
      subst (Excludes K first log k sh) (λ i q. either work_of (q == p) x (phases q) i)

  -- A step in which no process enters or leaves a section.
  kept :
      (log : Log S L) (s : State K S L) (p : ℕ) (x : Phase S L) (k : K.State)
      → work_of (s.phases p) ≡ work_of x
      → k ≡ s.kernel
      → Guarded log s
      → Excludes K first log k s.shared (λ q. work_of (put p x s.phases q))
  kept log s p x k same e g = phased log k s.shared p x s.phases (
      subst (Excludes K first log k s.shared)
        (sym (put_known p (work_of x) (λ q. work_of (s.phases q)) same))
        (subst (λ k. Excludes K first log k s.shared (λ q. work_of (s.phases q))) (sym e) g))

  module _ (log : Log S L) (s : State K S L) (p : ℕ) (k : K.State) (g : Guarded log s) where
    lock-Guarded :
        (l : L) (acts : List (Act S L)) (a : Answer)
        → s.phases p ≡ locking l acts
        → Waited K p a s.kernel k
        → Guarded log (record s {
          kernel = k;
          phases = put p (after_lock l acts (semaphore_lock (a ∷ []))) s.phases;
        })
    unfolding after_lock semaphore_lock
    lock-Guarded l acts done e h =
        phased log k s.shared p _ s.phases
          (wait-Excludes K first log _ s.kernel s.shared p g l k (ap work_of e) h)
    lock-Guarded l acts interrupted e h = kept log s p _ k (ap work_of e) h g
    lock-Guarded l acts timed_out e h = kept log s p _ k (ap work_of e) h g
    lock-Guarded l acts failed e h = kept log s p _ k (ap work_of e) h g

    unlock-Guarded :
        (w : Work S L) (a : Answer)
        → s.phases p ≡ unlocking w
        → Signalled K p a s.kernel k
        → Guarded (answered a p w log) (record s {
          kernel = k;
          phases = put p (after_unlock w (semaphore_unlock (a ∷ []))) s.phases;
        })
    unfolding after_unlock semaphore_unlock
    unlock-Guarded w done e h = phased ((p, w) ∷ log) k s.shared p outside s.phases (
        subst
          (λ k. Excludes K first ((p, w) ∷ log) k s.shared (put p none (λ q. work_of (s.phases q))))
          (sym h) (signal-Excludes K first log _ s.kernel s.shared p g w (ap work_of e)))
    unlock-Guarded w interrupted e h = kept log s p _ k (ap work_of e) h g
    unlock-Guarded w timed_out e h = kept log s p _ k (ap work_of e) h g
    unlock-Guarded w failed e h = kept log s p _ k (ap work_of e) h g

  Step-Guarded :
      (log : Log S L) (s t : State K S L) (step : Step s t)
      → Guarded log s
      → Guarded (recorded step log) t
  Step-Guarded log s _ (begins p l acts e) g = kept log s p _ s.kernel (ap work_of e) refl g
  Step-Guarded log s _ (semop_lock p l acts a k e h) g = lock-Guarded log s p k g l acts a e h
  Step-Guarded log s _ (writes p w a acts sh l e h) g =
      phased log s.kernel sh p _ s.phases
        (write-Excludes K first log _ s.kernel s.shared p g w a sh l (ap work_of e) h)
  Step-Guarded log s _ (ends p w e) g = kept log s p _ s.kernel (ap work_of e) refl g
  Step-Guarded log s _ (semop_unlock p w a k e h) g = unlock-Guarded log s p k g w a e h
  Step-Guarded log s _ (dies p) g =
      phased (cut_off p (work_of (s.phases p)) log) (K.exit p s.kernel) s.shared p gone s.phases
        (exit-Excludes K first log _ s.kernel s.shared p g)

  Reach-Guarded : (s t : State K S L) (r : Reach s t) → Guarded [] s → Guarded (sections r) t
  Reach-Guarded s _ here g = g
  Reach-Guarded s u (next {t = t} r step) g =
      Step-Guarded (sections r) t u step (Reach-Guarded s t r g)

-- Either no process has the semaphore, the shared memory is what the sections of the log leave that
-- are executed one after the other, and whichever process asks for the semaphore gets it; or one
-- process has it, and what it has written and read so far is as if it were alone behind those
-- sections.
abbrev pub OneByOne : {K : Kernel} {S L : Type 0} → S → Log S L → State K S L → Type 0
OneByOne {K = K} {S = S} {L = L} first log t =
    (((q : ℕ) → work_of (t.phases q) ≡ none)
      × Serial first log t.shared
      × ((p : ℕ) → (k : K.State) × (K.wait p t.kernel ≡ some k)))
    ⊎ ((p : ℕ) × (w : Work S L) × (work_of (t.phases p) ≡ some w)
        × (s : S) × Serial first log s
        × (run w.written (s, w.before) ≡ (t.shared, w.now)))

module _ {K : Kernel} {S L : Type 0} (s t : State K S L) (r : Reach s t) where
  reached : IsStart s → Guarded s.shared (sections r) t
  reached i = Reach-Guarded s.shared s t r (record {
    undo_of = λ q. i.nothing_to_undo q ∙ sym (ap (λ x. taken (work_of x)) (i.all_outside q));
    owner = inl (i.free, (λ q. ap work_of (i.all_outside q)), none_yet);
  })

  -- While a process is between the success of `semaphore_lock` and the success of
  -- `semaphore_unlock`, no other process is, whichever calls were interrupted or failed and
  -- whichever processes died.
  pub semaphore_lock-Excludes :
      (p q : ℕ) (w : Work S L)
      → IsStart s
      → work_of (t.phases p) ≡ some w
      → q ≢ p
      → work_of (t.phases q) ≡ none
  semaphore_lock-Excludes p q w i holds =
      let (zero_, others, written) =
        owner-Owned K s.shared (sections r) _ t.kernel t.shared p (reached i) w holds in
      others q

  -- In every state that processes can reach which change the shared memory only between
  -- `semaphore_lock` and `semaphore_unlock`, take the sections that are over: those that the run
  -- gave back with `semaphore_unlock`, and those in which it let a process die, each with the
  -- writes it did and what its process knew before and after. Executed one by one in that order
  -- they lead to the shared memory, each with the result it had; or one process has the semaphore,
  -- and its writes so far lead from there to the shared memory. When no process has the semaphore,
  -- also behind a death, whoever asks for it gets it.
  pub sections-OneByOne : IsStart s → OneByOne s.shared (sections r) t
  sections-OneByOne i = elim (reached i).owner [
    | inl (one, nobody, serial) ↦
        inl (
          nobody,
          serial,
          λ p. let (k, e, zero_, mine, others) = K.takes p 0 t.kernel one in (k, e),
        )
    | inr (p, held) ↦ elim (Option-cases (work_of (t.phases p))) [
      | inl e ↦ absurd (subst (λ o. Written K s.shared (sections r) o t.shared) e held.2)
      | inr (w, e) ↦
          let (before, serial, so_far) =
            subst (λ o. Written K s.shared (sections r) o t.shared) e held.2 in
          inr (p, w, e, before, serial, so_far)
    ]
  ]
