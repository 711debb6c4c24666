-- ===== src/System/Semaphore.antt =====
-- Processes that change the shared memory in critical sections between `semaphore_lock` and
-- `semaphore_unlock` (src/ipc/semaphore.c), one write at a time, and that may die at any point. The
-- semaphore itself belongs to the system: it is a parameter, with what semop(2) says of it.
pub mod Changes
pub mod Exclusion
use so_lab_project.Prelude.{
  ℕ, zero, suc, ◌+◌, ◌≡◌, ◌≢◌, List, [], ◌∷◌, ◌++◌, Option, none, some, ℤ, pos, negsuc, ◌==◌,
  if◌then◌else◌,
}
use so_lab_project.Ipc.{
  Answer, done, interrupted, timed_out, failed, semaphore_lock, semaphore_unlock,
}

-- A semaphore of the system. `wait` and `signal` are the operations -1 and +1 with SEM_UNDO, `undo` is
-- what the system gives back when the process ends, and `exit` that end.
pub record Kernel : Type 1 where
  pub State : Type 0
  pub value : State → ℕ
  pub undo : ℕ → State → ℕ
  pub wait : ℕ → State → Option State
  pub signal : ℕ → State → State
  pub exit : ℕ → State → State
  pub waits : (p : ℕ) (k : State) → value k ≡ 0 → wait p k ≡ none
  pub takes :
      (p n : ℕ) (k : State)
      → value k ≡ suc n
      → (k' : State) × (wait p k ≡ some k')
        × (value k' ≡ n)
        × (undo p k' ≡ suc (undo p k))
        × ((q : ℕ) → q ≢ p → undo q k' ≡ undo q k)
  pub signal_value : (p : ℕ) (k : State) → value (signal p k) ≡ suc (value k)
  pub signal_undo : (p n : ℕ) (k : State) → undo p k ≡ suc n → undo p (signal p k) ≡ n
  pub signal_others : (p q : ℕ) (k : State) → q ≢ p → undo q (signal p k) ≡ undo q k
  pub exit_value : (p : ℕ) (k : State) → value (exit p k) ≡ value k + undo p k
  pub exit_undo : (p : ℕ) (k : State) → undo p (exit p k) ≡ 0
  pub exit_others : (p q : ℕ) (k : State) → q ≢ p → undo q (exit p k) ≡ undo q k

-- One write of a critical section: it may read what the process knows, and change that too.
abbrev pub Act : Type 0 → Type 0 → Type 0
Act S L = S × L → S × L

abbrev pub run {ℓ} : {M : Type ℓ} → List (M → M) → M → M
run [] m = m
run (a ∷ acts) m = run acts (a m)

-- A critical section under way: what the process knew before it, the writes so far, and what it knows.
pub record Work (S L : Type 0) : Type 0 where
  pub before : L
  pub written : List (Act S L)
  pub now : L

pub data Phase (S L : Type 0) : Type 0 where
  outside : Phase S L
  locking : L → List (Act S L) → Phase S L
  inside : Work S L → List (Act S L) → Phase S L
  unlocking : Work S L → Phase S L
  -- `semaphore_unlock` failed
  stuck : Work S L → Phase S L
  gone : Phase S L

-- `semaphore_lock` and `semaphore_unlock` after one more answer of `semop`: without a result they
-- call it again.
unfoldable pub after_lock :
    {S L : Type 0} → L → List (Act S L) → Option (ℤ × List Answer) → Phase S L
after_lock l acts none = locking l acts
after_lock l acts (some (pos c, r)) = inside (record { before = l; written = []; now = l }) acts
after_lock l acts (some (negsuc c, r)) = outside

unfoldable pub after_unlock : {S L : Type 0} → Work S L → Option (ℤ × List Answer) → Phase S L
after_unlock w none = unlocking w
after_unlock w (some (pos c, r)) = outside
after_unlock w (some (negsuc c, r)) = stuck w

pub record State (K : Kernel) (S L : Type 0) : Type 0 where
  pub kernel : K.State
  pub shared : S
  pub phases : ℕ → Phase S L

-- What an answer says of the semaphore.
abbrev pub Waited : (K : Kernel) → ℕ → Answer → K.State → K.State → Type 0
Waited K p done k k' = K.wait p k ≡ some k'
Waited K p _ k k' = k' ≡ k

abbrev pub Signalled : (K : Kernel) → ℕ → Answer → K.State → K.State → Type 0
Signalled K p done k k' = k' ≡ K.signal p k
Signalled K p _ k k' = k' ≡ k

abbrev pub put {ℓ} : {X : Type ℓ} → ℕ → X → (ℕ → X) → ℕ → X
put p x f q = if q == p then x else f q

-- A step of process `p`.
pub data Step {K : Kernel} {S L : Type 0} (s : State K S L) : State K S L → Type 0 where
  begins :
      (p : ℕ) (l : L) (acts : List (Act S L))
      → s.phases p ≡ outside
      → Step s (record s { phases = put p (locking l acts) s.phases })
  semop_lock :
      (p : ℕ) (l : L) (acts : List (Act S L)) (a : Answer) (k : K.State)
      → s.phases p ≡ locking l acts
      → Waited K p a s.kernel k
      → Step s (record s {
        kernel = k;
        phases = put p (after_lock l acts (semaphore_lock (a ∷ []))) s.phases;
      })
  writes :
      (p : ℕ) (w : Work S L) (a : Act S L) (acts : List (Act S L)) (sh : S) (l : L)
      → s.phases p ≡ inside w (a ∷ acts)
      → a (s.shared, w.now) ≡ (sh, l)
      → Step s (record s {
        shared = sh;
        phases = put p (inside (record w { written = w.written ++ a ∷ []; now = l }) acts) s.phases;
      })
  ends :
      (p : ℕ) (w : Work S L)
      → s.phases p ≡ inside w []
      → Step s (record s { phases = put p (unlocking w) s.phases })
  semop_unlock :
      (p : ℕ) (w : Work S L) (a : Answer) (k : K.State)
      → s.phases p ≡ unlocking w
      → Signalled K p a s.kernel k
      → Step s (record s {
        kernel = k;
        phases = put p (after_unlock w (semaphore_unlock (a ∷ []))) s.phases;
      })
  -- `close_main`, or a signal that ends the process
  dies : (p : ℕ) → Step s (record s { kernel = K.exit p s.kernel; phases = put p gone s.phases })

-- The states that a run can lead to from `s`.
pub data Reach {K : Kernel} {S L : Type 0} (s : State K S L) : State K S L → Type 0 where
  here : Reach s s
  next : {t u : State K S L} → Reach s t → Step t u → Reach s u

-- What the set-up leaves: the semaphore has the value 1 and nothing to give back, and no process is
-- in a critical section or on the way into one.
pub record IsStart {K : Kernel} {S L : Type 0} (s : State K S L) : Type 0 where
  pub free : K.value s.kernel ≡ 1
  pub nothing_to_undo : (p : ℕ) → K.undo p s.kernel ≡ 0
  pub all_outside : (p : ℕ) → s.phases p ≡ outside

-- The sections of a run that are over, each with its process, the last one first: a section is over
-- when `semop` has given the semaphore back, or when its process dies in it.
abbrev pub Log : Type 0 → Type 0 → Type 0
Log S L = List (ℕ × Work S L)

-- Who has the semaphore: from the success of `semaphore_lock` to that of `semaphore_unlock`.
abbrev pub work_of : {S L : Type 0} → Phase S L → Option (Work S L)
work_of (inside w acts) = some w
work_of (unlocking w) = some w
work_of (stuck w) = some w
work_of _ = none

abbrev pub cut_off : {S L : Type 0} → ℕ → Option (Work S L) → Log S L → Log S L
cut_off p none log = log
cut_off p (some w) log = (p, w) ∷ log

abbrev pub answered : {S L : Type 0} → Answer → ℕ → Work S L → Log S L → Log S L
answered done p w log = (p, w) ∷ log
answered _ p w log = log

abbrev pub recorded : {K : Kernel} {S L : Type 0} {s t : State K S L} → Step s t → Log S L → Log S L
recorded (semop_unlock p w a k e h) log = answered a p w log
recorded {s = s} (dies p) log = cut_off p (work_of (s.phases p)) log
recorded _ log = log

abbrev pub sections : {K : Kernel} {S L : Type 0} {s t : State K S L} → Reach s t → Log S L
sections here = []
sections (next r step) = recorded step (sections r)

-- What such sections make of the shared memory when each runs without a break from what the one
-- before it left, with the knowledge that its process had at its start; each comes to the knowledge
-- that it had in its run.
pub data Serial {S L : Type 0} (first : S) : Log S L → S → Type 0 where
  none_yet : Serial first [] first
  section :
      {s sh : S} {log : Log S L} (p : ℕ) (w : Work S L)
      → Serial first log s
      → run w.written (s, w.before) ≡ (sh, w.now)
      → Serial first ((p, w) ∷ log) sh
