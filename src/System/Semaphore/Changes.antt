-- ===== src/System/Semaphore/Changes.antt =====
-- What a step does to the semaphore, to the shared memory and to who is in a critical section.
use so_lab_project.Prelude.{
  ℕ, suc, ◌≡◌, ◌≢◌, ◌⊎◌, inl, inr, refl, sym, ap, ◌∙◌, subst, List, [], ◌∷◌, ◌++◌, Option, none,
  some, ◌==◌, ==_iff, by_test, ℕ_discrete, Option-cases, arith,
}
use so_lab_project.System.Semaphore.{Kernel, Act, run, Work, put, Log, cut_off, Serial, section}

abbrev pub taken {ℓ} : {A : Type ℓ} → Option A → ℕ
taken none = 0
taken (some a) = 1

pub run-++ {ℓ} : {M : Type ℓ} (f g : List (M → M)) (m : M) → run (f ++ g) m ≡ run g (run f m)
run-++ [] g m = refl
run-++ (a ∷ f) g m = run-++ f g (a m)

module _ (K : Kernel) {S L : Type 0} (first : S) (log : Log S L) where
  -- The section `w` has written the shared memory from a state that whole sections left.
  abbrev pub Written : Option (Work S L) → S → Type 0
  Written none sh = ⊥
  Written (some w) sh = (s : S) × Serial first log s × (run w.written (s, w.before) ≡ (sh, w.now))

  abbrev pub Free : K.State → S → (ℕ → Option (Work S L)) → Type 0
  Free k sh works = (K.value k ≡ 1) × ((q : ℕ) → works q ≡ none) × Serial first log sh

  abbrev pub Owned : K.State → S → (ℕ → Option (Work S L)) → ℕ → Type 0
  Owned k sh works p = (K.value k ≡ 0) × ((q : ℕ) → q ≢ p → works q ≡ none) × Written (works p) sh

  pub record Excludes (k : K.State) (sh : S) (works : ℕ → Option (Work S L)) : Type 0 where
    pub undo_of : (q : ℕ) → K.undo q k ≡ taken (works q)
    pub owner : Free k sh works ⊎ ((p : ℕ) × Owned k sh works p)

some_injective : {A : Type 0} {a b : A} → some a ≡ some b → a ≡ b
some_injective e = cc

pub none-some : {A : Type 0} {a : A} → none ≢ some a
none-some e = cc

pub put_rule {ℓ} :
    {X : Type ℓ} (P : ℕ → X → Type 0) (p : ℕ) (x : X) (f : ℕ → X)
    → P p x
    → ((q : ℕ) → q ≢ p → P q (f q))
    → (q : ℕ) → P q (put p x f q)
put_rule P p x f h k q =
    by_test (P q) (q == p) x (f q) (λ e. subst (λ r. P r x) (sym ((==_iff q p).0 e)) h)
      (λ e. k q (λ same. absurd (ground (arith, same, e))))

pub put_at {ℓ} : {X : Type ℓ} (p : ℕ) (x : X) (f : ℕ → X) → put p x f p ≡ x
put_at p x f = rw ((==_iff p p).1 refl) refl

pub put_known : {X : Type 0} (p : ℕ) (x : X) (f : ℕ → X) → f p ≡ x → put p x f ≡ f
put_known p x f e = λ i q. put_rule (λ r o. o ≡ f r) p x f (sym e) (λ r n. refl) q i

others_put :
    {X : Type 0} (p : ℕ) (x : Option X) (f : ℕ → Option X)
    → ((q : ℕ) → q ≢ p → f q ≡ none)
    → (q : ℕ) → q ≢ p
    → put p x f q ≡ none
others_put p x f h =
    put_rule (λ q o. q ≢ p → o ≡ none) p x f (λ n. absurd (n refl)) (λ q n m. h q n)

module _ (K : Kernel) {S L : Type 0} (first : S) (log : Log S L) (works : ℕ → Option (Work S L))
    (k : K.State) (sh : S) (p : ℕ) (ex : Excludes K first log k sh works) where
  -- Only one process has the semaphore.
  pub owner-Owned : (w : Work S L) → works p ≡ some w → Owned K first log k sh works p
  owner-Owned w e = elim ex.owner [
    | inl (one, nobody, serial) ↦ absurd (none-some (sym (nobody p) ∙ e))
    | inr (o, held) ↦ elim (ℕ_discrete p o) [
      | yes same ↦ subst (Owned K first log k sh works) (sym same) held
      | no other ↦ absurd (none-some (sym (held.1 p other) ∙ e))
    ]
  ]

  -- The semaphore is free when a `semop` that takes it comes back.
  pub wait-Excludes :
      (l : L) (k' : K.State)
      → works p ≡ none
      → K.wait p k ≡ some k'
      → Excludes K first log k' sh
          (put p (some (record { before = l; written = []; now = l })) works)
  wait-Excludes l k' none_ granted = elim ex.owner [
    | inl (one, nobody, serial) ↦
        let (k'', taken_, zero_, mine, rest) = K.takes p 0 k one in
        let begun : Option (Work S L) = some (record { before = l; written = []; now = l }) in
        subst (λ v. Excludes K first log v sh (put p begun works))
          (some_injective (sym taken_ ∙ granted))
          (record {
            undo_of =
                put_rule (λ q o. K.undo q k'' ≡ taken o) p begun works
                  (mine ∙ ap suc (ex.undo_of p ∙ ap taken none_)) (λ q n. rest q n ∙ ex.undo_of q);
            owner = inr (
              p,
              (
                zero_,
                others_put p begun works (λ q n. nobody q),
                subst (λ o. Written K first log o sh) (sym (put_at p begun works))
                    (sh, serial, refl),
              ),
            );
          })
    | inr (o, held) ↦ absurd (none-some (sym (K.waits p k held.0) ∙ granted))
  ]

  pub write-Excludes :
      (w : Work S L) (a : Act S L) (sh' : S) (l : L)
      → works p ≡ some w
      → a (sh, w.now) ≡ (sh', l)
      → Excludes K first log k sh'
          (put p (some (record w { written = w.written ++ a ∷ []; now = l })) works)
  write-Excludes w a sh' l e does =
      let (zero_, others, started) = owner-Owned w e in
      let (s, serial, so_far) = subst (λ o. Written K first log o sh) e started in
      let step = run-++ w.written (a ∷ []) (s, w.before) ∙ ap (run (a ∷ [])) so_far ∙ does in
      record {
        undo_of =
            put_rule (λ q o. K.undo q k ≡ taken o) p _ works (ex.undo_of p ∙ ap taken e)
              (λ q n. ex.undo_of q);
        owner = inr (
          p,
          (
            zero_,
            others_put p _ works others,
            subst (λ o. Written K first log o sh') (sym (put_at p _ works)) (s, serial, step),
          ),
        );
      }

  -- What was written counts as a section.
  released :
      (w : Work S L) (k' : K.State)
      → works p ≡ some w
      → K.value k' ≡ 1
      → K.undo p k' ≡ 0
      → ((q : ℕ) → q ≢ p → K.undo q k' ≡ K.undo q k)
      → Excludes K first ((p, w) ∷ log) k' sh (put p none works)
  released w k' e one none_ rest =
      let (zero_, others, started) = owner-Owned w e in
      let (s, serial, so_far) = subst (λ o. Written K first log o sh) e started in
      record {
        undo_of =
            put_rule (λ q o. K.undo q k' ≡ taken o) p none works none_
              (λ q n. rest q n ∙ ex.undo_of q);
        owner =
            inl
              (one, put_rule (λ q o. o ≡ none) p none works refl others, section p w serial so_far);
      }

  pub signal-Excludes :
      (w : Work S L)
      → works p ≡ some w
      → Excludes K first ((p, w) ∷ log) (K.signal p k) sh (put p none works)
  signal-Excludes w e =
      released w (K.signal p k) e (K.signal_value p k ∙ ap suc (owner-Owned w e).0)
        (K.signal_undo p 0 k (ex.undo_of p ∙ ap taken e)) (λ q. K.signal_others p q k)

  idle_exit : works p ≡ none → Excludes K first log (K.exit p k) sh works
  idle_exit e =
      let unchanged : K.value (K.exit p k) ≡ K.value k =
        K.exit_value p k ∙ omega (arith, ex.undo_of p ∙ ap taken e) in
      record {
        undo_of = λ q. elim (ℕ_discrete q p) [
          | yes same ↦
              subst (λ r. K.undo r (K.exit p k) ≡ taken (works r)) (sym same)
                (K.exit_undo p k ∙ sym (ap taken e))
          | no other ↦ K.exit_others p q k other ∙ ex.undo_of q
        ];
        owner = elim ex.owner [
          | inl (one, nobody, serial) ↦ inl (unchanged ∙ one, nobody, serial)
          | inr (o, (zero_, others, written)) ↦ inr (o, (unchanged ∙ zero_, others, written))
        ];
      }

  pub exit-Excludes : Excludes K first (cut_off p (works p) log) (K.exit p k) sh (put p none works)
  exit-Excludes = elim (Option-cases (works p)) [
    | inl e ↦
        subst (λ o. Excludes K first (cut_off p o log) (K.exit p k) sh (put p none works)) (sym e)
          (subst (Excludes K first log (K.exit p k) sh) (sym (put_known p none works e))
            (idle_exit e))
    | inr (w, e) ↦
        let (zero_, others, started) = owner-Owned w e in
        let one : K.value (K.exit p k) ≡ 1 =
          K.exit_value p k ∙ omega (arith, zero_, ex.undo_of p ∙ ap taken e) in
        subst (λ o. Excludes K first (cut_off p o log) (K.exit p k) sh (put p none works)) (sym e)
          (released w (K.exit p k) e one (K.exit_undo p k) (λ q. K.exit_others p q k))
  ]
