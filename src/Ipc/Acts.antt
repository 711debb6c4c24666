-- ===== src/Ipc/Acts.antt =====
-- The steps of a program that end it with -1 where one fails.
use so_lab_project.Prelude.{Option, none, some, ℤ, pos, negsuc}
use so_lab_project.Ipc.{minus_one}

-- `if (... fails) return -1;` and the rest.
infixl 5 ◌>>=◌
abbrev pub follow {ℓ} : {S : Type ℓ} → Option (ℤ × S) → (S → Option (ℤ × S)) → Option (ℤ × S)
follow none k = none
follow (some (pos c, m)) k = k m
follow (some (negsuc c, m)) k = some (minus_one, m)

abbrev pub ◌>>=◌ {ℓ} :
    {S : Type ℓ} → (S → Option (ℤ × S)) → (S → Option (ℤ × S)) → S → Option (ℤ × S)
◌>>=◌ a k m = follow (a m) k

-- How a chain of steps can end: `Q` behind a success, `F` behind a failure.
abbrev pub EndsIn {ℓ} : {S : Type ℓ} → (S → Type 0) → (S → Type 0) → Option (ℤ × S) → Type 0
EndsIn F Q none = Unit {0}
EndsIn F Q (some (pos c, m)) = Q m
EndsIn F Q (some (negsuc c, m)) = F m

pub follow-EndsIn {ℓ} :
    {S : Type ℓ} (F P Q : S → Type 0) (r : Option (ℤ × S)) (k : S → Option (ℤ × S))
    → EndsIn F P r
    → ((m : S) → P m → EndsIn F Q (k m))
    → EndsIn F Q (follow r k)
follow-EndsIn F P Q none k h f = tt
follow-EndsIn F P Q (some (pos c, m)) k h f = f m h
follow-EndsIn F P Q (some (negsuc c, m)) k h f = h

-- The steps of an end, which go on whatever fails; `none` while one waits.
infixr 5 ◌>=>◌
abbrev pub next {ℓ} : {S : Type ℓ} → Option S → (S → Option S) → Option S
next none k = none
next (some m) k = k m

abbrev pub ◌>=>◌ {ℓ} : {S : Type ℓ} → (S → Option S) → (S → Option S) → S → Option S
◌>=>◌ a k m = next (a m) k

-- The exit code with the state at the end.
abbrev pub exits {ℓ} : {S : Type ℓ} → ℤ → Option S → Option (ℤ × S)
exits e none = none
exits e (some m) = some (e, m)
