-- ===== src/Setup/Arguments.antt =====
-- What a successful `process_argv` guarantees.
use so_lab_project.Prelude.{
  ℕ, ◌*◌, ◌≤◌, ◌<◌, ◌≡◌, refl, sym, ◌∙◌, ◌≢◌, ◌⊎◌, inl, inr, Bool, true, false, Option, none, some,
  List, [], ◌∷◌, pos, arith, ◌↔◌,
}
use so_lab_project.Setup.{
  Settings, Flag, n, r, c, l, g, w, m, h, unknown, Strtol, parse_positive_int, int_max, Parsed,
  settings, exit_success, exit_failure, with_number, process_option, check_settings, process_argv,
  defaults,
}

-- A number is accepted exactly when `strtol` read all of it without error and it lies between 1 and
-- both limits; the result is that number.
pub parse_positive_int-some :
    (arg : Strtol) (max_value v : ℕ)
    → (parse_positive_int arg max_value ≡ some v) ↔ (
        (arg.errno_set ≡ false)
        × (arg.ended ≡ true)
        × (arg.value ≡ pos v)
        × (0 < v)
        × (v ≤ max_value)
        × (v ≤ int_max))
unfolding parse_positive_int
parse_positive_int-some arg max_value v = (λ e. ground arith, λ e. ground arith)

-- The ranges that the options allow.
pub record InRange (s : Settings) : Type 0 where
  pub drones : (0 < s.cfg.starting_drones_count) × (s.cfg.starting_drones_count ≤ 1000000)
  pub resupply : (0 < s.cfg.resupply_interval) × (s.cfg.resupply_interval ≤ 8000000)
  pub charge : (0 < s.cfg.maximum_charge_time) × (s.cfg.maximum_charge_time ≤ 8000000)
  pub cycles : (0 < s.cfg.max_loading_cycles) × (s.cfg.max_loading_cycles ≤ 30)
  pub gate : (0 < s.cfg.gate_time_to_pass) × (s.cfg.gate_time_to_pass ≤ 2000000)
  pub work : (0 < s.cfg.dron_work_interval) × (s.cfg.dron_work_interval ≤ 8000000)
  pub memory : (0 < s.maximum_drones_in_memory) × (s.maximum_drones_in_memory ≤ 2500000)

with_number-settings :
    (o : Option ℕ) (f : ℕ → Settings) (s' : Settings)
    → with_number o f ≡ settings s'
    → (v : ℕ) × (o ≡ some v) × (s' ≡ f v)
unfolding with_number
with_number-settings none f s' e = cc
with_number-settings (some v) f s' e = (v, refl, cc)

-- The number behind an option that was accepted, and its bounds.
accepted :
    (arg : Strtol) (max_value : ℕ) (f : ℕ → Settings) (s' : Settings)
    → with_number (parse_positive_int arg max_value) f ≡ settings s'
    → (v : ℕ) × (s' ≡ f v) × (0 < v) × (v ≤ max_value)
accepted arg max_value f s' e =
    let (v, parsed, same) = with_number-settings (parse_positive_int arg max_value) f s' e in
    let b = (parse_positive_int-some arg max_value v).0 parsed in (v, same, b.3, b.4)

process_option-InRange :
    (s s' : Settings) (flag : Flag) (arg : Strtol)
    → InRange s
    → process_option s flag arg ≡ settings s'
    → InRange s'
unfolding process_option
process_option-InRange s s' n arg v e =
    let (k, same, lo, hi) = accepted arg 1000000 _ s' e in rw same (omega arith)
process_option-InRange s s' r arg v e =
    let (k, same, lo, hi) = accepted arg 8000000 _ s' e in rw same (omega arith)
process_option-InRange s s' c arg v e =
    let (k, same, lo, hi) = accepted arg 8000000 _ s' e in rw same (omega arith)
process_option-InRange s s' l arg v e =
    let (k, same, lo, hi) = accepted arg 30 _ s' e in rw same (omega arith)
process_option-InRange s s' g arg v e =
    let (k, same, lo, hi) = accepted arg 2000000 _ s' e in rw same (omega arith)
process_option-InRange s s' w arg v e =
    let (k, same, lo, hi) = accepted arg 8000000 _ s' e in rw same (omega arith)
process_option-InRange s s' m arg v e =
    let (k, same, lo, hi) = accepted arg 2500000 _ s' e in rw same (omega arith)
process_option-InRange s s' h arg v e = cc
process_option-InRange s s' unknown arg v e = cc

check_settings-settings :
    (extra : Bool) (s s' : Settings)
    → check_settings extra s ≡ settings s'
    → (s' ≡ s) × (extra ≡ false) × (2 * s.cfg.starting_drones_count ≤ s.maximum_drones_in_memory)
unfolding check_settings
check_settings-settings extra s s' e = ground arith

Parsed-cases :
    (p : Parsed) → ((t : Settings) × (p ≡ settings t)) ⊎ ((p ≡ exit_success) ⊎ (p ≡ exit_failure))
Parsed-cases (settings t) = inl (t, refl)
Parsed-cases exit_success = inr (inl refl)
Parsed-cases exit_failure = inr (inr refl)

module _ (s s' : Settings) (flag : Flag) (arg : Strtol) (rest : List (Flag × Strtol))
    (extra : Bool) where
  process_argv-next :
      process_option s flag arg ≡ settings s'
      → process_argv s ((flag, arg) ∷ rest) extra ≡ process_argv s' rest extra
  unfolding process_argv
  process_argv-next e = rw (e, process_argv)

  process_argv-stop :
      (process_option s flag arg ≡ exit_success) ⊎ (process_option s flag arg ≡ exit_failure)
      → process_argv s ((flag, arg) ∷ rest) extra ≢ settings s'
  unfolding process_argv
  process_argv-stop (inl e) q = cc
  process_argv-stop (inr e) q = cc

-- Settings that `process_argv` accepts, whatever the options, lie in the ranges and have memory for
-- twice the starting drones, when the settings it starts from lie in the ranges.
pub process_argv-InRange :
    (s s' : Settings) (args : List (Flag × Strtol)) (extra : Bool)
    → InRange s
    → process_argv s args extra ≡ settings s'
    → InRange s'
      × (2 * s'.cfg.starting_drones_count ≤ s'.maximum_drones_in_memory)
      × (extra ≡ false)
unfolding process_argv
process_argv-InRange s s' [] extra v e =
    let (same, none_left, enough) = check_settings-settings extra s s' e in
    rw same (v, enough, none_left)
process_argv-InRange s s' ((flag, arg) ∷ rest) extra v e =
    elim (Parsed-cases (process_option s flag arg)) [
      | inl (t, next) ↦
          process_argv-InRange t s' rest extra (process_option-InRange s t flag arg v next)
            (sym (process_argv-next s t flag arg rest extra next) ∙ e)
      | inr stop ↦ absurd (process_argv-stop s s' flag arg rest extra stop e)
    ]

pub defaults-InRange : InRange defaults
defaults-InRange = omega arith
