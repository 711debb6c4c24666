-- ===== src/Operator/Limits.antt =====
-- How far the limit of drones in the base can move.
use Prim.Native.Nat.{min}
use native.Mathlib.Nat.{pow-suc}
use so_lab_project.Prelude.{
  ℕ, zero, suc, ◌-◌, ◌*◌, ◌/◌, ◌^◌, ◌≤◌, ◌<◌, ◌≡◌, ap, ◌∙◌, pos, arith, half_ℤ, ◌*ℤ◌, ◌-ℤ◌,
}
use so_lab_project.Shm.{AllDronesData}
use so_lab_project.Operator.{raised, lower_limit}

-- With `n` starting drones, at least one, and a limit that is not negative, a SIGUSR1 sets the limit
-- to its double or to 2n - 1, whichever is less.
pub raised-min : (n m : ℕ) → 1 ≤ n → raised n (pos m) ≡ pos (min (2 * m) (2 * n - 1))
unfolding raised ◌*ℤ◌ ◌-ℤ◌
raised-min n m h = ground arith

-- The limit after `k` signals SIGUSR2.
unfoldable pub lowered : ℕ → AllDronesData → AllDronesData
lowered zero d = d
lowered (suc k) d = lowered k (lower_limit d)

-- A limit below 2 ^ k, and not negative, is 0 after `k` signals SIGUSR2.
pub lowered-zero :
    (k m : ℕ) (d : AllDronesData)
    → d.maximum_dron_in_base_count ≡ pos m
    → m < 2 ^ k
    → (lowered k d).maximum_dron_in_base_count ≡ pos 0
unfolding lowered lower_limit half_ℤ
lowered-zero zero m d e h = e ∙ ap pos (omega (arith, h))
lowered-zero (suc k) m d e h =
    lowered-zero k (m / 2) (lower_limit d) (ap half_ℤ e) (omega (arith, pow-suc 2 k))
