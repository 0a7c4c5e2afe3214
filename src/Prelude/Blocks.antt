-- ===== src/Prelude/Blocks.antt =====
-- Rounding to multiples of the block size, as `(n // block) * block` and
-- `((n + block - 1) // block) * block`.
use Prim.Native.Nat.{ℕ, min, ◌+◌, ◌-◌, ◌*◌, ◌/◌, ◌%◌, ◌≤◌, ◌<◌}
use mathlib.Core.Path.{◌≡◌, ◌∙◌}
use native.Mathlib.Nat.{add-mod, zero-mod, mod-eq-zero_of_dvd, dvd_of_mod-eq-zero, dvd-sub}
use native.Mathlib.Omega.{arith}

unfoldable pub round_down : ℕ → ℕ → ℕ
round_down n block = (n / block) * block

unfoldable pub round_up : ℕ → ℕ → ℕ
round_up n block = ((n + block - 1) / block) * block

abbrev pub IsAligned : ℕ → ℕ → Type 0
IsAligned block n = n % block ≡ 0

module _ (n block : ℕ) where
  pub round_down-le : round_down n block ≤ n
  unfolding round_down
  round_down-le = grind arith

  pub lt-round_down : 0 < block → n < round_down n block + block
  unfolding round_down
  lt-round_down h = grind arith

  pub round_down-IsAligned : 0 < block → IsAligned block (round_down n block)
  unfolding round_down
  round_down-IsAligned h = grind arith

  pub le-round_up : 0 < block → n ≤ round_up n block
  unfolding round_up
  le-round_up h = grind arith

  pub round_up-lt : 0 < block → round_up n block < n + block
  unfolding round_up
  round_up-lt h = grind arith

  pub round_up-IsAligned : 0 < block → IsAligned block (round_up n block)
  unfolding round_up
  round_up-IsAligned h = grind arith

  pub round_up_of_IsAligned : 0 < block → IsAligned block n → round_up n block ≡ n
  unfolding round_up
  round_up_of_IsAligned h a = grind arith

  pub round_down_of_IsAligned : 0 < block → IsAligned block n → round_down n block ≡ n
  unfolding round_down
  round_down_of_IsAligned h a = grind arith

-- A non-negative float of the source, as a fraction.
pub record Ratio : Type 0 where
  pub num : ℕ
  pub den : ℕ

pub le-round_down : (m n block : ℕ) → 0 < block → IsAligned block m → m ≤ n → m ≤ round_down n block
unfolding round_down
le-round_down m n block h a l = grind arith

module _ (block a b : ℕ) (at_a : IsAligned block a) (at_b : IsAligned block b) where
  pub add-IsAligned : IsAligned block (a + b)
  add-IsAligned = add-mod a b block ∙ rw (at_a, at_b) (zero-mod block)

  pub sub-IsAligned : IsAligned block (a - b)
  sub-IsAligned =
      mod-eq-zero_of_dvd block
        (dvd-sub block (dvd_of_mod-eq-zero block at_a) (dvd_of_mod-eq-zero block at_b))

  pub min-IsAligned : IsAligned block (min a b)
  min-IsAligned = grind arith
