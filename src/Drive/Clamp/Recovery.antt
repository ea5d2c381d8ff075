-- ===== src/Drive/Clamp/Recovery.antt =====
-- The hard stop past the margin.
use puddle.Base.{ℕ, ◌+◌, ◌-◌, ◌*◌, ◌/◌, ◌^◌, ◌≤◌, ◌<◌, ◌≡◌, ap, min, max, arith}
use puddle.Base.Int.{pos, ◌≤ℤ◌, unsigned}
use mathlib.Core.Path.{ap₂}
use native.Mathlib.Nat.{mul-div_right}
use puddle.Drive.Words.{sub64, mul64}
use puddle.Drive.Clamp.{recovery}
use puddle.Drive.Clamp.Stops.{product_le}

-- The share of the range, in thousandths.
abbrev share : ℕ → ℕ → ℕ
share margin distance = min ((distance - margin) * 1000 / max margin 1) 1000

div_mono : (a b n : ℕ) → a ≤ b → a / n ≤ b / n
div_mono a b n h = grind arith

share_mono : (margin d e : ℕ) → d ≤ e → share margin d ≤ share margin e
share_mono margin d e h =
    omega (arith, div_mono ((d - margin) * 1000) ((e - margin) * 1000) (max margin 1) (omega arith))

module _ (margin lo hi : ℕ) (ordered : lo ≤ hi) (small : hi < 2 ^ 31) where
  scaled-le : (t : ℕ) → t ≤ 1000 → (hi - lo) * t / 1000 ≤ hi - lo
  scaled-le t h = omega (arith, product_le (hi - lo) t (hi - lo) 1000 (omega arith) h)

  recovery_lem :
      (d : ℕ)
      → d < 2 ^ 33
      → recovery d margin (pos lo) (pos hi) ≡ pos (lo + (hi - lo) * share margin d / 1000)
  unfolding recovery
  recovery_lem d h =
      rw (span, excess, low, product)
        (ap pos (omega (arith, scaled-le (share margin d) (omega arith))))
    where
      low : unsigned 64 (pos lo) ≡ lo
      low = omega arith

      span : sub64 (unsigned 64 (pos hi)) (unsigned 64 (pos lo)) ≡ hi - lo
      span = omega arith

      excess : mul64 (d - margin) 1000 ≡ (d - margin) * 1000
      excess = omega arith

      product : mul64 (hi - lo) (share margin d) ≡ (hi - lo) * share margin d
      product =
          omega
            (arith, product_le (hi - lo) (share margin d) (2 ^ 31) 1000 (omega arith) (omega arith))

  -- Where the lower bound is at most the upper, which is an i32, and the distance is below 2^33, the
  -- hard stop stays between the two bounds.
  pub recovery_bounds :
      (d : ℕ)
      → d < 2 ^ 33
      → (pos lo ≤ℤ recovery d margin (pos lo) (pos hi))
        × (recovery d margin (pos lo) (pos hi) ≤ℤ pos hi)
  recovery_bounds d h =
      rw (recovery_lem d h) (omega (arith, scaled-le (share margin d) (omega arith)))

  -- For such bounds, the hard stop further past the target is no weaker.
  pub recovery_mono :
      (d e : ℕ)
      → d ≤ e
      → e < 2 ^ 33
      → recovery d margin (pos lo) (pos hi) ≤ℤ recovery e margin (pos lo) (pos hi)
  recovery_mono d e le h =
      rw (recovery_lem d (omega arith), recovery_lem e h)
        (omega (
          arith,
          div_mono ((hi - lo) * share margin d) ((hi - lo) * share margin e) 1000 (
              product_le (hi - lo) (share margin d) (hi - lo) (share margin e) (omega arith)
                (share_mono margin d e le)),
        ))

  -- For such bounds and a margin between 1 and 2^32, the hard stop is the lower bound at the margin
  -- and the upper at twice the margin.
  pub recovery_ends :
      0 < margin
      → margin < 2 ^ 32
      → (recovery margin margin (pos lo) (pos hi) ≡ pos lo)
        × (recovery (2 * margin) margin (pos lo) (pos hi) ≡ pos hi)
  recovery_ends k h = (
    rw (recovery_lem margin (omega arith)) (rw none_past (ap pos (omega arith))),
    rw (recovery_lem (2 * margin) (omega arith)) (rw all_past (ap pos (omega arith))),
  )
    where
      none_past : share margin margin ≡ 0
      none_past = grind arith

      whole : (2 * margin - margin) * 1000 / max margin 1 ≡ margin * 1000 / margin
      whole = ap₂ (λ (x y : ℕ). x / y) (omega arith) (omega arith)

      all_past : share margin (2 * margin) ≡ 1000
      all_past = rw whole (rw (mul-div_right 1000 k))
