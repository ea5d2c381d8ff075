-- ===== src/Drive/Clamp/Stops.antt =====
-- That the clamped deceleration stops the drive in the room that it has.
use puddle.Base.{
  ℕ, ◌+◌, ◌-◌, ◌*◌, ◌/◌, ◌^◌, ◌≤◌, ◌<◌, ◌≡◌, ◌≢◌, ap, ◌⊎◌, ◌&&◌, ◌||◌, false, min, arith, ltb, leb,
  ◌==◌, if◌then◌else◌,
}
use puddle.Base.Int.{
  pos, pos_part, neg_part, ◌≤ℤ◌, ◌==ℤ◌, ==ℤ_iff, IsI32, unsigned_abs, unsigned, square_abs,
}
use puddle.Linmot.Units.{Velocity, Acceleration}
use puddle.Drive.Words.{add64, sub64, mul64, i32_max}
use puddle.Drive.Clamp.{square, suffices, raise_deceleration}
use native.Mathlib.Nat.{div-add-mod, mod-lt, lt_of_not-le}

pub product_le : (a b m n : ℕ) → a ≤ m → b ≤ n → a * b ≤ m * n
product_le a b m n h k = grind arith

pub square_lem : (v : Velocity) → IsI32 v → square v ≡ unsigned_abs v * unsigned_abs v
unfolding square
square_lem v h =
    rw square_abs
      (omega (arith, product_le (unsigned_abs v) (unsigned_abs v) (2 ^ 31) (2 ^ 31) abs_le abs_le))
  where
    abs_le : unsigned_abs v ≤ 2 ^ 31
    abs_le = ground arith

pub square-le : (v : Velocity) → IsI32 v → square v ≤ 2 ^ 62
square-le v h =
    rw (square_lem v h)
      (product_le (unsigned_abs v) (unsigned_abs v) (2 ^ 31) (2 ^ 31) abs_le abs_le)
  where
    abs_le : unsigned_abs v ≤ 2 ^ 31
    abs_le = ground arith

ceil_div : (s b : ℕ) → 0 < b → s ≤ (s + b - 1) / b * b
ceil_div s b h = omega (arith, div-add-mod (s + b - 1) b, mod-lt (s + b - 1) h)

-- Rounding up gives more than `d` if `d` does not suffice.
ceil_more : (s b d : ℕ) → 0 < b → d * b < s → d < (s + b - 1) / b
ceil_more s b d h k = lt_of_not-le λ le.
    absurd (omega (arith, ceil_div s b h, product_le ((s + b - 1) / b) b d b le (omega arith)))

-- Below these bounds the u64 products do not wrap.
mul64_small : (a b : ℕ) → a * b < 2 ^ 64 → mul64 a b ≡ a * b
mul64_small a b h = omega arith

pub mul64_lem : (d b : ℕ) → d < 2 ^ 31 → b < 2 ^ 32 → mul64 (mul64 2 d) b ≡ 2 * d * b
mul64_lem d b h k = rw (mul64_small 2 d (omega arith)) (
    mul64_small (2 * d) b
      (omega (arith, product_le (2 * d) b (2 ^ 32 - 2) (2 ^ 32 - 1) (omega arith) (omega arith))))

rounded_lem :
    (s b : ℕ)
    → s ≤ 2 ^ 62
    → 0 < b
    → b < 2 ^ 32
    → sub64 (add64 s (mul64 2 b)) 1 / mul64 2 b ≡ (s + 2 * b - 1) / (2 * b)
rounded_lem s b h k l =
    rw (mul64_small 2 b (omega arith)) (ap (λ (t : ℕ). t / (2 * b)) (omega arith))

-- What the caller of `raise_deceleration` has: an i32 velocity that is not 0, a request that is not
-- negative and a budget of at most 32 bits.
pub record IsRaisable (v : Velocity) (requested : Acceleration) (budget : ℕ) : Type 0 where
  pub velocity : IsI32 v
  pub moving : v ≢ pos 0
  pub requested_pos : neg_part requested ≡ 0
  pub requested_lt : pos_part requested < 2 ^ 31
  pub budget_pos : 0 < budget
  pub budget_lt : budget < 2 ^ 32

module _ (v : Velocity) (requested : Acceleration) (budget : ℕ)
    (h : IsRaisable v requested budget) where
  not_still : ((v ==ℤ pos 0) || (budget == 0)) ≡ false
  not_still = ground (arith, h.moving, h.budget_pos, ==ℤ_iff v (pos 0))

  d_req : unsigned 64 requested ≡ pos_part requested
  d_req = ground (arith, h.requested_pos, h.requested_lt)

  suffices_lem :
      suffices (square v) (unsigned 64 requested) budget
      ≡ (ltb 0 (pos_part requested) && leb (square v) (2 * pos_part requested * budget))
  suffices_lem = rw d_req (rw (mul64_lem (pos_part requested) budget h.requested_lt h.budget_lt))

  raise_cases : raise_deceleration v requested budget ≡ (
      if ltb 0 (pos_part requested) && leb (square v) (2 * pos_part requested * budget)
      then requested
      else pos (min ((square v + 2 * budget - 1) / (2 * budget)) i32_max))
  unfolding raise_deceleration
  raise_cases =
      rw (not_still, suffices_lem)
        (rw (rounded_lem (square v) budget (square-le v h.velocity) h.budget_pos h.budget_lt))

  -- v² ≤ 2·d·budget, or the deceleration is the largest there is.
  pub raise_stops :
      (square v ≤ 2 * pos_part (raise_deceleration v requested budget) * budget)
      ⊎ (raise_deceleration v requested budget ≡ pos i32_max)
  raise_stops = rw raise_cases (ground (arith, ceil_div (square v) (2 * budget)))

  -- The request is never lowered.
  pub raise-le : requested ≤ℤ raise_deceleration v requested budget
  raise-le = rw raise_cases (
      ground (
        arith,
        h.requested_pos,
        h.requested_lt,
        ceil_more (square v) (2 * budget) (pos_part requested),
      ))
