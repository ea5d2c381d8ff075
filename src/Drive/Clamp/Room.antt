-- ===== src/Drive/Clamp/Room.antt =====
-- `clamp_deceleration` as a whole: the drive stops in the room that it has left, and the request is
-- lowered only past the margin.
use puddle.Base.{
  ℕ, ◌+◌, ◌-◌, ◌*◌, ◌^◌, ◌≤◌, ◌<◌, ◌≡◌, ◌≢◌, ◌⊎◌, ◌&&◌, ◌||◌, Bool, true, false, Option, arith, leb,
  if◌then◌else◌, Bool-cases, inl, inr, ◌==◌,
}
use puddle.Base.Int.{ℤ, pos, pos_part, neg_part, ◌-ℤ◌, ◌≤ℤ◌, ◌==ℤ◌, IsI32, unsigned_abs}
use puddle.Linmot.Units.{Position, Velocity, Acceleration}
use puddle.Drive.Words.{i32_max}
use puddle.Drive.Clamp.{past_target, raise_deceleration, approach_budget, clamp_deceleration}
use puddle.Drive.Clamp.Stops.{IsRaisable, raise_stops, raise-le, square_lem, product_le}

abbrev pub distance : Position → Position → ℕ
distance position target = unsigned_abs (target -ℤ position)

abbrev pub is_past : Option ℤ → Position → Velocity → Position → Bool
is_past direction position v target = past_target direction (target -ℤ position) v

-- How far the drive may still go: up to the margin behind the target.
abbrev pub room : Option ℤ → Position → Velocity → Position → Position → ℕ
room direction position v target margin =
    if is_past direction position v target
    then unsigned_abs margin - distance position target
    else distance position target + unsigned_abs margin

-- What the callers pass: i32 values, a request that is not negative, a range that fits 32 bits.
pub record IsInput (position : Position) (v : Velocity) (target : Position)
    (requested : Acceleration) (margin : Position) : Type 0 where
  pub velocity : IsI32 v
  pub requested_pos : neg_part requested ≡ 0
  pub requested_lt : pos_part requested < 2 ^ 31
  pub range : distance position target + unsigned_abs margin < 2 ^ 32

raise_still :
    (v : Velocity) (requested : Acceleration) (budget : ℕ)
    → ((v ==ℤ pos 0) || (budget == 0)) ≡ true
    → raise_deceleration v requested budget ≡ requested
unfolding raise_deceleration
raise_still v requested budget h = rw h

module _ (position : Position) (v : Velocity) (target : Position) (requested : Acceleration)
    (direction : Option ℤ) (margin : Position) (hard_min hard_max : Acceleration)
    (h : IsInput position v target requested margin) where
  raisable : v ≢ pos 0 → (budget : ℕ) → 0 < budget → budget < 2 ^ 32 → IsRaisable v requested budget
  raisable moving budget lo hi = record {
    velocity = h.velocity;
    moving = moving;
    requested_pos = h.requested_pos;
    requested_lt = h.requested_lt;
    budget_pos = lo;
    budget_lt = hi;
  }

  budget_cases :
      (approach_budget v requested (distance position target) (unsigned_abs margin)
        ≡ distance position target + unsigned_abs margin)
      ⊎ (approach_budget v requested (distance position target) (unsigned_abs margin)
          ≡ distance position target)
  unfolding approach_budget
  budget_cases = ground (arith, h.range)

  -- A budget within the room will do.
  stops_within :
      v ≢ pos 0
      → (budget free : ℕ) → 0 < budget
      → budget ≤ free
      → free < 2 ^ 32
      → (unsigned_abs v * unsigned_abs v
          ≤ 2 * pos_part (raise_deceleration v requested budget) * free)
        ⊎ (raise_deceleration v requested budget ≡ pos i32_max)
  stops_within moving budget free lo le hi = grind (
    arith,
    square_lem v h.velocity,
    raise_stops v requested budget (raisable moving budget lo (omega arith)),
    product_le (2 * pos_part (raise_deceleration v requested budget)) budget
        (2 * pos_part (raise_deceleration v requested budget)) free,
  )

  -- For an i32 velocity, a request that is an i32 and not negative and a range below 2^32: where the
  -- drive moves, is not at the target and has room left, the deceleration sent stops it within that
  -- room (v² ≤ 2·d·room), unless it is the largest that an i32 holds.
  pub clamp_stops :
      v ≢ pos 0
      → 0 < distance position target
      → 0 < room direction position v target margin
      → (unsigned_abs v * unsigned_abs v
          ≤ 2
            * pos_part
                (clamp_deceleration position v target requested direction margin hard_min hard_max)
            * room direction position v target margin)
        ⊎ (clamp_deceleration position v target requested direction margin hard_min hard_max
            ≡ pos i32_max)
  unfolding clamp_deceleration
  clamp_stops moving away free = elim (Bool-cases (is_past direction position v target)) [
    | inl past ↦ rw past (
        rw (inside past) (
          stops_within moving (unsigned_abs margin - distance position target) _ (rw past at free)
            (omega arith) (omega (arith, h.range))))
    | inr near ↦ rw near (elim budget_cases [
      | inl wide ↦ rw wide (
          stops_within moving (distance position target + unsigned_abs margin) _ (omega arith)
            (omega arith) h.range)
      | inr narrow ↦
          rw narrow (stops_within moving (distance position target) _ away (omega arith) h.range)
    ])
  ]
    where
      inside :
          is_past direction position v target ≡ true
          → leb (unsigned_abs margin) (distance position target) ≡ false
      inside past = ground (arith, rw past at free)

  never_lower : (budget : ℕ) → budget < 2 ^ 32 → requested ≤ℤ raise_deceleration v requested budget
  never_lower budget hi = elim (Bool-cases ((v ==ℤ pos 0) || (budget == 0))) [
    | inl still ↦ rw (raise_still v requested budget still) (omega arith)
    | inr busy ↦
        raise-le v requested budget (raisable (λ e. cc (rw e at busy)) budget (ground arith) hi)
  ]

  -- For the same inputs, unless the drive is past the target by the margin or more, the request is
  -- never lowered.
  pub clamp-le :
      (is_past direction position v target && leb (unsigned_abs margin) (distance position target))
        ≡ false
      → requested
        ≤ℤ clamp_deceleration position v target requested direction margin hard_min hard_max
  unfolding clamp_deceleration
  clamp-le inside = elim (Bool-cases (is_past direction position v target)) [
    | inl past ↦ rw past (rw (rw past at inside) (never_lower _ (omega (arith, h.range))))
    | inr near ↦ rw near (elim budget_cases [
      | inl wide ↦ rw wide (never_lower _ h.range)
      | inr narrow ↦ rw narrow (never_lower _ (omega (arith, h.range)))
    ])
  ]
