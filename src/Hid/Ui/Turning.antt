-- ===== src/Hid/Ui/Turning.antt =====
-- src/hid/ui_manager.rs: what the encoders and the buttons leave of the two motion commands.
use puddle.Base.{
  ℕ, zero, suc, ◌*◌, ◌^◌, ◌≡◌, refl, Bool, true, false, ◌≤◌, ◌<◌, List, [], ◌∷◌, inl, inr, arith,
  Bool-cases,
}
use puddle.Base.Int.{
  ℤ, pos, ◌==ℤ◌, ◌≤ℤ◌, ◌+ℤ◌, ◌*ℤ◌, ltb_ℤ, pos_part, neg_part, unsigned_abs, clamp, wrap, negsuc,
  IsI32, signed_unsigned32, +ℤ_parts,
}
use native.Mathlib.Nat.{mul-le-mul}
use puddle.Messages.{SystemLimits}
use puddle.Hid.Ui.{
  Commands, moved, turn_amount, fine_amount, turn_start, turn_end, turn_speed, turn_acceleration,
  turn, turn_if, turn_all,
}

-- Both positions are in range and in order, and the rest is the same in both.
pub record IsTuned (limits : SystemLimits) (c : Commands) : Type 0 where
  pub start : pos 0 ≤ℤ c.0.position
  pub order : c.0.position ≤ℤ c.1.position
  pub end : c.1.position ≤ℤ limits.position
  pub velocity : c.1.velocity ≡ c.0.velocity
  pub acceleration : c.1.acceleration ≡ c.0.acceleration
  pub deceleration : c.1.deceleration ≡ c.0.deceleration

module _ (limit amount : ℤ) (h : pos 0 ≤ℤ limit) where
  moved-ge : (v : ℤ) → pos 0 ≤ℤ moved limit amount v
  unfolding moved
  moved-ge v = ground arith

  moved-le : (v : ℤ) → moved limit amount v ≤ℤ limit
  unfolding moved
  moved-le v = ground arith

  moved-mono : (v w : ℤ) → v ≤ℤ w → moved limit amount v ≤ℤ moved limit amount w
  unfolding moved
  moved-mono v w le = ground (arith, +ℤ_parts v amount, +ℤ_parts w amount)

module _ (limits : SystemLimits) (h : pos 0 ≤ℤ limits.position) where
  turn_start-IsTuned :
      (holding : Bool) (delta : ℤ) (c : Commands)
      → IsTuned limits c
      → IsTuned limits (turn_start limits holding delta c).0
  unfolding turn_start
  turn_start-IsTuned true delta (a, b) t = record {
    start = moved-ge limits.position (turn_amount delta) h a.position;
    order = moved-mono limits.position (turn_amount delta) h a.position b.position t.order;
    end = moved-le limits.position (turn_amount delta) h b.position;
    velocity = t.velocity;
    acceleration = t.acceleration;
    deceleration = t.deceleration;
  }
  turn_start-IsTuned false delta (a, b) t =
      let p = moved limits.position (turn_amount delta) a.position in
      let start = moved-ge limits.position (turn_amount delta) h a.position in
      elim (Bool-cases (ltb_ℤ b.position p)) [
        | inl e ↦ rw e (record {
          start = start;
          order = omega arith;
          end = moved-le limits.position (turn_amount delta) h a.position;
          velocity = t.velocity;
          acceleration = t.acceleration;
          deceleration = t.deceleration;
        })
        | inr e ↦ rw e (record {
          start = start;
          order = ground arith;
          end = t.end;
          velocity = t.velocity;
          acceleration = t.acceleration;
          deceleration = t.deceleration;
        })
      ]

  turn_end-IsTuned :
      (holding : Bool) (delta : ℤ) (c : Commands)
      → IsTuned limits c
      → IsTuned limits (turn_end limits holding delta c).0
  unfolding turn_end
  turn_end-IsTuned true delta (a, b) t = record {
    start = moved-ge limits.position (turn_amount delta) h a.position;
    order = moved-mono limits.position (turn_amount delta) h a.position b.position t.order;
    end = moved-le limits.position (turn_amount delta) h b.position;
    velocity = t.velocity;
    acceleration = t.acceleration;
    deceleration = t.deceleration;
  }
  turn_end-IsTuned false delta (a, b) t =
      let p = moved limits.position (turn_amount delta) b.position in
      let end = moved-le limits.position (turn_amount delta) h b.position in
      elim (Bool-cases (ltb_ℤ p a.position)) [
        | inl e ↦ rw e (record {
          start = moved-ge limits.position (turn_amount delta) h b.position;
          order = omega arith;
          end = end;
          velocity = t.velocity;
          acceleration = t.acceleration;
          deceleration = t.deceleration;
        })
        | inr e ↦ rw e (record {
          start = t.start;
          order = ground arith;
          end = end;
          velocity = t.velocity;
          acceleration = t.acceleration;
          deceleration = t.deceleration;
        })
      ]

  turn-IsTuned :
      (holding : Bool) (i : ℕ) (delta : ℤ) (c : Commands)
      → IsTuned limits c
      → IsTuned limits (turn limits holding i delta c).0
  unfolding turn turn_speed turn_acceleration
  turn-IsTuned holding zero delta c t = turn_start-IsTuned holding delta c t
  turn-IsTuned holding (suc zero) delta c t = turn_end-IsTuned holding delta c t
  turn-IsTuned holding (suc (suc zero)) delta (a, b) t = record {
    start = t.start;
    order = t.order;
    end = t.end;
    velocity = refl;
    acceleration = t.acceleration;
    deceleration = t.deceleration;
  }
  turn-IsTuned holding (suc (suc (suc zero))) delta (a, b) t = record {
    start = t.start;
    order = t.order;
    end = t.end;
    velocity = t.velocity;
    acceleration = refl;
    deceleration = refl;
  }
  turn-IsTuned holding (suc (suc (suc (suc n)))) delta c t = t

  turn_if-IsTuned :
      (holding : Bool) (i : ℕ) (delta : ℤ) (c : Commands)
      → IsTuned limits c
      → IsTuned limits (turn_if limits holding i delta c).0
  unfolding turn_if
  turn_if-IsTuned holding i delta c t = elim (Bool-cases (delta ==ℤ pos 0)) [
    | inl e ↦ rw e t
    | inr e ↦ rw e (turn-IsTuned holding i delta c t)
  ]

  pub turn_all-IsTuned :
      (holding : Bool) (i : ℕ) (deltas : List ℤ) (c : Commands)
      → IsTuned limits c
      → IsTuned limits (turn_all limits holding i deltas c).0
  unfolding turn_all
  turn_all-IsTuned holding i [] c t = t
  turn_all-IsTuned holding i (delta ∷ deltas) c t =
      turn_all-IsTuned holding (suc i) deltas (turn_if limits holding i delta c).0
        (turn_if-IsTuned holding i delta c t)

-- An i8.
abbrev pub IsI8 : ℤ → Type 0
IsI8 a = (pos_part a < 2 ^ 7) × (neg_part a ≤ 2 ^ 7)

times_parts :
    (a : ℤ) (k : ℕ)
    → (pos_part (a *ℤ pos k) ≡ pos_part a * k) × (neg_part (a *ℤ pos k) ≡ neg_part a * k)
unfolding ◌*ℤ◌
times_parts (pos n) k = ground arith
times_parts (negsuc n) k = ground arith

module _ (a : ℤ) (k : ℕ) where
  abs-times : unsigned_abs (a *ℤ pos k) ≡ unsigned_abs a * k
  abs-times = omega (arith, times_parts a k)

  wrap-times :
      (m : ℕ) → unsigned_abs (a *ℤ pos k) ≤ m → m < 2 ^ 31 → wrap 32 (a *ℤ pos k) ≡ a *ℤ pos k
  wrap-times m h lt = signed_unsigned32 (a *ℤ pos k) (omega (arith, times_parts a k))

-- What a turn adds: the square of the delta with its sign, or the cube, in units of the wire.
abbrev pub square_turn : ℤ → ℤ
square_turn delta = delta *ℤ pos (unsigned_abs delta) *ℤ pos 10000

abbrev pub cube_turn : ℤ → ℤ
cube_turn delta = delta *ℤ pos (unsigned_abs delta) *ℤ pos (unsigned_abs delta) *ℤ pos 1000

abs-le : (d : ℤ) → IsI8 d → unsigned_abs d ≤ 128
abs-le (pos n) h = omega arith
abs-le (negsuc n) h = omega arith

module _ (d : ℤ) (h : IsI8 d) where
  square-le : unsigned_abs (d *ℤ pos (unsigned_abs d)) ≤ 128 * 128
  square-le = rw (abs-times d (unsigned_abs d)) (mul-le-mul (abs-le d h) (abs-le d h))

  cube-le : unsigned_abs (d *ℤ pos (unsigned_abs d) *ℤ pos (unsigned_abs d)) ≤ 128 * 128 * 128
  cube-le =
      rw (abs-times (d *ℤ pos (unsigned_abs d)) (unsigned_abs d))
        (mul-le-mul square-le (abs-le d h))

  turn_amount-exact : turn_amount d ≡ square_turn d
  unfolding turn_amount
  turn_amount-exact =
      let square = d *ℤ pos (unsigned_abs d) in
      rw (
        wrap-times d (unsigned_abs d) (128 * 128) square-le (omega arith),
        wrap-times square 10000 163840000 (omega (arith, abs-times square 10000, square-le))
            (omega arith),
      )

  fine_amount-exact : fine_amount d ≡ cube_turn d
  unfolding fine_amount
  fine_amount-exact =
      let square = d *ℤ pos (unsigned_abs d) in
      let cube = square *ℤ pos (unsigned_abs d) in
      rw (
        wrap-times d (unsigned_abs d) (128 * 128) square-le (omega arith),
        wrap-times square (unsigned_abs d) (128 * 128 * 128) cube-le (omega arith),
        wrap-times cube 1000 2097152000 (omega (arith, abs-times cube 1000, cube-le)) (omega arith),
      )

-- Saturating before the clamp changes nothing, for a limit that is itself an i32.
moved-exact :
    (limit amount v : ℤ)
    → IsI32 limit
    → pos 0 ≤ℤ limit
    → moved limit amount v ≡ clamp (v +ℤ amount) (pos 0) limit
unfolding moved
moved-exact (pos n) amount v h nonneg = ground arith
moved-exact (negsuc n) amount v h nonneg = absurd (omega arith)

-- For a delta of an i8 and a limit of an i32 that is not negative, what an encoder leaves is the
-- sum over the integers of the value and of the delta's signed square times 10000 (for encoder 3 its
-- signed cube times 1000), clamped to 0 and the limit: no i32 product wraps, and the saturating
-- addition shows nowhere.
pub moved-turn :
    (limit delta v : ℤ)
    → IsI32 limit
    → pos 0 ≤ℤ limit
    → IsI8 delta
    → (moved limit (turn_amount delta) v ≡ clamp (v +ℤ square_turn delta) (pos 0) limit)
      × (moved limit (fine_amount delta) v ≡ clamp (v +ℤ cube_turn delta) (pos 0) limit)
moved-turn limit delta v h nonneg small = (
  rw (turn_amount-exact delta small) (moved-exact limit (square_turn delta) v h nonneg),
  rw (fine_amount-exact delta small) (moved-exact limit (cube_turn delta) v h nonneg),
)
