-- ===== src/Drive/Words.antt =====
-- The u64 and i64 arithmetic of src/drive.rs, which wraps in a release build.
use puddle.Base.{ℕ, ◌+◌, ◌-◌, ◌*◌, ◌%◌, ◌^◌, Bool, ◌&&◌, ◌||◌}
use puddle.Base.Int.{ℤ, pos, ltb_ℤ}

abbrev pub add64 : ℕ → ℕ → ℕ
add64 a b = (a + b) % 2 ^ 64

abbrev pub sub64 : ℕ → ℕ → ℕ
sub64 a b = (a + 2 ^ 64 - b) % 2 ^ 64

abbrev pub mul64 : ℕ → ℕ → ℕ
mul64 a b = (a * b) % 2 ^ 64

-- The largest i32.
abbrev pub i32_max : ℕ
i32_max = 2 ^ 31 - 1

-- `(a > 0 && b < 0) || (a < 0 && b > 0)`
abbrev pub opposes : ℤ → ℤ → Bool
opposes a b = (ltb_ℤ (pos 0) a && ltb_ℤ b (pos 0)) || (ltb_ℤ a (pos 0) && ltb_ℤ (pos 0) b)

-- `(a > 0 && b > 0) || (a < 0 && b < 0)`
abbrev pub agrees : ℤ → ℤ → Bool
agrees a b = (ltb_ℤ (pos 0) a && ltb_ℤ (pos 0) b) || (ltb_ℤ a (pos 0) && ltb_ℤ b (pos 0))
