-- ===== src/Linmot/Bitflags.antt =====
-- The third-party crate bitflags, whose macro declares the flag types of linmot/src/mci.rs and
-- linmot/src/udp.rs. A value of a flag type is modelled by its bits, and what the crate's operations
-- do to each bit is what its documentation says.
use puddle.Base.{ℕ, ◌/◌, ◌%◌, ◌^◌, ◌≡◌, Bool, not, ◌&&◌, ◌||◌, ◌==◌}

abbrev pub test_bit : ℕ → ℕ → Bool
test_bit n i = n / 2 ^ i % 2 == 1

-- A flag type of the source has the flags `1 << i` for `i` below a number of its own, `flags`, and
-- `all()` is `2 ^ flags - 1`.
pub record Bitflags : Type 0 where
  pub from_bits_truncate : ℕ → ℕ → ℕ
  pub contains : ℕ → ℕ → Bool
  pub insert : ℕ → ℕ → ℕ
  pub remove : ℕ → ℕ → ℕ
  pub truncate_lem : (flags bits : ℕ) → from_bits_truncate flags bits ≡ bits % 2 ^ flags
  pub contains_lem : (bits i : ℕ) → contains bits (2 ^ i) ≡ test_bit bits i
  pub insert_lem :
      (bits i j : ℕ) → test_bit (insert bits (2 ^ i)) j ≡ (test_bit bits j || test_bit (2 ^ i) j)
  pub remove_lem :
      (bits i j : ℕ)
      → test_bit (remove bits (2 ^ i)) j ≡ (test_bit bits j && not (test_bit (2 ^ i) j))
