-- ===== src/Tests/Flags.antt =====
-- An implementation of the interface to the crate bitflags, digit by digit, for the tests.
use puddle.Base.{
  ℕ, zero, suc, ◌+◌, ◌*◌, ◌/◌, ◌%◌, ◌^◌, ◌<◌, ◌≡◌, refl, sym, ap, ◌∙◌, Bool, true, false, not, ◌&&◌,
  ◌||◌, ◌==◌, arith,
}
use native.Mathlib.Nat.{div-div-eq-div-mul}
use puddle.Linmot.Bitflags.{Bitflags, test_bit}

abbrev pub digit : Bool → ℕ
digit true = 1
digit false = 0

-- The lower `n` bits, joined by `g`.
unfoldable pub merge : (Bool → Bool → Bool) → ℕ → ℕ → ℕ → ℕ
merge g zero a b = 0
merge g (suc n) a b = digit (g (test_bit a 0) (test_bit b 0)) + 2 * merge g n (a / 2) (b / 2)

halved : (m j : ℕ) → m / 2 ^ suc j ≡ m / 2 / 2 ^ j
halved m j = ap (λ k. m / k) double ∙ sym (div-div-eq-div-mul m 2 (2 ^ j))
  where
    double : 2 ^ suc j ≡ 2 * 2 ^ j
    double = omega arith

test_bit-suc : (m j : ℕ) → test_bit m (suc j) ≡ test_bit (m / 2) j
test_bit-suc m j = ap (λ (q : ℕ). q % 2 == 1) (halved m j)

test_bit-double : (d : Bool) (m j : ℕ) → test_bit (digit d + 2 * m) (suc j) ≡ test_bit m j
test_bit-double true m j = test_bit-suc (1 + 2 * m) j ∙ ground arith
test_bit-double false m j = test_bit-suc (0 + 2 * m) j ∙ ground arith

test_bit-digit : (d : Bool) (m : ℕ) → test_bit (digit d + 2 * m) 0 ≡ d
test_bit-digit true m = ground arith
test_bit-digit false m = ground arith

test_bit-zero : (j : ℕ) → test_bit 0 j ≡ false
test_bit-zero zero = refl
test_bit-zero (suc j) = test_bit-suc 0 j ∙ test_bit-zero j

below_power : (n : ℕ) → n < 2 ^ n
below_power zero = omega arith
below_power (suc n) = omega (arith, below_power n)

test_bit-merge :
    (g : Bool → Bool → Bool) (n a b j : ℕ)
    → g false false ≡ false
    → a < 2 ^ n
    → b < 2 ^ n
    → test_bit (merge g n a b) j ≡ g (test_bit a j) (test_bit b j)
unfolding merge
test_bit-merge g zero a b j e ha hb = rw (a_zero, b_zero, test_bit-zero j) (sym e)
  where
    a_zero : a ≡ 0
    a_zero = omega arith

    b_zero : b ≡ 0
    b_zero = omega arith
test_bit-merge g (suc n) a b zero e ha hb = test_bit-digit _ _
test_bit-merge g (suc n) a b (suc j) e ha hb =
    test_bit-double (g (test_bit a 0) (test_bit b 0)) (merge g n (a / 2) (b / 2)) j
    ∙ (test_bit-merge g n (a / 2) (b / 2) j e (omega arith) (omega arith)
        ∙ rw (test_bit-suc a j, test_bit-suc b j))

-- Enough bits for both.
abbrev pub join : (Bool → Bool → Bool) → ℕ → ℕ → ℕ
join g a b = merge g (a + b) a b

pub test_bit-join :
    (g : Bool → Bool → Bool) (a b j : ℕ)
    → g false false ≡ false
    → test_bit (join g a b) j ≡ g (test_bit a j) (test_bit b j)
test_bit-join g a b j e =
    test_bit-merge g (a + b) a b j e (omega (arith, below_power (a + b)))
      (omega (arith, below_power (a + b)))

abbrev pub bits : Bitflags
bits = record {
  from_bits_truncate = λ flags b. b % 2 ^ flags;
  contains = λ b flag. b / flag % 2 == 1;
  insert = join (λ x y. x || y);
  remove = join (λ x y. x && not y);
  truncate_lem = λ flags b. refl;
  contains_lem = λ b i. refl;
  insert_lem = λ b i j. test_bit-join (λ x y. x || y) b (2 ^ i) j refl;
  remove_lem = λ b i j. test_bit-join (λ x y. x && not y) b (2 ^ i) j refl;
}
