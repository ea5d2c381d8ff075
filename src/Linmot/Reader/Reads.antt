-- ===== src/Linmot/Reader/Reads.antt =====
-- What a reading function takes from the datagram: `Reads p bs a` says that `p`, wherever the cursor
-- stands before the bytes `bs`, returns `a` and leaves the cursor behind them.
use puddle.Base.{
  ℕ, ◌+◌, ◌<◌, ◌^◌, ◌≡◌, refl, List, [], ◌++◌, arith, append_assoc, length, length-append,
  drop-append_exact, take-append_exact,
}
use native.Mathlib.Nat.{add_assoc}
use puddle.Base.Exec.{ok, pure, ◌>>=◌}
use puddle.Base.Int.{ℤ, IsI32, IsI16, unsigned, signed_unsigned32, signed_unsigned16}
use puddle.Base.Int.{unsigned32-lt, unsigned16-lt, signed}
use puddle.Base.Bytes.{le16, le32, from_le16, from_le32, from_le16-le16, from_le32-le32}
use puddle.Linmot.Reader.{
  Read, read_bytes, read_u16_le, read_i16_le, read_u32_le, read_i32_le, read_four,
}

pub record Reads {A : Type 0} (p : Read A) (bs : List ℕ) (a : A) : Type 0 where
  pub at :
      (done rest : List ℕ)
      → p (record { buf = done ++ (bs ++ rest); idx = length done })
        ≡ (ok a, record { buf = done ++ (bs ++ rest); idx = length done + length bs })

pub Reads-pure : {A : Type 0} (a : A) → Reads (pure a) [] a
Reads-pure a = record { at = λ done rest. ground arith }

pub Reads-bind :
    {A B : Type 0} {p : Read A} (f : A → Read B) {bs cs : List ℕ} {a : A} {b : B}
    → Reads p bs a
    → Reads (f a) cs b
    → Reads (p >>= f) (bs ++ cs) b
Reads-bind f {bs = bs} {cs = cs} h k = record {
  at = λ done rest. rw append_assoc (
      rw (h.at done (cs ++ rest)) (
        simp (length-append, ← add_assoc)
          (simp (append_assoc, length-append) at (k.at (done ++ bs) rest))));
}

read_bytes-Reads : (n : ℕ) (bs : List ℕ) → length bs ≡ n → Reads (read_bytes n) bs bs
unfolding read_bytes
read_bytes-Reads n bs e = record {
  at = λ done rest.
      rw (← e, drop-append_exact, take-append_exact)
        (ground (arith, length-append done (bs ++ rest), length-append bs rest));
}

-- A result that is computed from what another reading returns, and is the value wanted.
pub Reads-map :
    {A B : Type 0} (p : Read A) (f : A → B) {bs : List ℕ} {a : A} {b : B}
    → Reads p bs a
    → f a ≡ b
    → Reads (p >>= λ x. pure (f x)) bs b
Reads-map p f h e = record { at = λ done rest. rw (h.at done rest) (rw e) }

pub read_u16-Reads : (v : ℕ) → v < 2 ^ 16 → Reads read_u16_le (le16 v) v
unfolding read_u16_le
read_u16-Reads v h =
    Reads-map (read_bytes 2) from_le16 (read_bytes-Reads 2 (le16 v) refl) (from_le16-le16 v h)

pub read_u32-Reads : (v : ℕ) → v < 2 ^ 32 → Reads read_u32_le (le32 v) v
unfolding read_u32_le
read_u32-Reads v h =
    Reads-map (read_bytes 4) from_le32 (read_bytes-Reads 4 (le32 v) refl) (from_le32-le32 v h)

pub read_i16-Reads : (v : ℤ) → IsI16 v → Reads read_i16_le (le16 (unsigned 16 v)) v
unfolding read_i16_le
read_i16-Reads v h =
    Reads-map (read_bytes 2) (λ b. signed 16 (from_le16 b)) (read_bytes-Reads 2 _ refl)
      (rw (from_le16-le16 (unsigned 16 v) (unsigned16-lt v)) (signed_unsigned16 v h))

pub read_i32-Reads : (v : ℤ) → IsI32 v → Reads read_i32_le (le32 (unsigned 32 v)) v
unfolding read_i32_le
read_i32-Reads v h =
    Reads-map (read_bytes 4) (λ b. signed 32 (from_le32 b)) (read_bytes-Reads 4 _ refl)
      (rw (from_le32-le32 (unsigned 32 v) (unsigned32-lt v)) (signed_unsigned32 v h))

pub read_four-Reads :
    {A : Type 0} (p : Read A) (ws bs cs ds : List ℕ) (a b c d : A)
    → Reads p ws a
    → Reads p bs b
    → Reads p cs c
    → Reads p ds d
    → Reads (read_four p) (ws ++ (bs ++ (cs ++ (ds ++ [])))) (a, b, c, d)
unfolding read_four
read_four-Reads p ws bs cs ds a b c d ha hb hc hd =
    Reads-bind _ ha (Reads-bind _ hb (Reads-bind _ hc (Reads-bind _ hd (Reads-pure _))))
