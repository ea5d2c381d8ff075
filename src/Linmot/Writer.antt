-- ===== src/Linmot/Writer.antt =====
-- linmot/src/udp/writer.rs: the bounded writer over the send buffer.
pub mod Writes
use puddle.Base.{ℕ, ◌+◌, ◌-◌, List, [], ◌∷◌, ◌++◌, ltb, if◌then◌else◌, length, take, drop}
use puddle.Base.Exec.{Exec, Result, ok, err}
use puddle.Base.Int.{ℤ, unsigned}
use puddle.Base.Bytes.{le16, le32}

pub data WriteError : Type 0 where
  overflow : ℕ → ℕ → WriteError
  too_many_parameters : ℕ → WriteError

pub record Writer : Type 0 where
  pub buf : List ℕ
  pub idx : ℕ

abbrev pub new : List ℕ → Writer
new buf = record { buf = buf; idx = 0 }

-- `&mut self` methods that return `Result<()>`.
abbrev pub Write : Type 0
Write = Exec Writer WriteError (Unit {0})

unfoldable pub remaining : Writer → ℕ
remaining w = length w.buf - w.idx

-- `copy_from_slice` replaces the bytes from `idx` to `idx + needed`.
unfoldable pub write_bytes : List ℕ → Write
unfolding remaining
write_bytes bytes w =
    let needed = length bytes in
    if ltb (length w.buf) (w.idx + needed) then (err (overflow needed (remaining w)), w) else (
      ok tt,
      record {
        buf = take w.idx w.buf ++ (bytes ++ drop (w.idx + needed) w.buf);
        idx = w.idx + needed;
      },
    )

unfoldable pub write_u8 : ℕ → Write
write_u8 v = write_bytes (v ∷ [])

unfoldable pub write_u16_le : ℕ → Write
write_u16_le v = write_bytes (le16 v)

unfoldable pub write_i16_le : ℤ → Write
write_i16_le v = write_bytes (le16 (unsigned 16 v))

unfoldable pub write_u32_le : ℕ → Write
write_u32_le v = write_bytes (le32 v)

unfoldable pub write_i32_le : ℤ → Write
write_i32_le v = write_bytes (le32 (unsigned 32 v))
