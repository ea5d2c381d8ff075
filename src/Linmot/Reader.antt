-- ===== src/Linmot/Reader.antt =====
-- linmot/src/udp/reader.rs: the cursor over a received datagram.
pub mod Reads
use puddle.Base.{ℕ, ◌+◌, ◌-◌, List, ltb, if◌then◌else◌, length, take, drop, get_or}
use puddle.Base.Exec.{Exec, Result, ok, err, pure, ◌>>=◌}
use puddle.Base.Int.{ℤ, signed}
use puddle.Base.Bytes.{from_le16, from_le32}

pub data ReadError : Type 0 where
  underflow : ℕ → ℕ → ReadError

pub record Reader : Type 0 where
  pub buf : List ℕ
  pub idx : ℕ

abbrev pub new : List ℕ → Reader
new buf = record { buf = buf; idx = 0 }

-- `&mut self` methods that return `Result<T>`.
abbrev pub Read : Type 0 → Type 0
Read A = Exec Reader ReadError A

unfoldable pub read_bytes : ℕ → Read (List ℕ)
read_bytes n r =
    if ltb (length r.buf) (r.idx + n)
    then (err (underflow n (length r.buf - r.idx)), r)
    else (ok (take n (drop r.idx r.buf)), record r { idx = r.idx + n })

unfoldable pub read_u8 : Read ℕ
read_u8 = do b ← read_bytes 1; pure (get_or b 0 0)

unfoldable pub read_u16_le : Read ℕ
read_u16_le = do b ← read_bytes 2; pure (from_le16 b)

unfoldable pub read_i16_le : Read ℤ
read_i16_le = do b ← read_bytes 2; pure (signed 16 (from_le16 b))

unfoldable pub read_u32_le : Read ℕ
read_u32_le = do b ← read_bytes 4; pure (from_le32 b)

unfoldable pub read_i32_le : Read ℤ
read_i32_le = do b ← read_bytes 4; pure (signed 32 (from_le32 b))

-- `WireRead` for a tuple of four: the fields in order.
unfoldable pub read_four : {A : Type 0} → Read A → Read (A × A × A × A)
read_four p = do a ← p; b ← p; c ← p; d ← p; pure (a, b, c, d)
