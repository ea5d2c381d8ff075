-- ===== src/Base/Bytes.antt =====
-- `to_le_bytes` and `from_le_bytes` of Rust's integers. A byte is a number below 256.
use puddle.Base.{ℕ, ◌+◌, ◌*◌, ◌/◌, ◌%◌, ◌^◌, ◌<◌, ◌≡◌, List, [], ◌∷◌, arith, get_or, All}

abbrev pub IsByte : ℕ → Type 0
IsByte b = b < 256

abbrev pub le16 : ℕ → List ℕ
le16 v = v % 256 ∷ v / 256 % 256 ∷ []

abbrev pub le32 : ℕ → List ℕ
le32 v = v % 256 ∷ v / 256 % 256 ∷ v / 65536 % 256 ∷ v / 16777216 % 256 ∷ []

abbrev pub from_le16 : List ℕ → ℕ
from_le16 b = get_or b 0 0 + 256 * get_or b 1 0

abbrev pub from_le32 : List ℕ → ℕ
from_le32 b = get_or b 0 0 + 256 * get_or b 1 0 + 65536 * get_or b 2 0 + 16777216 * get_or b 3 0

pub from_le16-le16 : (v : ℕ) → v < 2 ^ 16 → from_le16 (le16 v) ≡ v
from_le16-le16 v h = omega arith

pub from_le32-le32 : (v : ℕ) → v < 2 ^ 32 → from_le32 (le32 v) ≡ v
from_le32-le32 v h = omega arith

pub le32-IsByte : (v : ℕ) → All IsByte (le32 v)
le32-IsByte v = omega arith
