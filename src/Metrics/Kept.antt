-- ===== src/Metrics/Kept.antt =====
-- src/metrics.rs: a row that was added is in the buffer or in the database, and so is every row that
-- was there before.
use mathlib.Core.List.{Subset}
use puddle.Base.{◌≤◌, ◌≡◌, Bool, true, ◌⊎◌, List, [], ◌∷◌, ◌++◌, if◌then◌else◌}
use puddle.Metrics.{Record, Sender, Pass}

-- All rows, in the buffer or in the database.
abbrev pub rows : Sender → List Record
rows s = s.buffer ++ s.table

-- The rows of the buffer once this one is added to it, if it was.
abbrev pub with_row : Bool → Record → List Record → List Record
with_row added r buffer = if added then r ∷ buffer else buffer

-- What the loop leaves, begun with these rows: the buffer has the row once more if it was added, and
-- else what it had, or it is empty as the loop ends; no row is lost; and the pause before the next
-- connection is from 1 s to 30 s.
pub record IsKept (r : Record) (before : Sender) (p : Pass) : Type 0 where
  pub buffered :
      (p.sender.buffer ≡ with_row p.added r before.buffer)
      ⊎ ((p.is_done ≡ true) × (p.sender.buffer ≡ []))
  pub kept : Subset (with_row p.added r before.buffer ++ before.table) (rows p.sender)
  pub pause_ge : 1 ≤ p.sender.retry_time
  pub pause_le : p.sender.retry_time ≤ 30

-- As long as the loop goes on.
record IsUnderWay (r : Record) (before : Sender) (added : Bool) (s : Sender) : Type 0 where
  buffered : s.buffer ≡ with_row added r before.buffer
  kept : Subset (with_row added r before.buffer ++ before.table) (rows s)
  pause_ge : 1 ≤ s.retry_time
  pause_le : s.retry_time ≤ 30
