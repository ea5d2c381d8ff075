-- ===== src/Linmot/Mci.antt =====
-- linmot/src/mci.rs and linmot/src/mci/commands.rs: the motion command interface of the drive.
pub mod Commands
pub mod Decode
pub mod Block
use Prim.Native.Nat.{bit_or}
use puddle.Base.{
  ℕ, ◌+◌, ◌-◌, ◌*◌, ◌/◌, ◌%◌, ◌<◌, ◌≡◌, Bool, true, false, List, [], ltb, ◌==◌, if◌then◌else◌,
  replicate,
}
use puddle.Base.Exec.{ok, err, pure, raise, ◌>>=◌, ◌>>◌}
use puddle.Linmot.Writer.{Write, too_many_parameters, write_bytes, write_u16_le}
use puddle.Linmot.Mci.Commands.{Command, id, write_parameters}

-- u8
pub record MotionCommand : Type 0 where
  pub count : ℕ
  pub command : Command

-- `(id << 4) | u16::from(count & 0xF)`
unfoldable pub header : MotionCommand → ℕ
header mc = bit_or (id mc.command * 16 % 65536) (mc.count % 16)

-- `let length = w.pos() - before` and what follows it.
unfoldable pub pad : ℕ → Write
pad length =
    if ltb 32 length
    then raise (too_many_parameters length)
    else let padding_length = 32 - length in
      if ltb 0 padding_length then write_bytes (replicate padding_length 0) else pure tt

unfoldable pub write_motion_command : MotionCommand → Write
write_motion_command mc w =
    ((write_u16_le (header mc) >> write_parameters mc.command) >> λ after.
    pad (after.idx - w.idx) after)
      w
