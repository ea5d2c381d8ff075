-- ===== src/Linmot/Mci/Block.antt =====
-- The bytes of a motion command on the wire.
use Prim.Native.Nat.{bit_or}
use puddle.Base.{
  ℕ, zero, suc, ◌+◌, ◌-◌, ◌*◌, ◌%◌, ◌≤◌, ◌<◌, ◌≡◌, refl, Bool, true, false, inl, inr, Bool-cases,
  ltb, List, [], ◌∷◌, ◌++◌, ◌&&◌, arith, ==_iff, ◌==◌, replicate, length, length-append,
  length-replicate,
}
use puddle.Base.Int.{ℤ, unsigned}
use puddle.Base.Bytes.{le16, le32}
use puddle.Linmot.Writer.Writes.{
  Writes, Writes-pos, Writes-seq, write_u16-Writes, write_bytes-Writes, Writes-pure, writes_rules,
}
use puddle.Linmot.Mci.{MotionCommand, header, pad, write_motion_command}
use puddle.Linmot.Mci.Commands.{
  Command, id, write_parameters, no_operation, vai_go_to_pos, vai_increment_dem_pos,
  vai_go_to_pos_from_act_pos_and_act_vel, vai_stop, p_stream_with_drive_generated_time_stamp,
  pv_stream_with_drive_generated_time_stamp,
  p_stream_with_drive_generated_time_stamp_and_configured_period_time,
  pv_stream_with_drive_generated_time_stamp_and_configured_period_time,
  pva_stream_with_drive_generated_time_stamp,
  pva_stream_with_drive_generated_time_stamp_and_configured_period_time,
  pva_stream_with_controller_generated_time_stamp, stop_stream, vaji_go_to_pos,
}

-- The parameters of a command, an i32 each, in the order of the protocol.
abbrev pub parameters : Command → List ℤ
parameters no_operation = []
parameters (vai_go_to_pos a b c d) = a ∷ b ∷ c ∷ d ∷ []
parameters (vai_increment_dem_pos a b c d) = a ∷ b ∷ c ∷ d ∷ []
parameters (vai_go_to_pos_from_act_pos_and_act_vel a b c d) = a ∷ b ∷ c ∷ d ∷ []
parameters (vai_stop a) = a ∷ []
parameters (p_stream_with_drive_generated_time_stamp a) = a ∷ []
parameters (pv_stream_with_drive_generated_time_stamp a b) = a ∷ b ∷ []
parameters (p_stream_with_drive_generated_time_stamp_and_configured_period_time a) = a ∷ []
parameters (pv_stream_with_drive_generated_time_stamp_and_configured_period_time a b) = a ∷ b ∷ []
parameters (pva_stream_with_drive_generated_time_stamp a b c) = a ∷ b ∷ c ∷ []
parameters (pva_stream_with_drive_generated_time_stamp_and_configured_period_time a b c) =
    a ∷ b ∷ c ∷ []
parameters (pva_stream_with_controller_generated_time_stamp a b c) = a ∷ b ∷ c ∷ []
parameters stop_stream = []
parameters (vaji_go_to_pos a b c d e) = a ∷ b ∷ c ∷ d ∷ e ∷ []

abbrev pub words : List ℤ → List ℕ
words [] = []
words (x ∷ xs) = le32 (unsigned 32 x) ++ words xs

abbrev pub block : MotionCommand → List ℕ
block mc =
    (le16 (id mc.command * 16 + mc.count % 16) ++ words (parameters mc.command))
    ++ replicate (30 - length (words (parameters mc.command))) 0

write_parameters-Writes : (c : Command) → Writes (write_parameters c) (words (parameters c))
unfolding write_parameters
write_parameters-Writes no_operation = search writes_rules
write_parameters-Writes _ = search writes_rules depth 12

length-words : (c : Command) → length (words (parameters c)) ≤ 20
length-words no_operation = omega arith
length-words _ = omega arith

pad-Writes : (n k : ℕ) → n + k ≡ 32 → Writes (pad n) (replicate k 0)
unfolding pad
pad-Writes n k e = elim (Bool-cases (ltb 0 (32 - n))) [
  | inl more ↦ rw (short, more) (rw left (write_bytes-Writes (replicate k 0)))
  | inr full ↦ rw (short, full) (rw (none_left full) Writes-pure)
]
  where
    short : ltb 32 n ≡ false
    short = ground arith

    left : 32 - n ≡ k
    left = omega arith

    none_left : ltb 0 (32 - n) ≡ false → k ≡ 0
    none_left h = ground arith

-- Whether the test succeeds on each of the first numbers.
scan : (ℕ → Bool) → ℕ → Bool
scan test zero = true
scan test (suc bound) = scan test bound && test bound

scan-at :
    (test : ℕ → Bool) (bound : ℕ) → scan test bound ≡ true → (k : ℕ) → k < bound → test k ≡ true
unfolding scan
scan-at test (suc bound) h k less = elim (Bool-cases (k == bound)) [
  | inl last ↦ rw ((==_iff k bound).0 last) (ground (arith, h))
  | inr early ↦ scan-at test bound (ground (arith, h)) k (ground (arith, early, less))
]
scan-at test zero h k less = absurd (omega arith)

-- The number of a command leaves the low four bits of the header to the count.
header_table : (c : Command) → scan (λ n. bit_or (id c * 16 % 65536) n == id c * 16 + n) 16 ≡ true
unfolding id scan
header_table no_operation = refl
header_table _ = refl

header_lem : (mc : MotionCommand) → header mc ≡ id mc.command * 16 + mc.count % 16
unfolding header
header_lem mc =
    (==_iff _ _).0 (scan-at _ 16 (header_table mc.command) (mc.count % 16) (omega arith))

-- A motion command takes a block of 32 bytes, whatever the command.
pub length-block : (mc : MotionCommand) → length (block mc) ≡ 32
length-block mc = omega (
  arith,
  length-append (words (parameters mc.command))
      (replicate (30 - length (words (parameters mc.command))) 0),
  length-replicate {A = ℕ} (30 - length (words (parameters mc.command))) 0,
  length-words mc.command,
)

-- Where the buffer has room for the block, `write_to` succeeds and writes it.
pub write_motion_command-Writes : (mc : MotionCommand) → Writes (write_motion_command mc) (block mc)
unfolding write_motion_command
write_motion_command-Writes mc =
    Writes-pos pad {bs = le16 (id mc.command * 16 + mc.count % 16) ++ words (parameters mc.command)}
      (rw header_lem (Writes-seq (write_u16-Writes _) (write_parameters-Writes mc.command)))
      (pad-Writes _ _ (omega (arith, length-words mc.command)))
