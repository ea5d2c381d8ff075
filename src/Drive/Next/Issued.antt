-- ===== src/Drive/Next/Issued.antt =====
-- When `compute_next_request` issues a motion command, and which.
use puddle.Base.{
  ℕ, ◌+◌, ◌%◌, ◌<◌, ◌≡◌, ◌≢◌, refl, Bool, true, false, Option, some, List, [], ◌∷◌, arith, length,
  ◌⊎◌, inl, inr, Bool-cases,
}
use puddle.Base.Int.{ℤ, signed}
use native.Mathlib.Nat.{mod-lt}
use puddle.Messages.{MotionCommand}
use puddle.Linmot.Units.{Position, Velocity, Acceleration}
use puddle.Linmot.Bitflags.{Bitflags}
use puddle.Linmot.Mci
use puddle.Linmot.Mci.Commands.{Command, vai_stop, vai_go_to_pos}
use puddle.Linmot.Mci.Decode.{operation_enabled}
use puddle.Linmot.Udp.{response_state}
use puddle.Drive.Connection.{Connection, command_at}
use puddle.Drive.Next.{
  track, arrive, finish, effective_clamp_target_after_handoff, issue, advance, next_count,
  command_enabled, command_next, compute_in_state, compute_next_request, is_empty,
}

-- A go-to command is that of the active index, but for its deceleration; it is issued only while
-- motion is enabled, and a stop otherwise or where there is no command at all.
abbrev pub Follows : Bool → ℕ → List MotionCommand → Command → Type 0
Follows motion index commands (vai_go_to_pos p v a d) =
    (motion ≡ true)
    × (index < length commands)
    × (p ≡ (command_at commands index).position)
    × (v ≡ (command_at commands index).velocity)
    × (a ≡ (command_at commands index).acceleration)
Follows motion index commands (vai_stop d) = (motion ≡ false) ⊎ (commands ≡ [])
Follows motion index commands _ = ⊥

issue-Follows :
    (c : Connection) (n : ℕ) (p : Position) (v : Velocity) (t : Position) (d : Option ℤ)
    → c.active_command_index < length c.input_commands
    → Follows c.motion_enabled c.active_command_index c.input_commands (issue c n p v t d).command
unfolding issue
issue-Follows c n p v t d h = elim (Bool-cases c.motion_enabled) [
  | inl on ↦ rw on (refl, h, refl, refl, refl)
  | inr off ↦ rw off (inl refl)
]

issue-count :
    (c : Connection) (n : ℕ) (p : Position) (v : Velocity) (t : Position) (d : Option ℤ)
    → (issue c n p v t d).count ≡ n
unfolding issue
issue-count c n p v t d = ground arith

-- What `advance` leaves alone, and that its index is in range.
record Advanced (c d : Connection) : Type 0 where
  in_range : d.active_command_index < length d.input_commands
  motion : d.motion_enabled ≡ c.motion_enabled
  commands : d.input_commands ≡ c.input_commands

advance_lem :
    (c : Connection) (t : Position) (reached : Bool)
    → c.active_command_index < length c.input_commands
    → Advanced c (advance c t reached).0
unfolding advance
advance_lem c t true h = record {
  in_range = mod-lt (c.active_command_index + 1) (omega arith);
  motion = refl;
  commands = refl;
}
advance_lem c t false h = record { in_range = h; motion = refl; commands = refl }

-- The command that a call of `compute_next_request` on `c` issues, which leads to `d`: it is new to
-- the drive, whose count is `n`, and it follows the commands.
pub record IsIssued (n : ℕ) (c d : Connection) (mc : Mci.MotionCommand) : Type 0 where
  pub issued : d.next_motion_command ≡ some mc
  pub count : mc.count ≡ next_count n
  pub follows : Follows c.motion_enabled d.active_command_index c.input_commands mc.command

finish_lem :
    (c d : Connection) (n : ℕ) (p : Position) (v : Velocity) (t : Position × Option ℤ)
    → Advanced c d
    → (mc : Mci.MotionCommand) × IsIssued n c (finish d (next_count n) p v t) mc
unfolding finish
finish_lem c d n p v (t, dir) h =
    let clamp =
      effective_clamp_target_after_handoff d.input_commands d.active_command_index
        d.active_command_has_approached d.active_approach_direction t dir in
    (
      issue d (next_count n) p v clamp.0 clamp.1,
      record {
        issued = refl;
        count = issue-count d (next_count n) p v clamp.0 clamp.1;
        follows =
            rw (← h.motion, ← h.commands)
              (issue-Follows d (next_count n) p v clamp.0 clamp.1 h.in_range);
      },
    )

arrive_lem :
    (c : Connection) (p : Position) (v : Velocity) (a : Acceleration)
    → 0 < length c.input_commands
    → Advanced c (arrive c p v a).0
unfolding arrive
arrive_lem c p v a h =
    let step = advance_lem _ _ _ (mod-lt c.active_command_index h) in
    record { in_range = step.in_range; motion = step.motion; commands = step.commands }

track_lem :
    (c : Connection) (n : ℕ) (p : Position) (v : Velocity) (a : Acceleration)
    → 0 < length c.input_commands
    → (mc : Mci.MotionCommand) × IsIssued n c (track c (next_count n) p v a) mc
unfolding track
track_lem c n p v a h = finish_lem c _ n p v _ (arrive_lem c p v a h)

is_empty-true : (xs : List MotionCommand) → is_empty xs ≡ true → xs ≡ []
is_empty-true [] h = refl
is_empty-true (_ ∷ _) h = cc

is_empty-false : (xs : List MotionCommand) → is_empty xs ≡ false → 0 < length xs
is_empty-false [] h = cc
is_empty-false (x ∷ xs) h = omega arith

command_enabled_lem :
    (c : Connection) (n : ℕ) (p : Position) (v a : ℕ)
    → (mc : Mci.MotionCommand) × IsIssued n c (command_enabled c n p v a) mc
unfolding command_enabled
command_enabled_lem c n p v a = elim (Bool-cases (is_empty c.input_commands)) [
  | inl e ↦ rw e (
    record { count = next_count n; command = vai_stop c.hard_deceleration_min },
    record { issued = refl; count = refl; follows = inr (is_empty-true _ e) },
  )
  | inr e ↦ rw e (track_lem c n p (signed 32 v) (signed 32 a) (is_empty-false _ e))
]

next_count-fresh : (n : ℕ) → next_count n ≢ n % 16
next_count-fresh n e = omega arith

module _ (bitflags : Bitflags) where
  issues_lem :
      (c : Connection) (n : ℕ) (e m i : Bool) (p : Position) (v a x y : ℕ)
      → c.power_enabled ≡ true
      → response_state c.last_response ≡ some (operation_enabled n e m i true)
      → c.last_response.demand_position ≡ some p
      → c.last_response.monitoring_channel ≡ some (v, a, x, y)
      → (mc : Mci.MotionCommand) × IsIssued n c (compute_next_request bitflags c) mc
  unfolding compute_next_request compute_in_state command_next
  issues_lem c n e m i p v a x y on homed position channel =
      rw (homed, compute_next_request, on, position, channel) (command_enabled_lem _ n p v a)

  -- While power is on, a response with its demand position and channels from a drive that is in
  -- operation and homed leads to a motion command: its count differs from that of the drive, and
  -- it is that of the active index, but for the deceleration, or a stop where motion is off or
  -- there are no commands.
  pub compute_next_request-issues :
      (c : Connection) (n : ℕ) (e m i : Bool) (p : Position) (v a x y : ℕ)
      → c.power_enabled ≡ true
      → response_state c.last_response ≡ some (operation_enabled n e m i true)
      → c.last_response.demand_position ≡ some p
      → c.last_response.monitoring_channel ≡ some (v, a, x, y)
      → (mc : Mci.MotionCommand) × (IsIssued n c (compute_next_request bitflags c) mc
          × (mc.count ≢ n % 16))
  compute_next_request-issues c n e m i p v a x y on homed position channel =
      let (mc, h) = issues_lem c n e m i p v a x y on homed position channel in
      (mc, (h, rw h.count (next_count-fresh n)))
