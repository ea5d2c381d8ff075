-- ===== src/Drive/Next/Power.antt =====
-- What power and the drive's state let `compute_next_request` do.
use puddle.Base.{
  ℕ, ◌^◌, ◌≡◌, refl, true, false, Option, none, some, Bool-cases, Option-cases, inl, inr, arith,
}
use puddle.Linmot.Bitflags.{Bitflags, test_bit}
use puddle.Linmot.Mci
use puddle.Linmot.Mci.Decode.{State, operation_enabled}
use puddle.Linmot.Units.{Position}
use puddle.Linmot.Udp.{response_state}
use puddle.Drive.Connection.{Connection}
use puddle.Drive.Next.{command_next, compute_in_state, compute_next_request, control_flags_for}

-- The drive is in operation and homed.
abbrev pub IsHomed : Option State → Type 0
IsHomed (some (operation_enabled n e m i homed)) = homed ≡ true
IsHomed _ = ⊥

none-some : {A : Type 0} {x : Option A} {a : A} → x ≡ none → x ≡ some a → ⊥
none-some e f = cc

command_next-IsHomed :
    (c : Connection) (state : State) (p : Option Position) (channel : Option (ℕ × ℕ × ℕ × ℕ))
    (mc : Mci.MotionCommand)
    → c.next_motion_command ≡ none
    → (command_next c state p channel).next_motion_command ≡ some mc
    → IsHomed (some state)
unfolding command_next
command_next-IsHomed c (operation_enabled n e m i true) p channel mc fresh issued = refl
command_next-IsHomed c state p channel mc fresh issued = cc

module _ (bitflags : Bitflags) where
  switch_on_removed : (bits : ℕ) → test_bit (bitflags.remove bits (2 ^ 0)) 0 ≡ false
  switch_on_removed bits = rw (bitflags.remove_lem bits 0 0) (ground arith)

  -- While power is off, the switch-on bit is clear after every call, and no motion command is added.
  pub compute_next_request-power_off :
      (c : Connection)
      → c.power_enabled ≡ false
      → (test_bit (compute_next_request bitflags c).control_flags 0 ≡ false)
        × ((compute_next_request bitflags c).next_motion_command ≡ c.next_motion_command)
  unfolding compute_next_request compute_in_state
  compute_next_request-power_off c off = elim (Option-cases (response_state c.last_response)) [
    | inl e ↦ rw (e, compute_next_request) (refl, refl)
    | inr (state, e) ↦
        rw (e, compute_next_request, off)
          (switch_on_removed (control_flags_for bitflags state false c.control_flags), refl)
  ]

  in_state :
      (c : Connection) (state : State) (mc : Mci.MotionCommand)
      → c.next_motion_command ≡ none
      → (compute_in_state bitflags c state).next_motion_command ≡ some mc
      → (c.power_enabled ≡ true) × IsHomed (some state)
  unfolding compute_in_state
  in_state c state mc fresh issued = elim (Bool-cases c.power_enabled) [
    | inl on ↦ (on, command_next-IsHomed _ state _ _ mc fresh (rw on at issued))
    | inr off ↦ cc
  ]

  -- A motion command is issued only when power is on and the drive is in operation and homed.
  pub compute_next_request-only :
      (c : Connection) (mc : Mci.MotionCommand)
      → c.next_motion_command ≡ none
      → (compute_next_request bitflags c).next_motion_command ≡ some mc
      → (c.power_enabled ≡ true) × IsHomed (response_state c.last_response)
  unfolding compute_next_request
  compute_next_request-only c mc fresh issued =
      elim (Option-cases (response_state c.last_response)) [
        | inl e ↦ absurd (none-some fresh (rw (e, compute_next_request) at issued))
        | inr (state, e) ↦ rw e (in_state c state mc fresh (rw (e, compute_next_request) at issued))
      ]
