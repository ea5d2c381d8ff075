-- ===== src/Hid/Ui/Live/Granted.antt =====
-- What the core makes of the messages of the user interface, which holds write access.
use puddle.Base.{
  ℕ, zero, suc, ◌≡◌, sym, refl, ap, Bool, true, false, ◌||◌, arith, Option, none, some, List, [],
  ◌∷◌, inl, inr, Bool-cases, length, ltb, set, get_or,
}
use puddle.Base.Exec.{◌>>◌}
use puddle.Base.Int.{ℤ}
use puddle.Messages.{
  hid, MotionCommand, MotionCommandFields, MotionAction, CommandUpdate, apply_field, apply_fields,
  ClientMessage, upsert_command_set, update_command, set_drive_power, set_motion_state,
  acknowledge_error, ack, command_result, command_set_changed, invalid_state, out_of_range,
}
use puddle.Core.Manager.{
  HidUi, Core, CoreManager, is_holder, update_core, send, sync_commands_to_drive,
}
use puddle.Core.Manager.Keeps.{send-Keeps, update_core-two, update_core-then, is_holder_self}
use puddle.Core.Access.{succeed}
use puddle.Core.Sets
use puddle.Core.Power
use puddle.Core.Event.{handle_message}
use puddle.Core.Event.Effect.{IsHolder}
use puddle.Drive.Connection.{command_at, no_command}
use puddle.Hid.Ui.Replay.{replay_one}

-- The messages that the user interface sends while it holds write access.
abbrev pub FromUi : ClientMessage → Type 0
FromUi (upsert_command_set _ none none _) = Unit {0}
FromUi (update_command _ _) = Unit {0}
FromUi (set_drive_power _ _) = Unit {0}
FromUi (set_motion_state _ _) = Unit {0}
FromUi (acknowledge_error _) = Unit {0}
FromUi _ = ⊥

or_false : (a b : Bool) → (a || b) ≡ false → (a ≡ false) × (b ≡ false)
or_false true b h = absurd (cc)
or_false false b h = (refl, h)

apply_field_unchanged :
    (f : Option ℤ) (old : ℤ) → (apply_field f old).1 ≡ false → (apply_field f old).0 ≡ old
apply_field_unchanged none old h = refl
apply_field_unchanged (some new) old h = ground (arith, h)

-- An update that changes nothing returns the command that it was given.
apply_fields_unchanged :
    (c : MotionCommand) (f : MotionCommandFields)
    → (apply_fields c f).1 ≡ false
    → (apply_fields c f).0 ≡ c
unfolding apply_fields
apply_fields_unchanged c f h =
    let (p, rest) = or_false (apply_field f.position c.position).1 _ h in
    let (v, accelerations) = or_false (apply_field f.velocity c.velocity).1 _ rest in
    let (x, d) = or_false (apply_field f.acceleration c.acceleration).1 _ accelerations in
    rw (
      apply_field_unchanged f.position c.position p,
      apply_field_unchanged f.velocity c.velocity v,
      apply_field_unchanged f.acceleration c.acceleration x,
      apply_field_unchanged f.deceleration c.deceleration d,
    )

set-get_or {ℓ} : {A : Type ℓ} (xs : List A) (i : ℕ) (d : A) → set xs i (get_or xs i d) ≡ xs
set-get_or [] i d = refl
set-get_or (x ∷ xs) zero d = refl
set-get_or (x ∷ xs) (suc i) d = ap (λ (t : List _). x ∷ t) (set-get_or xs i d)

module _ (ui : HidUi) where
  -- The active commands after a message are as `replay_one` says, and write access stays.
  abbrev pub Grants : ClientMessage → Core → Core → Type 0
  Grants m k l = (l.active_command_set.1 ≡ replay_one m k.active_command_set.1) × IsHolder hid l

  holds :
      (s : CoreManager ui)
      → IsHolder hid s.core
      → is_holder s.core.core_state.write_access_holder hid ≡ true
  holds s h = rw h (is_holder_self hid)

  -- What the core became, and that this is granted.
  becomes : (m : ClientMessage) (k l l' : Core) → l ≡ l' → Grants m k l' → Grants m k l
  becomes m k l l' e g = rw e g

  answered :
      (m : ClientMessage) (seq : ℕ) (f : Core → Core) (s : CoreManager ui)
      → Grants m s.core (f s.core)
      → Grants m s.core ((update_core ui f >> succeed ui hid seq) s).1.core
  answered m seq f s g =
      becomes m s.core _ (f s.core)
        (update_core-then ui f (succeed ui hid seq) s
          (send-Keeps ui (some hid) (ack seq true none)))
        g

  power-Grants :
      (seq : ℕ) (enabled : Bool) (s : CoreManager ui)
      → IsHolder hid s.core
      → Grants
          (set_drive_power seq enabled)
          s.core
          (Power.set_drive_power ui hid seq enabled s).1.core
  unfolding Power.set_drive_power Power.power replay_one
  power-Grants seq enabled s h =
      rw (holds s h) (answered (set_drive_power seq enabled) seq (Power.power enabled) s (refl, h))

  motion-Grants :
      (seq : ℕ) (action : MotionAction) (s : CoreManager ui)
      → IsHolder hid s.core
      → Grants
          (set_motion_state seq action)
          s.core
          (Power.set_motion_state ui hid seq action s).1.core
  unfolding Power.set_motion_state Power.move replay_one
  motion-Grants seq action s h =
      let m = set_motion_state seq action in
      rw (holds s h)
        (elim (Bool-cases (Power.is_valid_action action s.core.core_state.drive_state)) [
          | inl e ↦ rw e (answered m seq (Power.move action) s (refl, h))
          | inr e ↦ rw e (
              becomes m s.core _ s.core
                (send-Keeps ui (some hid) (ack seq false (some invalid_state)) s) (refl, h))
        ])

  acknowledge-Grants :
      (seq : ℕ) (s : CoreManager ui)
      → IsHolder hid s.core
      → Grants (acknowledge_error seq) s.core (Power.acknowledge_error ui hid seq s).1.core
  unfolding Power.acknowledge_error replay_one
  acknowledge-Grants seq s h =
      let m = acknowledge_error seq in
      rw (holds s h) (elim (Bool-cases (Power.is_errored s.core.core_state.drive_state)) [
        | inl e ↦ rw e (answered m seq (Power.add_action 2) s (refl, h))
        | inr e ↦ rw e (
            becomes m s.core _ s.core
              (send-Keeps ui (some hid) (ack seq false (some invalid_state)) s) (refl, h))
      ])

  upsert-Grants :
      (seq : ℕ) (commands : List MotionCommand) (s : CoreManager ui)
      → IsHolder hid s.core
      → Grants
          (upsert_command_set seq none none commands)
          s.core
          (Sets.upsert_command_set ui hid seq none none commands s).1.core
  unfolding Sets.upsert_command_set Sets.replace_active Sets.activate sync_commands_to_drive
      replay_one
  upsert-Grants seq commands s h =
      let m = upsert_command_set seq none none commands in
      let f = λ (k : Core). Power.add_action 1 (Sets.activate commands k) in
      rw (holds s h) (
        becomes m s.core _ (f s.core)
          (update_core-two ui f none (some hid)
            (λ t. command_set_changed t.core.active_command_set.0 none)
            (λ t. command_result seq true t.core.active_command_set.0) s)
          (refl, h))

  update_one :
      (seq : ℕ) (u : CommandUpdate) (new : MotionCommand × Bool) (s : CoreManager ui)
      → (new.1 ≡ false → new.0 ≡ command_at s.core.active_command_set.1 u.index)
      → IsHolder hid s.core
      → let l =
          ((Sets.apply_update ui u new >> λ t.
          send ui (some hid) (command_result seq true t.core.active_command_set.0) t)
            s).1.core in
        (l.active_command_set.1 ≡ set s.core.active_command_set.1 u.index new.0) × IsHolder hid l
  unfolding Sets.apply_update Sets.activate sync_commands_to_drive
  update_one seq u (command, true) s same h =
      let f = λ (k : Core). Sets.activate (set k.active_command_set.1 u.index command) k in
      rw
        (update_core-two ui f none (some hid)
          (λ t. command_set_changed t.core.active_command_set.0 (some u))
          (λ t. command_result seq true t.core.active_command_set.0) s)
        (refl, h)
  update_one seq u (command, false) s same h =
      let cs = s.core.active_command_set.1 in
      rw
        (
          send-Keeps ui (some hid) (command_result seq true s.core.active_command_set.0) s,
          same refl,
        )
        (sym (set-get_or cs u.index no_command), h)

  update-Grants :
      (seq : ℕ) (u : CommandUpdate) (s : CoreManager ui)
      → IsHolder hid s.core
      → Grants (update_command seq u) s.core (Sets.update_command ui hid seq u s).1.core
  unfolding Sets.update_command replay_one
  update-Grants seq u s h =
      let cs = s.core.active_command_set.1 in
      let old = command_at cs u.index in
      rw (holds s h) (elim (Bool-cases (ltb u.index (length cs))) [
        | inl e ↦
            rw e (
              update_one seq u (apply_fields old u.fields) s (apply_fields_unchanged old u.fields)
                h)
        | inr e ↦ rw (e, send-Keeps ui (some hid) (ack seq false (some out_of_range)) s) (refl, h)
      ])

  -- A message of the user interface, which holds write access: the active commands become what
  -- `replay_one` says, and write access stays.
  pub handle_message-Grants :
      (m : ClientMessage) (s : CoreManager ui)
      → FromUi m
      → IsHolder hid s.core
      → Grants m s.core (handle_message ui hid m s).1.core
  unfolding handle_message
  handle_message-Grants (upsert_command_set seq none none commands) s f h =
      upsert-Grants seq commands s h
  handle_message-Grants (update_command seq u) s f h = update-Grants seq u s h
  handle_message-Grants (set_drive_power seq enabled) s f h = power-Grants seq enabled s h
  handle_message-Grants (set_motion_state seq action) s f h = motion-Grants seq action s h
  handle_message-Grants (acknowledge_error seq) s f h = acknowledge-Grants seq s h
  handle_message-Grants _ s f h = absurd f
