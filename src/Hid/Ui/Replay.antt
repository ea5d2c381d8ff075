-- ===== src/Hid/Ui/Replay.antt =====
-- src/hid/ui_manager.rs: the messages of the user interface carry all that it changes of its commands.
use puddle.Base.{
  ℕ, zero, suc, ◌≡◌, ◌∙◌, refl, Bool, true, false, ◌||◌, none, some, List, [], ◌∷◌, ◌++◌, inl, inr,
  Bool-cases, length, ltb, set, if◌then◌else◌,
}
use puddle.Base.Int.{ℤ, pos, ◌==ℤ◌, ==ℤ_iff, ltb_ℤ, clamp}
use puddle.Messages.{
  MotionCommand, SystemLimits, CoreState, DriveState, off, preparing, paused, moving, errored,
  ClientMessage, upsert_command_set, update_command, apply_field, apply_fields,
}
use puddle.Drive.Connection.{command_at}
use puddle.Hid.Messages.{
  InputReport, HidInputEvent, button_click, button_hold_start, button_hold_end,
}
use puddle.Hid.Ui.{
  Commands, moved, turn_amount, fine_amount, position_update, velocity_update, acceleration_update,
  to_vec, turn_start, turn_end, turn_speed, turn_acceleration, turn, turn_if, turn_all,
}
use puddle.Hid.Ui.Report.{
  Inputs, default_commands, power_click, motion_click, click, input_event, input_events, inputs_of,
}

-- What a message makes of the active commands, when it is granted.
unfoldable pub replay_one : ClientMessage → List MotionCommand → List MotionCommand
replay_one (upsert_command_set _ none _ commands) cs = commands
replay_one (update_command _ u) cs =
    if ltb u.index (length cs)
    then set cs u.index (apply_fields (command_at cs u.index) u.fields).0
    else cs
replay_one _ cs = cs

unfoldable pub replay : List ClientMessage → List MotionCommand → List MotionCommand
replay [] cs = cs
replay (m ∷ messages) cs = replay messages (replay_one m cs)

pub replay-append :
    (xs ys : List ClientMessage) (cs : List MotionCommand)
    → replay (xs ++ ys) cs ≡ replay ys (replay xs cs)
unfolding replay
replay-append [] ys cs = refl
replay-append (x ∷ xs) ys cs = replay-append xs ys (replay_one x cs)

apply_field_new : (new old : ℤ) → (apply_field (some new) old).0 ≡ new
apply_field_new new old = elim (Bool-cases (old ==ℤ new)) [
  | inl e ↦ rw (e, (==ℤ_iff old new).0 e)
  | inr e ↦ rw e
]

module _ (a b : MotionCommand) where
  replay-position_start :
      (p : ℤ) → replay_one (position_update 0 p) (a ∷ b ∷ []) ≡ record a { position = p } ∷ b ∷ []
  unfolding replay_one apply_fields
  replay-position_start p = rw (apply_field_new p a.position)

  replay-position_end :
      (p : ℤ) → replay_one (position_update 1 p) (a ∷ b ∷ []) ≡ a ∷ record b { position = p } ∷ []
  unfolding replay_one apply_fields
  replay-position_end p = rw (apply_field_new p b.position)

  replay-velocity_start :
      (v : ℤ) → replay_one (velocity_update 0 v) (a ∷ b ∷ []) ≡ record a { velocity = v } ∷ b ∷ []
  unfolding replay_one apply_fields
  replay-velocity_start v = rw (apply_field_new v a.velocity)

  replay-velocity_end :
      (v : ℤ) → replay_one (velocity_update 1 v) (a ∷ b ∷ []) ≡ a ∷ record b { velocity = v } ∷ []
  unfolding replay_one apply_fields
  replay-velocity_end v = rw (apply_field_new v b.velocity)

  replay-acceleration_start :
      (x d : ℤ)
      → replay_one (acceleration_update 0 x d) (a ∷ b ∷ [])
        ≡ record a { acceleration = x; deceleration = d } ∷ b ∷ []
  unfolding replay_one apply_fields
  replay-acceleration_start x d =
      rw (apply_field_new x a.acceleration, apply_field_new d a.deceleration)

  replay-acceleration_end :
      (x d : ℤ)
      → replay_one (acceleration_update 1 x d) (a ∷ b ∷ [])
        ≡ a ∷ record b { acceleration = x; deceleration = d } ∷ []
  unfolding replay_one apply_fields
  replay-acceleration_end x d =
      rw (apply_field_new x b.acceleration, apply_field_new d b.deceleration)

-- The messages of a step make of the commands before it the commands after it.
abbrev pub Carries : Commands → Commands × List ClientMessage → Type 0
Carries c after = replay after.1 (to_vec c) ≡ to_vec after.0

either-Carries :
    (t : Bool) (c : Commands) (x y : Commands × List ClientMessage)
    → Carries c x
    → Carries c y
    → Carries c (if t then x else y)
either-Carries true c x y hx hy = hx
either-Carries false c x y hx hy = hy

module _ (limits : SystemLimits) (holding : Bool) where
  turn_start-Carries : (delta : ℤ) (c : Commands) → Carries c (turn_start limits holding delta c)
  unfolding turn_start replay
  turn_start-Carries delta (a, b) =
      let shift = moved limits.position (turn_amount delta) in
      let a' = record a { position = shift a.position } in
      either-Carries (holding || ltb_ℤ b.position a'.position) (a, b) _ _
        (rw (
          replay-position_start a b a'.position,
          replay-position_end a' b (if holding then shift b.position else a'.position),
        ))
        (replay-position_start a b a'.position)

  turn_end-Carries : (delta : ℤ) (c : Commands) → Carries c (turn_end limits holding delta c)
  unfolding turn_end replay
  turn_end-Carries delta (a, b) =
      let shift = moved limits.position (turn_amount delta) in
      let b' = record b { position = shift b.position } in
      either-Carries (holding || ltb_ℤ b'.position a.position) (a, b) _ _
        (rw (
          replay-position_end a b b'.position,
          replay-position_start a b' (if holding then shift a.position else b'.position),
        ))
        (replay-position_end a b b'.position)

  turn-Carries : (i : ℕ) (delta : ℤ) (c : Commands) → Carries c (turn limits holding i delta c)
  unfolding turn turn_speed turn_acceleration replay
  turn-Carries zero delta c = turn_start-Carries delta c
  turn-Carries (suc zero) delta c = turn_end-Carries delta c
  turn-Carries (suc (suc zero)) delta (a, b) =
      let v = moved limits.velocity (turn_amount delta) a.velocity in
      rw (replay-velocity_start a b v, replay-velocity_end (record a { velocity = v }) b v)
  turn-Carries (suc (suc (suc zero))) delta (a, b) =
      let x = moved limits.acceleration (fine_amount delta) a.acceleration in
      let d = clamp x (pos 0) limits.deceleration in
      rw (
        replay-acceleration_start a b x d,
        replay-acceleration_end (record a { acceleration = x; deceleration = d }) b x d,
      )
  turn-Carries (suc (suc (suc (suc n)))) delta c = refl

  turn_if-Carries :
      (i : ℕ) (delta : ℤ) (c : Commands) → Carries c (turn_if limits holding i delta c)
  unfolding turn_if replay
  turn_if-Carries i delta c = either-Carries (delta ==ℤ pos 0) c _ _ refl (turn-Carries i delta c)

  turn_all-Carries :
      (i : ℕ) (deltas : List ℤ) (c : Commands) → Carries c (turn_all limits holding i deltas c)
  unfolding turn_all replay
  turn_all-Carries i [] c = refl
  turn_all-Carries i (delta ∷ deltas) c =
      let now = turn_if limits holding i delta c in
      replay-append now.1 (turn_all limits holding (suc i) deltas now.0).1 (to_vec c)
      ∙ rw (turn_if-Carries i delta c) (turn_all-Carries (suc i) deltas now.0)

-- The messages so far make of the old commands those of the inputs.
abbrev IsCarried : Commands → Inputs → Type 0
IsCarried c i = replay i.messages (to_vec c) ≡ to_vec i.commands

power_click-silent :
    (state : DriveState) (cs : List MotionCommand) → replay (power_click state) cs ≡ cs
unfolding replay replay_one
power_click-silent off cs = refl
power_click-silent preparing cs = refl
power_click-silent paused cs = refl
power_click-silent moving cs = refl
power_click-silent errored cs = refl
power_click-silent _ cs = refl

motion_click-silent :
    (state : DriveState) (cs : List MotionCommand) → replay (motion_click state) cs ≡ cs
unfolding replay replay_one
motion_click-silent paused cs = refl
motion_click-silent moving cs = refl
motion_click-silent _ cs = refl

click-IsCarried :
    (state : DriveState) (encoder : ℕ) (c : Commands) (i : Inputs)
    → IsCarried c i
    → IsCarried c (click state encoder i)
unfolding click replay replay_one
click-IsCarried state zero c i e =
    replay-append i.messages (power_click state) (to_vec c) ∙ power_click-silent state _ ∙ e
click-IsCarried state (suc zero) c i e =
    replay-append i.messages (motion_click state) (to_vec c) ∙ motion_click-silent state _ ∙ e
click-IsCarried state (suc (suc zero)) c i e = e
click-IsCarried state (suc (suc (suc zero))) c i e =
    replay-append i.messages (upsert_command_set 0 none none (to_vec default_commands) ∷ [])
      (to_vec c)
click-IsCarried state (suc (suc (suc (suc n)))) c i e = e

input_event-IsCarried :
    (state : DriveState) (event : HidInputEvent) (c : Commands) (i : Inputs)
    → IsCarried c i
    → IsCarried c (input_event state event i)
unfolding input_event
input_event-IsCarried state (button_click encoder) c i e = click-IsCarried state encoder c i e
input_event-IsCarried state (button_hold_start zero) c i e = e
input_event-IsCarried state (button_hold_end zero) c i e = e
input_event-IsCarried state _ c i e = e

input_events-IsCarried :
    (state : DriveState) (events : List HidInputEvent) (c : Commands) (i : Inputs)
    → IsCarried c i
    → IsCarried c (input_events state events i)
unfolding input_events
input_events-IsCarried state [] c i e = e
input_events-IsCarried state (event ∷ events) c i e =
    input_events-IsCarried state events c (input_event state event i)
      (input_event-IsCarried state event c i e)

-- The messages for a report carry all that the report changes: applied in order to the commands
-- before it, each as the core applies it when it grants it, they give the commands after it.
pub inputs_of-IsCarried :
    (limits : SystemLimits) (core : CoreState) (report : InputReport) (c : Commands)
    (holding : Bool)
    → replay (inputs_of limits core report c holding).messages (to_vec c)
      ≡ to_vec (inputs_of limits core report c holding).commands
unfolding inputs_of
inputs_of-IsCarried limits core report c holding =
    let turned = turn_all limits holding 0 report.encoder_deltas c in
    input_events-IsCarried core.drive_state report.events c
      (record { commands = turned.0; holding_start = holding; messages = turned.1; variables = [] })
      (turn_all-Carries limits holding 0 report.encoder_deltas c)
