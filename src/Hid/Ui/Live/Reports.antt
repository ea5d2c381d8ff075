-- ===== src/Hid/Ui/Live/Reports.antt =====
-- An input report reaches the core: the messages of the user interface, and what the core then has.
use puddle.Base.{
  ℕ, zero, suc, ◌≡◌, ◌∙◌, ap, refl, Bool, true, false, ◌||◌, none, List, [], ◌∷◌, ◌++◌, inl, inr,
  All, All-append, Bool-cases, if◌then◌else◌,
}
use puddle.Base.Exec.{ok}
use puddle.Base.Int.{ℤ, pos, ◌==ℤ◌, ltb_ℤ}
use puddle.Messages.{
  DriveState, off, preparing, paused, moving, errored, SystemLimits, CoreState, hid, ClientMessage,
  request_write_access, upsert_command_set,
}
use puddle.Core.Manager.{CoreManager, is_holder}
use puddle.Core.Event.{handle_message, handle_messages}
use puddle.Core.Event.Effect.{IsHolder}
use puddle.Hid.Messages.{
  VariableEntry, InputReport, HidInputEvent, button_click, button_hold_start, button_hold_end,
}
use puddle.Hid.Ui.{
  Commands, to_vec, moved, turn_amount, turn_start, turn_end, turn_speed, turn_acceleration, turn,
  turn_if, turn_all,
}
use puddle.Hid.Ui.Variables.{Scale, retain, screen_variables}
use puddle.Hid.Ui.Report.{
  UiManager, Inputs, power_click, motion_click, click, input_event, input_events, inputs_of,
  send_report, send_variables, show, process_input_report, hid_ui,
}
use puddle.Hid.Ui.Replay.{replay}
use puddle.Hid.Ui.Live.{IsReached, Live}
use puddle.Hid.Ui.Live.Answers.{handle_message-Fine}
use puddle.Hid.Ui.Live.Granted.{FromUi, handle_message-Grants}

-- Of what an encoder does, the messages.
abbrev Sends : Commands × List ClientMessage → Type 0
Sends after = All FromUi after.1

either-Sends :
    (t : Bool) (x y : Commands × List ClientMessage)
    → Sends x
    → Sends y
    → Sends (if t then x else y)
either-Sends true x y hx hy = hx
either-Sends false x y hx hy = hy

module _ (limits : SystemLimits) (holding : Bool) where
  turn-Sends : (i : ℕ) (delta : ℤ) (c : Commands) → Sends (turn limits holding i delta c)
  unfolding turn turn_start turn_end turn_speed turn_acceleration
  turn-Sends zero delta (a, b) =
      elim (Bool-cases
        (holding || ltb_ℤ b.position (moved limits.position (turn_amount delta) a.position))) [
          | inl e ↦ rw e (tt, (tt, tt))
          | inr e ↦ rw e (tt, tt)
        ]
  turn-Sends (suc zero) delta (a, b) =
      elim (Bool-cases
        (holding || ltb_ℤ (moved limits.position (turn_amount delta) b.position) a.position)) [
          | inl e ↦ rw e (tt, (tt, tt))
          | inr e ↦ rw e (tt, tt)
        ]
  turn-Sends (suc (suc zero)) delta (a, b) = (tt, (tt, tt))
  turn-Sends (suc (suc (suc zero))) delta (a, b) = (tt, (tt, tt))
  turn-Sends (suc (suc (suc (suc n)))) delta c = tt

  turn_all-Sends :
      (i : ℕ) (deltas : List ℤ) (c : Commands) → Sends (turn_all limits holding i deltas c)
  unfolding turn_all turn_if
  turn_all-Sends i [] c = tt
  turn_all-Sends i (delta ∷ deltas) c =
      let now = turn_if limits holding i delta c in
      All-append FromUi now.1 (turn_all limits holding (suc i) deltas now.0).1
        (either-Sends (delta ==ℤ pos 0) (c, []) (turn limits holding i delta c) tt
          (turn-Sends i delta c))
        (turn_all-Sends (suc i) deltas now.0)

power_click-FromUi : (state : DriveState) → All FromUi (power_click state)
power_click-FromUi off = (tt, tt)
power_click-FromUi preparing = (tt, tt)
power_click-FromUi paused = (tt, tt)
power_click-FromUi moving = (tt, tt)
power_click-FromUi errored = (tt, tt)
power_click-FromUi _ = tt

motion_click-FromUi : (state : DriveState) → All FromUi (motion_click state)
motion_click-FromUi paused = (tt, tt)
motion_click-FromUi moving = (tt, tt)
motion_click-FromUi _ = tt

input_event-FromUi :
    (state : DriveState) (event : HidInputEvent) (i : Inputs)
    → All FromUi i.messages
    → All FromUi (input_event state event i).messages
unfolding input_event click
input_event-FromUi state (button_click zero) i h =
    All-append FromUi i.messages (power_click state) h (power_click-FromUi state)
input_event-FromUi state (button_click (suc zero)) i h =
    All-append FromUi i.messages (motion_click state) h (motion_click-FromUi state)
input_event-FromUi state (button_click (suc (suc zero))) i h = h
input_event-FromUi state (button_click (suc (suc (suc zero)))) i h =
    All-append FromUi i.messages _ h (tt, tt)
input_event-FromUi state (button_hold_start zero) i h = h
input_event-FromUi state (button_hold_end zero) i h = h
input_event-FromUi state _ i h = h

input_events-FromUi :
    (state : DriveState) (events : List HidInputEvent) (i : Inputs)
    → All FromUi i.messages
    → All FromUi (input_events state events i).messages
unfolding input_events
input_events-FromUi state [] i h = h
input_events-FromUi state (event ∷ events) i h =
    input_events-FromUi state events (input_event state event i)
      (input_event-FromUi state event i h)

pub inputs_of-FromUi :
    (limits : SystemLimits) (core : CoreState) (report : InputReport) (c : Commands)
    (holding : Bool)
    → All FromUi (inputs_of limits core report c holding).messages
unfolding inputs_of
inputs_of-FromUi limits core report c holding =
    let turned = turn_all limits holding 0 report.encoder_deltas c in
    input_events-FromUi core.drive_state report.events
      (record { commands = turned.0; holding_start = holding; messages = turned.1; variables = [] })
      (turn_all-Sends limits holding 0 report.encoder_deltas c)

-- Sending to a controller that can be reached.
send_variables-IsReached :
    (variables : List VariableEntry) (c : Commands) (u : UiManager)
    → IsReached c u
    → ((send_variables variables u).0 ≡ ok tt) × IsReached c (send_variables variables u).1
unfolding send_variables send_report
send_variables-IsReached [] c u h = (refl, h)
send_variables-IsReached (v ∷ variables) c u h =
    rw h.is_open (refl, record { is_open = refl; commands = h.commands })

show-IsReached :
    (scale : Scale) (limits : SystemLimits) (core : CoreState) (i : Inputs) (c : Commands)
    (u : UiManager)
    → IsReached c u
    → ((show scale limits core i u).0 ≡ ok tt) × IsReached i.commands (show scale limits core i u).1
unfolding show
show-IsReached scale limits core i c u h =
    let kept =
      retain (i.variables ++ screen_variables scale limits core i.commands i.holding_start)
        u.last_sent_variables in
    send_variables-IsReached kept.0 i.commands
      (record u {
        motion_commands = i.commands;
        holding_start = i.holding_start;
        last_sent_variables = kept.1;
      })
      (record { is_open = h.is_open; commands = refl })

module _ (scale : Scale) (report : InputReport) (limits : SystemLimits) (core : CoreState)
    (c : Commands) (u : UiManager) (h : IsReached c u) where
  pub report_held :
      is_holder core.write_access_holder hid ≡ true
      → ((process_input_report scale report limits core u).0
          ≡ ok (inputs_of limits core report u.motion_commands u.holding_start).messages)
        × IsReached
            (inputs_of limits core report u.motion_commands u.holding_start).commands
            (process_input_report scale report limits core u).1
  unfolding process_input_report
  report_held e =
      let i = inputs_of limits core report u.motion_commands u.holding_start in
      let (sent, reached) = show-IsReached scale limits core i c u h in rw (e, sent) (refl, reached)

  pub report_claims :
      is_holder core.write_access_holder hid ≡ false
      → process_input_report scale report limits core u ≡ (
        ok (
            request_write_access 0
            ∷ upsert_command_set 0 none none (to_vec u.motion_commands)
            ∷ []),
        u,
      )
  unfolding process_input_report
  report_claims e = rw e

module _ (scale : Scale) where
  -- The messages of the user interface, which holds write access, all succeed.
  pub handle_messages-held :
      (messages : List ClientMessage) (c : Commands) (s : CoreManager (hid_ui scale))
      → All FromUi messages
      → Live scale c s
      → IsHolder hid s.core
      → let after = handle_messages (hid_ui scale) messages s in
        (after.0 ≡ ok tt)
        × (Live scale c after.1
            × ((after.1.core.active_command_set.1 ≡ replay messages s.core.active_command_set.1)
                × IsHolder hid after.1.core))
  unfolding handle_messages replay
  handle_messages-held [] c s f live h = (refl, (live, (refl, h)))
  handle_messages-held (m ∷ messages) c s f live h =
      let (fine, live') = handle_message-Fine scale hid m c s live in
      let (active, h') = handle_message-Grants (hid_ui scale) m s f.0 h in
      let (e, (live'', (active', h''))) =
        handle_messages-held messages c (handle_message (hid_ui scale) hid m s).1 f.1 live' h' in
      rw fine (e, (live'', (active' ∙ ap (replay messages) active, h'')))
