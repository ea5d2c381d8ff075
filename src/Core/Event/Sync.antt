-- ===== src/Core/Event/Sync.antt =====
-- What holds of the core after any sequence of events.
pub mod Limits
use puddle.Base.{
  ℕ, ◌≡◌, refl, sym, subst, Bool, true, false, Option, none, some, List, [], ◌∷◌, map, All,
  Bool-cases, Option-cases, inl, inr, arith, leb, ltb,
}
use puddle.Base.Exec.{Result, ok, err, continue, ◌>>=◌, ◌>>◌}
use puddle.Base.Int.{ℤ, pos, ◌≤ℤ◌, clamp}
use puddle.Messages.{
  MotionCommand, SystemLimits, ControllerId, hid, ClientMessage, CoreMessage, state,
  write_access_changed,
}
use puddle.Core.Manager.{
  HidUi, Texts, Core, CoreManager, CoreError, ui_error, Act, WebSocketServer, is_holder, set_holder,
  with_ui, update_core, send, clamp_command, new_core, new_manager, sync_commands_to_drive,
}
use puddle.Core.Manager.Keeps.{send-Keeps, update_core-then}
use puddle.Core.Sets.{activate}
use puddle.Core.Power.{set_enabled, power, move, is_valid_action}
use puddle.Drive.Connection.{DriveFeedback}
use puddle.Hid.Messages.{InputReport}
use puddle.Core.Event.{
  CoreEvent, controller_connected, controller_disconnected, message, drive_state_updated,
  hid_input_report, handle_message, handle_messages, handle_input, handle_event, controller_gone,
  follow_drive, run,
}
use puddle.Core.Event.Effect.{
  Effect, stays, takes, saves, releases, replaces, updates, powers, moves, acknowledges,
}
use puddle.Core.Event.Effect.Handlers.{handle_message-Effect}

-- A property of the core that every step keeps holds after any sequence of events, even after one
-- that ends with an error.
module _ (P : Core → Type 0) (effect : (id : ControllerId) (k l : Core) → Effect id k l → P k → P l)
    (gone : (k : Core) → P k → P (set_enabled false false (set_holder none k)))
    (follow : (texts : Texts) (f : DriveFeedback) (k : Core) → P k → P (follow_drive texts f k))
    (ui : HidUi) where
  abbrev KeepsIt : Act ui (Unit {0}) → Type 0
  KeepsIt m = (s : CoreManager ui) → P s.core → P (m s).1.core

  continue-KeepsIt :
      (r : Result (CoreError ui) (Unit {0})) (n : Act ui (Unit {0})) (s : CoreManager ui)
      → KeepsIt n
      → P s.core
      → P (continue r (λ _. n) s).1.core
  continue-KeepsIt (ok a) n s h p = h s p
  continue-KeepsIt (err a) n s h p = p

  sends : (d : Option ControllerId) (m : CoreMessage) → KeepsIt (send ui d m)
  sends d m s p = subst P (sym (send-Keeps ui d m s)) p

  update-KeepsIt :
      (f : Core → Core) (m : Act ui (Unit {0})) (s : CoreManager ui)
      → KeepsIt m
      → P (f s.core)
      → P ((update_core ui f >> m) s).1.core
  update-KeepsIt f m s h p = h (record s { core = f s.core }) p

  handles : (id : ControllerId) (m : ClientMessage) → KeepsIt (handle_message ui id m)
  handles id m s p =
      effect id s.core (handle_message ui id m s).1.core (handle_message-Effect ui id m s) p

  handles_all : (messages : List ClientMessage) → KeepsIt (handle_messages ui messages)
  unfolding handle_messages
  handles_all [] s p = p
  handles_all (m ∷ messages) s p =
      continue-KeepsIt (handle_message ui hid m s).0 (handle_messages ui messages)
        (handle_message ui hid m s).1 (handles_all messages) (handles hid m s p)

  then_handles :
      (r : Result (CoreError ui) (List ClientMessage)) (s : CoreManager ui)
      → P s.core
      → P (continue r (handle_messages ui) s).1.core
  then_handles (ok messages) s p = handles_all messages s p
  then_handles (err e) s p = p

  handles_input : (report : InputReport) → KeepsIt (handle_input ui report)
  unfolding handle_input
  handles_input report s p = elim (Option-cases s.hid_ui) [
    | inl e ↦ rw (e, handle_input) p
    | inr (u, e) ↦ rw (e, handle_input) (then_handles _ (record s { hid_ui = some _ }) p)
  ]

  goes : (id : ControllerId) → KeepsIt (controller_gone ui id)
  unfolding controller_gone
  goes id s p = elim (Bool-cases (is_holder s.core.core_state.write_access_holder id)) [
    | inl e ↦ rw e (
        update-KeepsIt (λ k. set_enabled false false (set_holder none k))
          (send ui none (write_access_changed none (some id))) s
          (sends none (write_access_changed none (some id))) (gone s.core p))
    | inr e ↦ rw e p
  ]

  handles_event : (texts : Texts) (event : CoreEvent) → KeepsIt (handle_event ui texts event)
  unfolding handle_event
  handles_event texts (controller_connected id) s p = sends (some id) _ s p
  handles_event texts (controller_disconnected id) s p = goes id s p
  handles_event texts (message id m) s p = handles id m s p
  handles_event texts (drive_state_updated f) s p =
      update-KeepsIt (follow_drive texts f) (λ t. send ui none (state none t.core.core_state) t) s
        (λ t. sends none (state none t.core.core_state) t) (follow texts f s.core p)
  handles_event texts (hid_input_report report) s p = handles_input report s p

  pub run-invariant : (texts : Texts) (events : List CoreEvent) → KeepsIt (run ui texts events)
  unfolding run
  run-invariant texts [] s p = p
  run-invariant texts (event ∷ events) s p =
      continue-KeepsIt (handle_event ui texts event s).0 (run ui texts events)
        (handle_event ui texts event s).1 (run-invariant texts events)
        (handles_event texts event s p)
