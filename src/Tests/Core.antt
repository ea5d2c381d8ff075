-- ===== src/Tests/Core.antt =====
-- Concrete sequences of events.
use puddle.Base.{refl, true, Option, none, some, List, [], ◌∷◌, All, arith}
use puddle.Base.Exec.{pure}
use puddle.Base.Int.{pos}
use puddle.Messages.{
  MotionCommand, SystemLimits, web_socket, request_write_access, upsert_command_set,
  set_drive_power,
}
use puddle.Core.Manager.{
  HidUi, Texts, CoreManager, WebSocketServer, new_core, new_manager, set_holder,
}
use puddle.Core.Event.{
  CoreEvent, controller_disconnected, message, handle_message, handle_event, run,
}
use puddle.Core.Event.Reply.{IsAnswered, serving}
use puddle.Core.Event.Reply.Handlers.{handle_message-IsAnswered}
use puddle.Core.Event.Effect.Rules.{May, After, Settles}
use puddle.Core.Event.Effect.Exact.{handle_message-Settles}
use puddle.Core.Event.Effect.Rights.{
  SameDrive, HolderStep, VersionStep, handle_message-SameDrive, handle_message-HolderStep,
  handle_message-VersionStep,
}
use puddle.Core.Event.Sync.Limits.{
  IsSynced, IsSound, IsStopped, WithinLimits, run-IsSynced, run-WithinLimits,
  handle_event-disconnect,
}

-- A user interface that does nothing.
abbrev no_ui : HidUi
no_ui = record {
  State = Unit;
  Error = Unit;
  process_core_message = λ m. pure tt;
  process_input_report = λ report limits core. pure [];
}

abbrev pub texts : Texts
texts = record { warnings = λ _. []; error_code = λ _. "error" }

abbrev pub limits : SystemLimits
limits = record {
  position = pos 3600000;
  velocity = pos 2500000;
  acceleration = pos 1500000;
  deceleration = pos 1500000;
}

pub limits-IsSound : IsSound limits
limits-IsSound = record {
  position = omega arith;
  velocity = omega arith;
  acceleration = omega arith;
  deceleration = omega arith;
}

abbrev server : Option WebSocketServer
server = some (record { outbox = []; is_open = true })

-- Beyond the limits in its position.
abbrev far_command : MotionCommand
far_command = record {
  position = pos 9000000;
  velocity = pos 1000;
  acceleration = pos 1000;
  deceleration = pos 1000;
}

abbrev events : List CoreEvent
events =
    message (web_socket 2) (request_write_access 1)
    ∷ message (web_socket 2) (upsert_command_set 2 none none (far_command ∷ []))
    ∷ message (web_socket 2) (set_drive_power 3 true)
    ∷ []

run-IsSynced_example :
    IsSynced limits (run no_ui texts events (new_manager no_ui limits none server)).1.core
run-IsSynced_example = run-IsSynced no_ui texts limits none server events

run-WithinLimits_example :
    All
      (WithinLimits limits)
      (run no_ui texts events
        (new_manager no_ui limits none server)).1.core.interface.commands.commands
run-WithinLimits_example = run-WithinLimits no_ui texts limits none server events limits-IsSound

-- The client 2 holds write access.
abbrev held : CoreManager no_ui
held = record {
  core = set_holder (some (web_socket 2)) (new_core limits);
  hid_ui = none;
  websocket_server = server;
}

handle_message-Settles_example :
    Settles
      (May (web_socket 2) (set_drive_power 3 true) held.core)
      (After (web_socket 2) (set_drive_power 3 true) held.core)
      held.core
      (handle_message no_ui (web_socket 2) (set_drive_power 3 true) held).1.core
handle_message-Settles_example =
    handle_message-Settles no_ui (web_socket 2) (set_drive_power 3 true) held

handle_message-SameDrive_example :
    SameDrive held.core (handle_message no_ui (web_socket 5) (set_drive_power 3 true) held).1.core
handle_message-SameDrive_example =
    handle_message-SameDrive no_ui (web_socket 5) (set_drive_power 3 true) held (λ e. cc)

handle_message-HolderStep_example :
    HolderStep
      (web_socket 5)
      held.core
      (handle_message no_ui (web_socket 5) (request_write_access 3) held).1.core
handle_message-HolderStep_example =
    handle_message-HolderStep no_ui (web_socket 5) (request_write_access 3) held

handle_message-VersionStep_example :
    VersionStep
      (web_socket 2)
      held.core
      (handle_message no_ui
        (web_socket 2)
        (upsert_command_set 2 none none (far_command ∷ []))
        held).1.core
handle_message-VersionStep_example =
    handle_message-VersionStep no_ui (web_socket 2)
      (upsert_command_set 2 none none (far_command ∷ [])) held

handle_event-disconnect_example :
    IsStopped held.core
      (handle_event no_ui texts (controller_disconnected (web_socket 2)) held).1.core
handle_event-disconnect_example = handle_event-disconnect no_ui texts (web_socket 2) held refl

handle_message-IsAnswered_example :
    IsAnswered no_ui 2 3 []
      (handle_message no_ui (web_socket 2) (set_drive_power 3 true) (serving no_ui held.core []))
handle_message-IsAnswered_example =
    handle_message-IsAnswered no_ui 2 (set_drive_power 3 true) held.core [] limits-IsSound
