-- ===== src/Core/Manager.antt =====
-- src/main.rs: the state of `CoreManager`, `send` and `sync_commands_to_drive`. The user interface of
-- the handheld controller is a parameter, as is the text of warnings and errors.
pub mod Keeps
use Prim.Native.String.{String}
use text.Mathlib.Text
use puddle.Base.{
  ℕ, Bool, true, false, Option, none, some, List, [], ◌∷◌, ◌++◌, ◌==◌, map, ◌≡◌, refl,
  if◌then◌else◌,
}
use puddle.Base.Int.{pos, clamp}
use puddle.Base.Exec.{Result, ok, err, Exec, ◌>>=◌, ◌>>◌, pure, raise}
use puddle.Messages.{
  MotionCommand, SystemLimits, ControllerId, hid, web_socket, CoreState, CoreMessage, ClientMessage,
  disconnected,
}
use puddle.Linmot.Mci.Decode.{ErrorCode}
use puddle.Drive.Connection.{DriveInterface, default_interface}
use puddle.Hid.Messages.{InputReport}

-- What the core asks of `hid::UiManager`.
pub record HidUi : Type 1 where
  pub State : Type 0
  pub Error : Type 0
  pub process_core_message : CoreMessage → Exec State Error (Unit {0})
  pub process_input_report :
      InputReport → SystemLimits → CoreState → Exec State Error (List ClientMessage)

-- The texts of the flags of `WarningFlags` and of an `ErrorCode`.
pub record Texts : Type 0 where
  pub warnings : ℕ → List String
  pub error_code : ErrorCode → String

-- A saved set or the active one: its version, a u64, and its commands.
abbrev pub CommandSet : Type 0
CommandSet = ℕ × List MotionCommand

-- `HashMap<String, (u64, Vec<MotionCommand>)>`, with at most one entry of a name.
abbrev pub SavedSets : Type 0
SavedSets = List (String × CommandSet)

unfoldable pub find_set : String → SavedSets → Option CommandSet
find_set name [] = none
find_set name ((n, set) ∷ sets) = if Text.◌==◌ name n then some set else find_set name sets

unfoldable pub put_set : String → CommandSet → SavedSets → SavedSets
put_set name new [] = (name, new) ∷ []
put_set name new ((n, set) ∷ sets) =
    let rest = put_set name new sets in
    if Text.◌==◌ name n then (n, new) ∷ sets else (n, set) ∷ rest

unfoldable pub remove_set : String → SavedSets → SavedSets
remove_set name [] = []
remove_set name ((n, set) ∷ sets) =
    let rest = remove_set name sets in if Text.◌==◌ name n then sets else (n, set) ∷ rest

-- The channel to the WebSocket thread: what was sent, the newest first, and whether it still
-- receives. No token is for every client.
pub record WebSocketServer : Type 0 where
  pub outbox : List (Option ℕ × CoreMessage)
  pub is_open : Bool

-- What an event leaves but for the controllers' ends.
pub record Core : Type 0 where
  pub limits : SystemLimits
  pub interface : DriveInterface
  pub core_state : CoreState
  pub active_command_set : CommandSet
  pub saved_command_sets : SavedSets

abbrev pub default_core_state : CoreState
default_core_state = record {
  drive_state = disconnected;
  active_command_index = 0;
  actual_position = pos 0;
  demand_position = pos 0;
  demand_velocity = pos 0;
  demand_acceleration = pos 0;
  current_draw = pos 0;
  drive_temperature = pos 0;
  motor_temperature = pos 0;
  warnings = [];
  error_code = none;
  command_set_version = 0;
  write_access_holder = none;
}

abbrev pub new_core : SystemLimits → Core
new_core limits = record {
  limits = limits;
  interface = default_interface;
  core_state = default_core_state;
  active_command_set = (0, []);
  saved_command_sets = [];
}

-- `self.core_state.write_access_holder == Some(controller_id)`
unfoldable pub is_holder : Option ControllerId → ControllerId → Bool
is_holder (some hid) hid = true
is_holder (some (web_socket a)) (web_socket b) = a == b
is_holder _ _ = false

-- For limits that are not negative; under a negative one the source's `clamp` panics, and what is
-- returned here stands for nothing.
abbrev pub clamp_command : SystemLimits → MotionCommand → MotionCommand
clamp_command limits c = record {
  position = clamp c.position (pos 0) limits.position;
  velocity = clamp c.velocity (pos 0) limits.velocity;
  acceleration = clamp c.acceleration (pos 0) limits.acceleration;
  deceleration = clamp c.deceleration (pos 0) limits.deceleration;
}

unfoldable pub sync_commands_to_drive : Core → Core
sync_commands_to_drive k = record k {
  core_state = record k.core_state { command_set_version = k.active_command_set.0 };
  interface = record k.interface {
    commands = record k.interface.commands {
      commands = map (clamp_command k.limits) k.active_command_set.1;
    };
  };
}

abbrev pub set_holder : Option ControllerId → Core → Core
set_holder holder k = record k { core_state = record k.core_state { write_access_holder = holder } }

module _ (ui : HidUi) where
  pub data CoreError : Type 0 where
    hid_not_enabled web_socket_not_enabled web_socket_gone : CoreError
    ui_error : ui.Error → CoreError

  pub record CoreManager : Type 0 where
    pub core : Core
    pub hid_ui : Option ui.State
    pub websocket_server : Option WebSocketServer

  abbrev pub Act : Type 0 → Type 0
  Act A = Exec CoreManager CoreError A

  -- `CoreManager::new`
  unfoldable pub new_manager : SystemLimits → Option ui.State → Option WebSocketServer → CoreManager
  new_manager limits hid_ui server = record {
    core = new_core limits;
    hid_ui = hid_ui;
    websocket_server = server;
  }

  abbrev pub update_core : (Core → Core) → Act (Unit {0})
  update_core f s = (ok tt, record s { core = f s.core })

  -- Runs an operation of the user interface.
  abbrev pub with_ui : {A : Type 0} → Exec ui.State ui.Error A → ui.State → Act A
  with_ui m u s =
      let (r, u') = m u in
      (elim r [ ok a ↦ ok a | err e ↦ err (ui_error e) ], record s { hid_ui = some u' })

  -- `websocket::Server::send`
  abbrev pub server_send : Option ℕ → CoreMessage → WebSocketServer → Act (Unit {0})
  server_send token message server s =
      if server.is_open
      then (
        ok tt,
        record s {
          websocket_server = some (record server { outbox = (token, message) ∷ server.outbox });
        },
      )
      else (err web_socket_gone, s)

  unfoldable pub send_hid : CoreMessage → Act (Unit {0}) → Act (Unit {0})
  send_hid message disabled s = elim s.hid_ui [
    | some u ↦ with_ui (ui.process_core_message message) u s
    | none ↦ disabled s
  ]

  unfoldable pub send_web_socket : Option ℕ → CoreMessage → Act (Unit {0}) → Act (Unit {0})
  send_web_socket token message disabled s = elim s.websocket_server [
    | some server ↦ server_send token message server s
    | none ↦ disabled s
  ]

  unfoldable pub send : Option ControllerId → CoreMessage → Act (Unit {0})
  unfolding send_hid send_web_socket
  send (some hid) message = send_hid message (raise hid_not_enabled)
  send (some (web_socket token)) message =
      send_web_socket (some token) message (raise web_socket_not_enabled)
  send none message = do send_hid message (pure tt); send_web_socket none message (pure tt)
