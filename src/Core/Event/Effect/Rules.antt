-- ===== src/Core/Event/Effect/Rules.antt =====
-- What docs/websocket_protocol.md and `handle_message` of src/main.rs make of each message: who may
-- send it with effect and when, and what it changes then.
use puddle.Base.{
  ℕ, ◌+◌, ◌%◌, ◌^◌, ◌<◌, ◌≡◌, ◌⊎◌, Bool, true, false, Option, none, some, List, [], map, length,
  set,
}
use puddle.Messages.{
  DriveState, off, moving, paused, errored, MotionCommand, MotionAction, start, pause, resume, stop,
  ControllerId, hid, ClientMessage, request_write_access, release_write_access, upsert_command_set,
  update_command, delete_command_set, set_drive_power, set_motion_state, acknowledge_error,
  CommandUpdate, apply_fields,
}
use puddle.Drive.Connection.{command_at, send_action}
use puddle.Core.Manager.{Core, CommandSet, SavedSets, find_set, put_set, remove_set, clamp_command}
use puddle.Core.Event.Effect.{IsHolder}

-- The rule for write access: with the drive off, with no holder, or the handheld controller at any
-- time.
abbrev pub MayTake : ControllerId → Core → Type 0
MayTake id k =
    (k.core_state.drive_state ≡ off) ⊎ ((k.core_state.write_access_holder ≡ none) ⊎ (id ≡ hid))

-- The version that a request is based on, where it names one, is the present one.
abbrev pub IsBase : Option ℕ → ℕ → Type 0
IsBase none version = Unit {0}
IsBase (some base) version = base ≡ version

abbrev pub MaySave : Option ℕ → Option CommandSet → Type 0
MaySave base none = Unit {0}
MaySave base (some (version, _)) = IsBase base version

abbrev pub MayDelete : Option ℕ → Option CommandSet → Type 0
MayDelete base none = ⊥
MayDelete base (some (version, _)) = IsBase base version

abbrev pub IsValidMove : MotionAction → DriveState → Type 0
IsValidMove start d = d ≡ paused
IsValidMove pause d = d ≡ moving
IsValidMove resume d = d ≡ paused
IsValidMove stop d = (d ≡ moving) ⊎ (d ≡ paused)

-- The command of the update with its new fields, and whether one of them is new.
abbrev pub updated : CommandUpdate → Core → MotionCommand × Bool
updated u k = apply_fields (command_at k.active_command_set.1 u.index) u.fields

-- When a message changes the core.
abbrev pub May : ControllerId → ClientMessage → Core → Type 0
May id (request_write_access _) k = MayTake id k
May id (release_write_access _) k = IsHolder id k × Unit {0}
May id (upsert_command_set _ none base _) k = IsHolder id k × IsBase base k.active_command_set.0
May id (upsert_command_set _ (some name) base _) k =
    MaySave base (find_set name k.saved_command_sets)
May id (update_command _ u) k =
    IsHolder id k × ((u.index < length k.active_command_set.1) × ((updated u k).1 ≡ true))
May id (delete_command_set _ none base) k = IsHolder id k × IsBase base k.active_command_set.0
May id (delete_command_set _ (some name) base) k =
    MayDelete base (find_set name k.saved_command_sets)
May id (set_drive_power _ _) k = IsHolder id k × Unit {0}
May id (set_motion_state _ action) k = IsHolder id k × IsValidMove action k.core_state.drive_state
May id (acknowledge_error _) k = IsHolder id k × (k.core_state.drive_state ≡ errored)
May id _ k = ⊥

abbrev pub with_holder : Option ControllerId → Core → Core
with_holder holder k = record k {
  core_state = record k.core_state { write_access_holder = holder };
}

abbrev pub next : ℕ → ℕ
next version = (version + 1) % 2 ^ 64

-- A new active set: the next version, announced too, and the commands, cut to the limits for the
-- drive.
abbrev pub with_active : List MotionCommand → Core → Core
with_active commands k = record k {
  active_command_set = (next k.active_command_set.0, commands);
  core_state = record k.core_state { command_set_version = next k.active_command_set.0 };
  interface = record k.interface {
    commands = record k.interface.commands { commands = map (clamp_command k.limits) commands };
  };
}

abbrev pub with_saved : SavedSets → Core → Core
with_saved sets k = record k { saved_command_sets = sets }

abbrev pub saved_version : Option CommandSet → ℕ
saved_version none = 1
saved_version (some (version, _)) = next version

abbrev pub with_enabled : Bool → Bool → Core → Core
with_enabled power motion k = record k {
  interface = record k.interface {
    commands = record k.interface.commands { power_enabled = power; motion_enabled = motion };
  };
}

abbrev pub with_motion : Bool → Core → Core
with_motion motion k = with_enabled k.interface.commands.power_enabled motion k

abbrev pub with_action : ℕ → Core → Core
with_action action k = record k {
  interface = record k.interface { actions = send_action action k.interface.actions };
}

-- Motion goes off with the power, and does not come on with it.
abbrev pub after_power : Bool → Core → Core
after_power true k = with_enabled true k.interface.commands.motion_enabled k
after_power false k = with_enabled false false k

-- The action 1 starts the commands from the first.
abbrev pub after_motion : MotionAction → Core → Core
after_motion start k = with_action 1 (with_motion true k)
after_motion pause k = with_motion false k
after_motion resume k = with_motion true k
after_motion stop k = with_action 1 (with_motion false k)

-- What a message makes of the core when it changes it; the action 2 acknowledges an error.
abbrev pub After : ControllerId → ClientMessage → Core → Core
After id (request_write_access _) k = with_holder (some id) k
After id (release_write_access _) k = with_holder none k
After id (upsert_command_set _ none _ commands) k = with_action 1 (with_active commands k)
After id (upsert_command_set _ (some name) _ commands) k =
    with_saved
      (put_set name (saved_version (find_set name k.saved_command_sets), commands)
        k.saved_command_sets)
      k
After id (update_command _ u) k = with_active (set k.active_command_set.1 u.index (updated u k).0) k
After id (delete_command_set _ none _) k = with_action 1 (with_active [] k)
After id (delete_command_set _ (some name) _) k =
    with_saved (remove_set name k.saved_command_sets) k
After id (set_drive_power _ enabled) k = after_power enabled k
After id (set_motion_state _ action) k = after_motion action k
After id (acknowledge_error _) k = with_action 2 k
After id _ k = k

-- The one where the condition holds, else the other.
abbrev pub Settles : Type 0 → Core → Core → Core → Type 0
Settles P changed k l = (P × (l ≡ changed)) ⊎ ((P → ⊥) × (l ≡ k))
