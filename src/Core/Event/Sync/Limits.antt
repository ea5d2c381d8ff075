-- ===== src/Core/Event/Sync/Limits.antt =====
-- What the drive reads after any sequence of events, and what the end of a controller does.
use puddle.Base.{◌≡◌, refl, true, false, Option, none, some, List, [], ◌∷◌, map, All, arith}
use puddle.Base.Int.{ℤ, pos, ◌≤ℤ◌, clamp}
use puddle.Messages.{MotionCommand, SystemLimits, ControllerId, write_access_changed}
use puddle.Drive.Connection.{DriveFeedback}
use puddle.Core.Manager.{
  HidUi, Texts, Core, CoreManager, WebSocketServer, is_holder, set_holder, send, clamp_command,
  new_manager, sync_commands_to_drive,
}
use puddle.Core.Manager.Keeps.{send-Keeps, update_core-then, is_holder_self}
use puddle.Core.Sets.{activate}
use puddle.Core.Power.{set_enabled, power, move}
use puddle.Core.Event.{
  CoreEvent, controller_disconnected, handle_event, controller_gone, follow_drive, run,
}
use puddle.Core.Event.Effect.{
  Effect, IsHolder, stays, takes, saves, releases, replaces, updates, powers, moves, acknowledges,
}
use puddle.Core.Event.Sync.{run-invariant}

-- The drive reads the active set, cut to the limits, and its version is the one announced.
pub record IsSynced (limits : SystemLimits) (k : Core) : Type 0 where
  pub limits_kept : k.limits ≡ limits
  pub commands : k.interface.commands.commands ≡ map (clamp_command limits) k.active_command_set.1
  pub version : k.core_state.command_set_version ≡ k.active_command_set.0

activate-IsSynced :
    (limits : SystemLimits) (k : Core) (commands : List MotionCommand)
    → k.limits ≡ limits
    → IsSynced limits (activate commands k)
unfolding activate sync_commands_to_drive
activate-IsSynced limits k commands e = record { limits_kept = e; commands = rw e; version = refl }

module _ (limits : SystemLimits) where
  Effect-IsSynced :
      (id : ControllerId) (k l : Core) → Effect id k l → IsSynced limits k → IsSynced limits l
  unfolding power move
  Effect-IsSynced id k l (stays e) h = rw e h
  Effect-IsSynced id k l (takes c e) h =
      rw e (record { limits_kept = h.limits_kept; commands = h.commands; version = h.version })
  Effect-IsSynced id k l (saves sets e) h =
      rw e (record { limits_kept = h.limits_kept; commands = h.commands; version = h.version })
  Effect-IsSynced id k l (releases i e) h =
      rw e (record { limits_kept = h.limits_kept; commands = h.commands; version = h.version })
  Effect-IsSynced id k l (replaces i commands e) h =
      let a = activate-IsSynced limits k commands h.limits_kept in
      rw e (record { limits_kept = a.limits_kept; commands = a.commands; version = a.version })
  Effect-IsSynced id k l (updates i commands e) h =
      rw e (activate-IsSynced limits k commands h.limits_kept)
  Effect-IsSynced id k l (powers i enabled e) h =
      rw e (record { limits_kept = h.limits_kept; commands = h.commands; version = h.version })
  Effect-IsSynced id k l (moves i action valid e) h =
      rw e (record { limits_kept = h.limits_kept; commands = h.commands; version = h.version })
  Effect-IsSynced id k l (acknowledges i e) h =
      rw e (record { limits_kept = h.limits_kept; commands = h.commands; version = h.version })

  gone-IsSynced :
      (k : Core) → IsSynced limits k → IsSynced limits (set_enabled false false (set_holder none k))
  gone-IsSynced k h = record {
    limits_kept = h.limits_kept;
    commands = h.commands;
    version = h.version;
  }

  follow-IsSynced :
      (texts : Texts) (f : DriveFeedback) (k : Core)
      → IsSynced limits k
      → IsSynced limits (follow_drive texts f k)
  unfolding follow_drive
  follow-IsSynced texts f k h = record {
    limits_kept = h.limits_kept;
    commands = h.commands;
    version = h.version;
  }

-- From the start, and whatever events follow, even where one ends with an error, the drive's
-- commands are the active command set cut to the limits that the program started with, and the
-- version in the core's state is that of the active set.
pub run-IsSynced :
    (ui : HidUi) (texts : Texts) (limits : SystemLimits) (hid_ui : Option ui.State)
    (server : Option WebSocketServer) (events : List CoreEvent)
    → IsSynced limits (run ui texts events (new_manager ui limits hid_ui server)).1.core
unfolding new_manager
run-IsSynced ui texts limits hid_ui server events =
    run-invariant (IsSynced limits) (Effect-IsSynced limits) (gone-IsSynced limits)
      (follow-IsSynced limits) ui texts events (new_manager ui limits hid_ui server)
      (record { limits_kept = refl; commands = refl; version = refl })

abbrev pub Within : ℤ → ℤ → Type 0
Within limit a = (pos 0 ≤ℤ a) × (a ≤ℤ limit)

pub record WithinLimits (limits : SystemLimits) (c : MotionCommand) : Type 0 where
  pub position : Within limits.position c.position
  pub velocity : Within limits.velocity c.velocity
  pub acceleration : Within limits.acceleration c.acceleration
  pub deceleration : Within limits.deceleration c.deceleration

-- The limits are not negative.
pub record IsSound (limits : SystemLimits) : Type 0 where
  pub position : pos 0 ≤ℤ limits.position
  pub velocity : pos 0 ≤ℤ limits.velocity
  pub acceleration : pos 0 ≤ℤ limits.acceleration
  pub deceleration : pos 0 ≤ℤ limits.deceleration

clamp-Within : (a limit : ℤ) → pos 0 ≤ℤ limit → Within limit (clamp a (pos 0) limit)
clamp-Within a limit h = ground arith

clamp-All :
    (limits : SystemLimits) (commands : List MotionCommand)
    → IsSound limits
    → All (WithinLimits limits) (map (clamp_command limits) commands)
clamp-All limits [] h = tt
clamp-All limits (c ∷ commands) h = (
  record {
    position = clamp-Within c.position limits.position h.position;
    velocity = clamp-Within c.velocity limits.velocity h.velocity;
    acceleration = clamp-Within c.acceleration limits.acceleration h.acceleration;
    deceleration = clamp-Within c.deceleration limits.deceleration h.deceleration;
  },
  clamp-All limits commands h,
)

-- Where the limits are not negative, every command that the drive reads is within them, after
-- whatever events.
pub run-WithinLimits :
    (ui : HidUi) (texts : Texts) (limits : SystemLimits) (hid_ui : Option ui.State)
    (server : Option WebSocketServer) (events : List CoreEvent)
    → IsSound limits
    → All
        (WithinLimits limits)
        (run ui texts events
          (new_manager ui limits hid_ui server)).1.core.interface.commands.commands
run-WithinLimits ui texts limits hid_ui server events h =
    let synced = run-IsSynced ui texts limits hid_ui server events in
    rw synced.commands (clamp-All limits _ h)

-- What is left when the controller that holds write access goes.
pub record IsStopped (k l : Core) : Type 0 where
  pub power : l.interface.commands.power_enabled ≡ false
  pub motion : l.interface.commands.motion_enabled ≡ false
  pub holder : l.core_state.write_access_holder ≡ none
  pub active : l.active_command_set ≡ k.active_command_set

-- When the holder of write access disconnects, power and motion are off and no one holds write
-- access, whether or not the controllers that are left can be told; the active set stays.
pub handle_event-disconnect :
    (ui : HidUi) (texts : Texts) (id : ControllerId) (s : CoreManager ui)
    → IsHolder id s.core
    → IsStopped s.core (handle_event ui texts (controller_disconnected id) s).1.core
unfolding handle_event controller_gone
handle_event-disconnect ui texts id s h =
    let tell = send ui none (write_access_changed none (some id)) in
    let told =
      update_core-then ui (λ k. set_enabled false false (set_holder none k)) tell s
        (send-Keeps ui none (write_access_changed none (some id))) in
    let held : is_holder s.core.core_state.write_access_holder id ≡ true =
      rw h (is_holder_self id) in
    rw (held, told) (record { power = refl; motion = refl; holder = refl; active = refl })
