-- ===== src/Core/Event/Effect/Rights.antt =====
-- What a controller without write access cannot do, and what a change of the active set shows.
use puddle.Base.{◌≡◌, ◌⊎◌, refl, none, some, inl, inr}
use puddle.Drive.Words.{add64}
use puddle.Messages.{ControllerId, ClientMessage}
use puddle.Core.Manager.{HidUi, Core, CoreManager, sync_commands_to_drive}
use puddle.Core.Sets.{activate}
use puddle.Core.Power.{power, move}
use puddle.Core.Event.{handle_message}
use puddle.Core.Event.Effect.{
  Effect, IsHolder, stays, takes, saves, releases, replaces, updates, powers, moves, acknowledges,
}
use puddle.Core.Event.Effect.Rules.{MayTake}
use puddle.Core.Event.Effect.Conditions.{can_take-MayTake}
use puddle.Core.Event.Effect.Handlers.{handle_message-Effect}

-- The active set, what the drive reads, and the version that is announced.
pub record SameDrive (k l : Core) : Type 0 where
  pub interface : l.interface ≡ k.interface
  pub active : l.active_command_set ≡ k.active_command_set
  pub version : l.core_state.command_set_version ≡ k.core_state.command_set_version

Effect-SameDrive :
    (id : ControllerId) (k l : Core) → Effect id k l → (IsHolder id k → ⊥) → SameDrive k l
Effect-SameDrive id k l (stays e) barred =
    rw e (record { interface = refl; active = refl; version = refl })
Effect-SameDrive id k l (takes c e) barred =
    rw e (record { interface = refl; active = refl; version = refl })
Effect-SameDrive id k l (saves sets e) barred =
    rw e (record { interface = refl; active = refl; version = refl })
Effect-SameDrive id k l (releases h e) barred = absurd (barred h)
Effect-SameDrive id k l (replaces h commands e) barred = absurd (barred h)
Effect-SameDrive id k l (updates h commands e) barred = absurd (barred h)
Effect-SameDrive id k l (powers h enabled e) barred = absurd (barred h)
Effect-SameDrive id k l (moves h action valid e) barred = absurd (barred h)
Effect-SameDrive id k l (acknowledges h e) barred = absurd (barred h)

-- The holder stays, or a controller that may takes write access, or the holder gives it up.
abbrev pub HolderStep : ControllerId → Core → Core → Type 0
HolderStep id k l =
    (l.core_state.write_access_holder ≡ k.core_state.write_access_holder)
    ⊎ ((MayTake id k × (l.core_state.write_access_holder ≡ some id))
        ⊎ (IsHolder id k × (l.core_state.write_access_holder ≡ none)))

Effect-HolderStep : (id : ControllerId) (k l : Core) → Effect id k l → HolderStep id k l
unfolding activate sync_commands_to_drive power move
Effect-HolderStep id k l (stays e) = rw e (inl refl)
Effect-HolderStep id k l (takes c e) = rw e (inr (inl (can_take-MayTake id k c, refl)))
Effect-HolderStep id k l (saves sets e) = rw e (inl refl)
Effect-HolderStep id k l (releases h e) = rw e (inr (inr (h, refl)))
Effect-HolderStep id k l (replaces h commands e) = rw e (inl refl)
Effect-HolderStep id k l (updates h commands e) = rw e (inl refl)
Effect-HolderStep id k l (powers h enabled e) = rw e (inl refl)
Effect-HolderStep id k l (moves h action valid e) = rw e (inl refl)
Effect-HolderStep id k l (acknowledges h e) = rw e (inl refl)

-- The active set stays, or its holder gives it the next version.
abbrev pub VersionStep : ControllerId → Core → Core → Type 0
VersionStep id k l =
    (l.active_command_set ≡ k.active_command_set)
    ⊎ (IsHolder id k × (l.active_command_set.0 ≡ add64 k.active_command_set.0 1))

Effect-VersionStep : (id : ControllerId) (k l : Core) → Effect id k l → VersionStep id k l
unfolding activate sync_commands_to_drive power move
Effect-VersionStep id k l (stays e) = rw e (inl refl)
Effect-VersionStep id k l (takes c e) = rw e (inl refl)
Effect-VersionStep id k l (saves sets e) = rw e (inl refl)
Effect-VersionStep id k l (releases h e) = rw e (inl refl)
Effect-VersionStep id k l (replaces h commands e) = rw e (inr (h, refl))
Effect-VersionStep id k l (updates h commands e) = rw e (inr (h, refl))
Effect-VersionStep id k l (powers h enabled e) = rw e (inl refl)
Effect-VersionStep id k l (moves h action valid e) = rw e (inl refl)
Effect-VersionStep id k l (acknowledges h e) = rw e (inl refl)

module _ (ui : HidUi) where
  -- No message of a controller without write access changes the active command set, its version or
  -- anything that the drive reads.
  pub handle_message-SameDrive :
      (id : ControllerId) (m : ClientMessage) (s : CoreManager ui)
      → (IsHolder id s.core → ⊥)
      → SameDrive s.core (handle_message ui id m s).1.core
  handle_message-SameDrive id m s barred =
      Effect-SameDrive id _ _ (handle_message-Effect ui id m s) barred

  -- A message leaves the holder of write access as it is, or its sender takes write access, where the
  -- drive is off, or no one holds it, or the sender is the handheld controller; or its sender held it
  -- and gives it up.
  pub handle_message-HolderStep :
      (id : ControllerId) (m : ClientMessage) (s : CoreManager ui)
      → HolderStep id s.core (handle_message ui id m s).1.core
  handle_message-HolderStep id m s = Effect-HolderStep id _ _ (handle_message-Effect ui id m s)

  -- A message leaves the active command set as it is, or its sender holds write access and the set
  -- has the next version.
  pub handle_message-VersionStep :
      (id : ControllerId) (m : ClientMessage) (s : CoreManager ui)
      → VersionStep id s.core (handle_message ui id m s).1.core
  handle_message-VersionStep id m s = Effect-VersionStep id _ _ (handle_message-Effect ui id m s)
