-- ===== src/Core/Event/Effect/Conditions.antt =====
-- The code's conditions and changes of the core are those of the rules.
use puddle.Base.{
  ℕ, ◌≡◌, ◌⊎◌, refl, Bool, true, false, ◌||◌, ==_iff, Option, none, some, is_none, List, inl, inr,
}
use puddle.Messages.{
  DriveState, off, errored, moving, paused, MotionCommand, MotionAction, start, pause, resume, stop,
  ControllerId, hid, web_socket,
}
use puddle.Core.Manager.{Core, sync_commands_to_drive}
use puddle.Core.Access.{is_off, is_hid, can_take_write_access}
use puddle.Core.Sets
use puddle.Core.Power
use puddle.Core.Event.Effect.Rules.{
  MayTake, IsBase, IsValidMove, with_active, after_power, after_motion,
}

off_or : (d : DriveState) (b : Bool) → (is_off d || b) ≡ true → (d ≡ off) ⊎ (b ≡ true)
off_or off b h = inl refl
off_or _ b h = inr h

free_or_hid :
    (holder : Option ControllerId) (id : ControllerId)
    → (is_none holder || is_hid id) ≡ true
    → (holder ≡ none) ⊎ (id ≡ hid)
free_or_hid none id h = inl refl
free_or_hid (some _) hid h = inr refl
free_or_hid (some _) (web_socket _) h = absurd (cc)

pub can_take-MayTake :
    (id : ControllerId) (k : Core) → can_take_write_access k id ≡ true → MayTake id k
unfolding can_take_write_access
can_take-MayTake id k h = elim (off_or k.core_state.drive_state _ h) [
  | inl e ↦ inl e
  | inr e ↦ inr (free_or_hid k.core_state.write_access_holder id e)
]

not_off : (d : DriveState) (b : Bool) → (is_off d || b) ≡ false → (d ≡ off) → ⊥
not_off d b h e = let t : (is_off off || b) ≡ true = refl in cc

not_free :
    (d : DriveState) (holder : Option ControllerId) (id : ControllerId)
    → (is_off d || (is_none holder || is_hid id)) ≡ false
    → (holder ≡ none) ⊎ (id ≡ hid)
    → ⊥
not_free off holder id h o = absurd (cc)
not_free _ none id h o = absurd (cc)
not_free _ (some _) hid h o = absurd (cc)
not_free _ (some _) (web_socket _) h (inl e) = absurd (cc)
not_free _ (some _) (web_socket _) h (inr e) = absurd (cc)

pub can_take-refused :
    (id : ControllerId) (k : Core) → can_take_write_access k id ≡ false → MayTake id k → ⊥
unfolding can_take_write_access
can_take-refused id k h (inl e) = not_off k.core_state.drive_state _ h e
can_take-refused id k h (inr o) =
    not_free k.core_state.drive_state k.core_state.write_access_holder id h o

pub is_current-IsBase :
    (base : Option ℕ) (version : ℕ) → Sets.is_current base version ≡ true → IsBase base version
is_current-IsBase none version h = tt
is_current-IsBase (some base) version h = (==_iff base version).0 h

pub is_current-refused :
    (base : Option ℕ) (version : ℕ) → Sets.is_current base version ≡ false → IsBase base version → ⊥
is_current-refused none version h b = cc
is_current-refused (some base) version h b = let t = (==_iff base version).1 b in cc

pub is_valid_action-IsValidMove :
    (action : MotionAction) (d : DriveState)
    → Power.is_valid_action action d ≡ true
    → IsValidMove action d
unfolding Power.is_valid_action
is_valid_action-IsValidMove start paused h = refl
is_valid_action-IsValidMove pause moving h = refl
is_valid_action-IsValidMove resume paused h = refl
is_valid_action-IsValidMove stop moving h = inl refl
is_valid_action-IsValidMove stop paused h = inr refl
is_valid_action-IsValidMove _ _ h = absurd (cc)

pub is_valid_action-refused :
    (action : MotionAction) (d : DriveState)
    → Power.is_valid_action action d ≡ false
    → IsValidMove action d
    → ⊥
unfolding Power.is_valid_action
is_valid_action-refused start paused h v = cc
is_valid_action-refused pause moving h v = cc
is_valid_action-refused resume paused h v = cc
is_valid_action-refused stop moving h v = cc
is_valid_action-refused stop paused h v = cc
is_valid_action-refused stop _ h (inl v) = cc
is_valid_action-refused stop _ h (inr v) = cc
is_valid_action-refused _ _ h v = cc

pub is_errored_lem : (d : DriveState) → Power.is_errored d ≡ true → d ≡ errored
is_errored_lem errored h = refl
is_errored_lem _ h = absurd (cc)

pub is_errored-refused : (d : DriveState) → Power.is_errored d ≡ false → (d ≡ errored) → ⊥
is_errored-refused errored h e = cc
is_errored-refused _ h e = cc

pub activate_lem :
    (commands : List MotionCommand) (k : Core) → Sets.activate commands k ≡ with_active commands k
unfolding Sets.activate sync_commands_to_drive
activate_lem commands k = refl

pub power_lem : (enabled : Bool) (k : Core) → Power.power enabled k ≡ after_power enabled k
unfolding Power.power
power_lem true k = refl
power_lem false k = refl

pub move_lem : (action : MotionAction) (k : Core) → Power.move action k ≡ after_motion action k
unfolding Power.move
move_lem start k = refl
move_lem pause k = refl
move_lem resume k = refl
move_lem stop k = refl
