-- ===== src/Hid/Device/Order.antt =====
-- src/hid.rs: the order of what the core is told of the handheld controller.
use puddle.Base.{◌≡◌, Bool, true, false, List, [], ◌∷◌, if◌then◌else◌}
use puddle.Base.Exec.{Result, ok, err}
use puddle.Messages.{hid}
use puddle.Core.Event.{CoreEvent, controller_connected, controller_disconnected, hid_input_report}
use puddle.Hid.Device.{
  DeviceError, Thread, Step, Device, Round, reset_failed, add_failed, api_failed,
}

-- Whether the core knows the controller as connected.
unfoldable pub is_known : List CoreEvent → Bool
is_known [] = false
is_known (controller_connected _ ∷ sent) = true
is_known (controller_disconnected _ ∷ sent) = false
is_known (_ ∷ sent) = is_known sent

-- Of this thread's events: reports come from a connected controller, and one that is connected was
-- not.
abbrev pub MayTell : CoreEvent → List CoreEvent → Type 0
MayTell (controller_connected hid) sent = is_known sent ≡ false
MayTell (controller_disconnected hid) sent = Unit {0}
MayTell (hid_input_report _) sent = is_known sent ≡ true
MayTell _ sent = ⊥

unfoldable pub InOrder : List CoreEvent → Type 0
InOrder [] = Unit {0}
InOrder (event ∷ sent) = MayTell event sent × InOrder sent

-- In order while the core receives, and the controller is known or not.
abbrev Good : Thread → Type 0
Good s = InOrder s.sent × (s.is_open ≡ true)

abbrev At : Bool → Thread → Type 0
At known s = Good s × (is_known s.sent ≡ known)

-- From `known` an action ends in order, and after success as `after` says.
abbrev Moves : Bool → Bool → Step (Unit {0}) → Type 0
Moves known after m =
    (s : Thread) → At known s → Good (m s).1 × ((m s).0 ≡ ok tt → is_known (m s).1.sent ≡ after)

-- Whether the list of devices is made in every pass.
abbrev pub can_list : List Round → Bool
can_list [] = true
can_list (reset_failed ∷ rounds) = false
can_list (add_failed ∷ rounds) = false
can_list (_ ∷ rounds) = can_list rounds

-- The end of the thread, and what it leaves.
abbrev Ends : Bool → Result DeviceError (Unit {0}) × Thread → Type 0
Ends fine after = (after.0 ≡ (if fine then ok tt else err api_failed)) × At false after.1

abbrev pub idle : Thread
idle = record { sent = []; is_open = true; written = [] }
