-- ===== src/Hid/Device.antt =====
-- src/hid.rs: `connect_to_device` and `run_loop`, the thread that serves the handheld controller. What
-- the device answers is given as a list.
pub mod Order
use puddle.Base.{ℕ, ◌==◌, Bool, true, false, Option, none, some, List, [], ◌∷◌, not, if◌then◌else◌}
use puddle.Base.Exec.{Result, ok, err, Exec, pure, raise, ◌>>=◌, ◌>>◌}
use puddle.Messages.{hid}
use puddle.Core.Event.{CoreEvent, controller_connected, controller_disconnected, hid_input_report}
use puddle.Hid.Messages.{OutputReport, screen_spec, variable_update, InputReport, DeviceInfo}
use puddle.Hid.Screen.{HidError, Accepts, send_screen_update}
use puddle.Hid.Variables.{VariableError, send_variable_updates}
use puddle.Hid.Input.{InputError, read_input_report, read_device_info}

pub data DeviceError : Type 0 where
  api_failed device_failed unsupported_firmware core_gone : DeviceError
  input_failed : InputError → DeviceError
  screen_failed : HidError → DeviceError
  variables_failed : VariableError → DeviceError

-- The channel to the core: what was sent, the newest first, and whether it still receives. And the
-- reports that devices took.
pub record Thread : Type 0 where
  pub sent : List CoreEvent
  pub is_open : Bool
  pub written : List (List ℕ)

abbrev pub Step : Type 0 → Type 0
Step A = Exec Thread DeviceError A

-- `inbound_sender.send`
unfoldable pub tell : CoreEvent → Step (Unit {0})
tell event s = if s.is_open then (ok tt, record s { sent = event ∷ s.sent }) else (err core_gone, s)

-- A report as the device fills it in, and its length; none when the device fails.
abbrev pub Filled : Type 0
Filled = Option (List ℕ × ℕ)

abbrev pub read_info : Filled → Result DeviceError DeviceInfo
read_info none = err device_failed
read_info (some (buf, len)) = elim (read_device_info buf len) [
  | ok info ↦ ok info
  | err e ↦ err (input_failed e)
]

abbrev pub supported_firmware_major : ℕ
supported_firmware_major = 0x01

-- What is written stays written when a later report fails.
abbrev screen_step : Result HidError (Unit {0}) × List (List ℕ) → Step (Unit {0})
screen_step (r, written) s =
    (elim r [ ok u ↦ ok u | err e ↦ err (screen_failed e) ], record s { written = written })

abbrev variables_step : Result VariableError (Unit {0}) × List (List ℕ) → Step (Unit {0})
variables_step (r, written) s =
    (elim r [ ok u ↦ ok u | err e ↦ err (variables_failed e) ], record s { written = written })

unfoldable pub write_report : Accepts → OutputReport → Step (Unit {0})
write_report accepts (screen_spec spec) s =
    screen_step (send_screen_update accepts spec s.written) s
write_report accepts (variable_update variables) s =
    variables_step (send_variable_updates accepts variables s.written) s

-- Until the channel from the user interface is empty.
unfoldable pub write_reports : Accepts → List OutputReport → Step (Unit {0})
unfolding write_report
write_reports accepts [] = pure tt
write_reports accepts (report ∷ outbound) = do
  write_report accepts report
  write_reports accepts outbound

-- `read_input_report` and what is done with its report.
unfoldable pub take_input : Result InputError (Option InputReport) → Step (Unit {0})
unfolding tell
take_input (ok (some report)) = tell (hid_input_report report)
take_input (ok none) = pure tt
take_input (err e) = raise (input_failed e)

-- A report that the device sends, and those that are then waiting for it.
pub record Cycle : Type 0 where
  pub buf : List ℕ
  pub len : ℕ
  pub outbound : List OutputReport

-- The loop, in the end of which a read fails.
unfoldable pub serve_device : Accepts → List Cycle → Step (Unit {0})
unfolding take_input write_reports
serve_device accepts [] = raise device_failed
serve_device accepts (c ∷ cycles) = do
  take_input (read_input_report c.buf c.len)
  write_reports accepts c.outbound
  serve_device accepts cycles

-- A device from where it is found: whether it opens, what it says of itself, which reports it takes
-- and what it sends.
pub record Device : Type 0 where
  pub opens : Bool
  pub info : Filled
  pub accepts : Accepts
  pub cycles : List Cycle

unfoldable pub connect_info : Device → Result DeviceError DeviceInfo → Step (Unit {0})
unfolding tell serve_device
connect_info d (err e) = raise e
connect_info d (ok info) =
    if not (info.firmware_version_major == supported_firmware_major)
    then raise unsupported_firmware
    else (tell (controller_connected hid) >> serve_device d.accepts d.cycles)

unfoldable pub connect_to_device : Device → Step (Unit {0})
unfolding connect_info
connect_to_device d = connect_info d (read_info d.info)

-- An error of the device ends its connection only.
unfoldable pub serve_once : Device → Step (Unit {0})
unfolding connect_to_device
serve_once d s =
    if d.opens then tell (controller_disconnected hid) (connect_to_device d s).1 else (ok tt, s)

-- A pass of the loop: the list of devices cannot be made (`reset_devices` or `add_devices` fails),
-- or no device is found, or one is.
pub data Round : Type 0 where
  reset_failed add_failed absent : Round
  found : Device → Round

-- The loop, as far as the passes go. What the list of devices fails with ends it.
unfoldable pub serve_rounds : List Round → Step (Unit {0})
unfolding serve_once
serve_rounds [] = pure tt
serve_rounds (reset_failed ∷ rounds) = raise api_failed
serve_rounds (add_failed ∷ rounds) = raise api_failed
serve_rounds (absent ∷ rounds) = serve_rounds rounds
serve_rounds (found d ∷ rounds) = do serve_once d; serve_rounds rounds

-- `HidApi::new()?`, and the loop.
unfoldable pub run_loop : Bool → List Round → Step (Unit {0})
unfolding serve_rounds
run_loop opens rounds = if opens then serve_rounds rounds else raise api_failed
