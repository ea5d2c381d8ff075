-- ===== src/Linmot/Udp.antt =====
-- linmot/src/udp.rs: the request that the controller sends and the response that it parses.
pub mod Sending
pub mod Receiving
use puddle.Base.{ℕ, ◌^◌, Option, none, some, List, Bool, is_some, not, if◌then◌else◌}
use mathlib.Core.Option
use puddle.Base.Exec.{Result, ok, err, Exec, pure, ◌>>=◌, ◌>>◌}
use puddle.Linmot.Units.{Position, Current}
use puddle.Linmot.Bitflags.{Bitflags}
use puddle.Linmot.Reader
use puddle.Linmot.Reader.{
  Read, ReadError, read_u16_le, read_i16_le, read_u32_le, read_i32_le, read_four,
}
use puddle.Linmot.Writer
use puddle.Linmot.Writer.{Write, WriteError, write_u16_le, write_u32_le}
use puddle.Linmot.Mci.{MotionCommand, write_motion_command}
use puddle.Linmot.Mci.Decode.{State, ErrorCode, state_from, error_code_from}

abbrev pub buffer_size : ℕ
buffer_size = 64

-- u16, [u16; 3]
pub record RealtimeConfiguration : Type 0 where
  pub command : ℕ
  pub params : ℕ × ℕ × ℕ

-- The flag fields hold the bits of their flag types.
pub record Request : Type 0 where
  pub control_flags : Option ℕ
  pub motion_command : Option MotionCommand
  pub realtime_configuration : Option RealtimeConfiguration
  pub response_flags : ℕ

pub record Response : Type 0 where
  pub status_flags : Option ℕ
  pub raw_state : Option ℕ
  pub actual_position : Option Position
  pub demand_position : Option Position
  pub current : Option Current
  pub warning_flags : Option ℕ
  pub raw_error_code : Option ℕ
  pub monitoring_channel : Option (ℕ × ℕ × ℕ × ℕ)
  pub realtime_configuration : Option RealtimeConfiguration

-- `Response::default()`
abbrev pub no_response : Response
no_response = record {
  status_flags = none;
  raw_state = none;
  actual_position = none;
  demand_position = none;
  current = none;
  warning_flags = none;
  raw_error_code = none;
  monitoring_channel = none;
  realtime_configuration = none;
}

-- `Response::state`
unfoldable pub response_state : Response → Option State
response_state r = elim r.raw_state [ none ↦ none | some s ↦ some (state_from s) ]

-- `Response::error_code`
unfoldable pub response_error_code : Response → Option ErrorCode
response_error_code r = elim r.raw_error_code [ none ↦ none | some e ↦ some (error_code_from e) ]

unfoldable pub write_realtime_configuration : RealtimeConfiguration → Write
write_realtime_configuration rtc = do
  write_u16_le rtc.command
  write_u16_le rtc.params.0
  write_u16_le rtc.params.1
  write_u16_le rtc.params.2
  pure tt

unfoldable pub read_realtime_configuration : Read RealtimeConfiguration
read_realtime_configuration = do
  command ← read_u16_le
  p0 ← read_u16_le
  p1 ← read_u16_le
  p2 ← read_u16_le
  pure (record { command = command; params = (p0, p1, p2) })

-- `if let Some(x) = o { … }`
abbrev pub write_opt : {A : Type 0} → (A → Write) → Option A → Write
write_opt f none = pure tt
write_opt f (some a) = f a

module _ (bitflags : Bitflags) where
  -- `Request::flags`: CONTROL_FLAGS, MOTION_COMMAND and REALTIME_CONFIGURATION.
  unfoldable pub request_flags : Request → ℕ
  request_flags req =
      let f0 : ℕ = 0 in
      let f1 = if is_some req.control_flags then bitflags.insert f0 (2 ^ 0) else f0 in
      let f2 = if is_some req.motion_command then bitflags.insert f1 (2 ^ 1) else f1 in
      if is_some req.realtime_configuration then bitflags.insert f2 (2 ^ 2) else f2

  unfoldable pub write_request : Request → Write
  write_request req = do
    write_u32_le (request_flags req)
    write_u32_le req.response_flags
    write_opt write_u16_le req.control_flags
    write_opt write_motion_command req.motion_command
    write_opt write_realtime_configuration req.realtime_configuration

  -- The `&mut [u8]` that the caller passes comes back beside the result.
  unfoldable pub to_wire : Request → List ℕ → Result WriteError ℕ × List ℕ
  to_wire req out =
      let (r, w) = (write_request req >>= λ _ w. (ok w.idx, w)) (Writer.new out) in (r, w.buf)

  unfoldable pub read_opt : {A : Type 0} → Read A → ℕ → ℕ → Read (Option A)
  read_opt p flags flag =
      if bitflags.contains flags flag then (do a ← p; pure (some a)) else pure none

  -- What `from_wire` reads once it knows the flags.
  unfoldable pub read_fields : ℕ → Read Response
  read_fields flags = do
    status_flags ← read_opt read_u16_le flags (2 ^ 0)
    raw_state ← read_opt read_u16_le flags (2 ^ 1)
    actual_position ← read_opt read_i32_le flags (2 ^ 2)
    demand_position ← read_opt read_i32_le flags (2 ^ 3)
    current ← read_opt read_i16_le flags (2 ^ 4)
    warning_flags ← read_opt read_u16_le flags (2 ^ 5)
    raw_error_code ← read_opt read_u16_le flags (2 ^ 6)
    monitoring_channel ← read_opt (read_four read_u32_le) flags (2 ^ 7)
    realtime_configuration ← read_opt read_realtime_configuration flags (2 ^ 8)
    pure (record {
      status_flags = Option.map (bitflags.from_bits_truncate 16) status_flags;
      raw_state = raw_state;
      actual_position = actual_position;
      demand_position = demand_position;
      current = current;
      warning_flags = Option.map (bitflags.from_bits_truncate 16) warning_flags;
      raw_error_code = raw_error_code;
      monitoring_channel = monitoring_channel;
      realtime_configuration = realtime_configuration;
    })

  -- A realtime configuration is there only if the request that is echoed had one.
  unfoldable pub fields_present : ℕ → ℕ → ℕ
  fields_present request response =
      let request_flags = bitflags.from_bits_truncate 3 request in
      let response_flags = bitflags.from_bits_truncate 9 response in
      if not (bitflags.contains request_flags (2 ^ 2))
      then bitflags.remove response_flags (2 ^ 8)
      else response_flags

  unfoldable pub read_response : Read Response
  read_response = do
    request ← read_u32_le
    response ← read_u32_le
    read_fields (fields_present request response)

  unfoldable pub from_wire : List ℕ → Result ReadError Response
  from_wire buf = (read_response (Reader.new buf)).0
