-- ===== src/Linmot/Udp/Sending.antt =====
-- The bytes of a request.
use puddle.Base.{
  ℕ, ◌≤◌, ◌≡◌, Option, none, some, List, [], ◌++◌, arith, length, length-append, drop, length-drop,
}
use puddle.Base.Exec.{Result, ok, err}
use puddle.Base.Bytes.{le16, le32}
use puddle.Linmot.Bitflags.{Bitflags}
use puddle.Linmot.Writer.{Write, WriteError, write_u16_le}
use puddle.Linmot.Writer.Writes.{
  Writes, Writes-pure, Writes-seq, write_u16-Writes, write_u32-Writes, Writes-new, writes_rules,
}
use puddle.Linmot.Mci.{MotionCommand, write_motion_command}
use puddle.Linmot.Mci.Block.{block, length-block, write_motion_command-Writes}
use puddle.Linmot.Udp.{
  Request, RealtimeConfiguration, write_realtime_configuration, write_opt, request_flags,
  write_request, to_wire, buffer_size,
}

abbrev pub configuration_bytes : RealtimeConfiguration → List ℕ
configuration_bytes rtc =
    le16 rtc.command ++ (le16 rtc.params.0 ++ (le16 rtc.params.1 ++ (le16 rtc.params.2 ++ [])))

abbrev pub opt_bytes : {A : Type 0} → (A → List ℕ) → Option A → List ℕ
opt_bytes f none = []
opt_bytes f (some a) = f a

write_opt-Writes :
    {A : Type 0} (f : A → Write) (g : A → List ℕ) (o : Option A)
    → ((a : A) → Writes (f a) (g a))
    → Writes (write_opt f o) (opt_bytes g o)
write_opt-Writes f g none h = Writes-pure
write_opt-Writes f g (some a) h = h a

write_realtime_configuration-Writes :
    (rtc : RealtimeConfiguration)
    → Writes (write_realtime_configuration rtc) (configuration_bytes rtc)
unfolding write_realtime_configuration
write_realtime_configuration-Writes rtc = search writes_rules depth 12

length-control : (o : Option ℕ) → length (opt_bytes le16 o) ≤ 2
length-control none = omega arith
length-control (some a) = omega arith

length-command : (o : Option MotionCommand) → length (opt_bytes block o) ≤ 32
length-command none = omega arith
length-command (some mc) = omega (arith, length-block mc)

length-configuration :
    (o : Option RealtimeConfiguration) → length (opt_bytes configuration_bytes o) ≤ 8
length-configuration none = omega arith
length-configuration (some a) = omega arith

module _ (bitflags : Bitflags) where
  -- The flags of the request, the response flags asked for, and the parts that are present.
  abbrev pub request_bytes : Request → List ℕ
  request_bytes req =
      le32 (request_flags bitflags req)
      ++ (le32 req.response_flags
          ++ (opt_bytes le16 req.control_flags
              ++ (opt_bytes block req.motion_command
                  ++ opt_bytes configuration_bytes req.realtime_configuration)))

  pub write_request-Writes :
      (req : Request) → Writes (write_request bitflags req) (request_bytes req)
  unfolding write_request
  write_request-Writes req = Writes-seq (write_u32-Writes _) (
      Writes-seq (write_u32-Writes _) (
        Writes-seq (write_opt-Writes write_u16_le le16 req.control_flags write_u16-Writes) (
          Writes-seq
            (write_opt-Writes write_motion_command block req.motion_command
              write_motion_command-Writes)
            (write_opt-Writes write_realtime_configuration configuration_bytes
              req.realtime_configuration write_realtime_configuration-Writes))))

  length-request_bytes : (req : Request) → length (request_bytes req) ≤ 50
  length-request_bytes req = omega (
    arith,
    length-append (opt_bytes le16 req.control_flags) (
        opt_bytes block req.motion_command
        ++ opt_bytes configuration_bytes req.realtime_configuration),
    length-append (opt_bytes block req.motion_command)
        (opt_bytes configuration_bytes req.realtime_configuration),
    length-control req.control_flags,
    length-command req.motion_command,
    length-configuration req.realtime_configuration,
  )

  -- Into a buffer that is long enough, `to_wire` writes the bytes of the request, returns their
  -- number and leaves the rest of the buffer alone.
  pub to_wire_lem :
      (req : Request) (out : List ℕ)
      → length (request_bytes req) ≤ length out
      → to_wire bitflags req out ≡ (
        ok (length (request_bytes req)),
        request_bytes req ++ drop (length (request_bytes req)) out,
      )
  unfolding to_wire
  to_wire_lem req out h =
      rw (
        Writes-new (write_request bitflags req) (request_bytes req) out (write_request-Writes req)
          h)

  -- A count of at most 50 bytes, in a buffer that keeps its length.
  abbrev pub IsDatagram : Result WriteError ℕ × List ℕ → Type 0
  IsDatagram (ok n, out) = (n ≤ 50) × (length out ≡ buffer_size)
  IsDatagram (err e, out) = ⊥

  -- Into the buffer of 64 bytes, `to_wire` writes every request without an error: it returns at most
  -- 50 as the number of bytes, and the buffer keeps its length.
  pub to_wire-IsDatagram :
      (req : Request) (out : List ℕ)
      → length out ≡ buffer_size
      → IsDatagram (to_wire bitflags req out)
  to_wire-IsDatagram req out h =
      let bytes = request_bytes req in
      let le = length-request_bytes req in
      rw (to_wire_lem req out (omega (arith, le, h))) (
        le,
        omega (
          arith,
          le,
          h,
          length-append bytes (drop (length bytes) out),
          length-drop (length bytes) out,
        ),
      )
