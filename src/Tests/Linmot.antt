-- ===== src/Tests/Linmot.antt =====
-- Concrete datagrams.
use puddle.Base.{◌≡◌, refl, none, some, [], ◌∷◌, ◌++◌, arith, length, drop, replicate}
use puddle.Base.Exec.{ok}
use puddle.Base.Int.{pos, negsuc}
use puddle.Linmot.Mci.Commands.{vai_go_to_pos}
use puddle.Linmot.Udp.{Request, Response, no_response, to_wire, from_wire}
use puddle.Linmot.Udp.Sending.{request_bytes, to_wire_lem, IsDatagram, to_wire-IsDatagram}
use puddle.Linmot.Udp.Receiving.{response_bytes, from_wire_lem}
use puddle.Linmot.Mci.{MotionCommand}
use puddle.Tests.Flags.{bits}

abbrev command : MotionCommand
command = record { count = 3; command = vai_go_to_pos (pos 1000) (pos 2000) (pos 300) (pos 400) }

abbrev request : Request
request = record {
  control_flags = some 1;
  motion_command = some command;
  realtime_configuration = none;
  response_flags = 511;
}

to_wire_example : to_wire bits request (replicate 64 0) ≡ (
  ok (length (request_bytes bits request)),
  request_bytes bits request ++ drop (length (request_bytes bits request)) (replicate 64 0),
)
to_wire_example = to_wire_lem bits request (replicate 64 0) (omega arith)

to_wire-IsDatagram_example : IsDatagram bits (to_wire bits request (replicate 64 0))
to_wire-IsDatagram_example = to_wire-IsDatagram bits request (replicate 64 0) refl

abbrev response : Response
response = record no_response { raw_state = some 2181; demand_position = some (negsuc 89) }

from_wire_example : from_wire bits (response_bytes 0 10 response ++ (1 ∷ [])) ≡ ok response
from_wire_example =
    from_wire_lem bits 0 10 response (1 ∷ []) (omega arith) (omega arith)
      (record {
        status_flags = refl;
        raw_state = refl;
        actual_position = refl;
        demand_position = refl;
        current = refl;
        warning_flags = refl;
        raw_error_code = refl;
        monitoring_channel = refl;
        realtime_configuration = refl;
      })
      (record {
        status_flags = tt;
        raw_state = omega arith;
        actual_position = tt;
        demand_position = omega arith;
        current = tt;
        warning_flags = tt;
        raw_error_code = tt;
        monitoring_channel = tt;
        realtime_configuration = tt;
      })
