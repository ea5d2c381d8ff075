-- ===== src/Drive/Tick/Outcome.antt =====
-- What a cycle of the drive thread leaves, whether it fails or not.
use puddle.Base.{ℕ, ◌≡◌, inl, inr, refl, ◌∙◌, Option, none, some, List, take, Bool-cases}
use puddle.Base.Exec.{Result, ok, err, continue}
use puddle.Linmot.Bitflags.{Bitflags}
use puddle.Linmot.Writer.{WriteError}
use puddle.Linmot.Mci.Decode.{State}
use puddle.Linmot.Udp.{Request, Response, to_wire}
use puddle.Drive.Connection.{DriveFeedback, take_actions}
use puddle.Drive.Tick.{
  TickError, Environment, DriveThread, feedback_of, send_feedback, receive, transmit, send_request,
  read_interface, settle, conclude, next_request, loop_tick,
}

-- The interface and the next motion command stay.
pub record Leaves (t u : DriveThread) : Type 0 where
  pub interface : u.interface ≡ t.interface
  pub command : u.connection.next_motion_command ≡ t.connection.next_motion_command

-- A cycle that is done took the actions of the core; one that failed left them, and no motion command.
pub data Outcome (t : DriveThread) (r : Result TickError (Unit {0}) × DriveThread) : Type 0 where
  done : r.0 ≡ ok tt → r.1.interface ≡ record t.interface { actions = 0 } → Outcome t r
  failed :
      (e : TickError)
      → r.0 ≡ err e
      → r.1.interface ≡ t.interface
      → r.1.connection.next_motion_command ≡ none
      → Outcome t r

send_feedback-Leaves :
    (env : Environment) (f : Option (State × DriveFeedback)) (t : DriveThread)
    → Leaves t (send_feedback env f t).1
unfolding send_feedback
send_feedback-Leaves env none t = record { interface = refl; command = refl }
send_feedback-Leaves env (some (state, f)) t = elim (Bool-cases env.core_listens) [
  | inl e ↦ rw e (record { interface = refl; command = refl })
  | inr e ↦ rw e (record { interface = refl; command = refl })
]

module _ (bitflags : Bitflags) where
  receive-Leaves :
      (answer : Option (List ℕ)) (t : DriveThread) → Leaves t (receive bitflags answer t).1
  unfolding receive
  receive-Leaves none t = record { interface = refl; command = refl }
  receive-Leaves (some datagram) t = record { interface = refl; command = refl }

  transmit-Leaves :
      (env : Environment) (r : Result WriteError ℕ) (t : DriveThread)
      → Leaves t (transmit bitflags env r t).1
  unfolding transmit
  transmit-Leaves env (err e) t = record { interface = refl; command = refl }
  transmit-Leaves env (ok n) t = receive-Leaves (env.exchange (take n t.connection.buffer)) t

  send_request-Leaves :
      (env : Environment) (request : Request) (t : DriveThread)
      → Leaves t (send_request bitflags env request t).1
  unfolding send_request
  send_request-Leaves env request t =
      let r = to_wire bitflags request t.connection.buffer in
      let u : DriveThread = record t { connection = record t.connection { buffer = r.1 } } in
      let h = transmit-Leaves env r.0 u in record { interface = h.interface; command = h.command }

  settle-Outcome : (env : Environment) (t : DriveThread) → Outcome t (settle bitflags env t)
  unfolding settle read_interface take_actions
  settle-Outcome env t = done refl refl

  then_settle :
      (r : Result TickError (Unit {0})) (env : Environment) (t u : DriveThread)
      → u.interface ≡ t.interface
      → u.connection.next_motion_command ≡ none
      → Outcome t (continue r (λ _. settle bitflags env) u)
  then_settle (err e) env t u i n = failed e refl i n
  then_settle (ok a) env t u i n = elim (settle-Outcome env u) [
    | done e h ↦ done e (h ∙ rw i)
    | failed x e h k ↦ failed x e (h ∙ i) k
  ]

  then_conclude :
      (r : Result TickError Response) (env : Environment) (request : Request) (t u : DriveThread)
      → u.interface ≡ t.interface
      → u.connection.next_motion_command ≡ none
      → Outcome t (continue r (conclude bitflags env request) u)
  unfolding conclude
  then_conclude (err e) env request t u i n = failed e refl i n
  then_conclude (ok response) env request t u i n =
      let v : DriveThread = record u {
        connection = record u.connection {
          last_response = response;
          last_request = request;
          last_command_index = u.connection.active_command_index;
        };
      } in
      let f = feedback_of v.connection in
      let h = send_feedback-Leaves env f v in
      then_settle (send_feedback env f v).0 env t (send_feedback env f v).1 (h.interface ∙ i)
        (h.command ∙ n)

  -- A cycle either succeeds and takes all pending actions of the core, or fails and takes none of
  -- them; in a cycle that fails the motion command is gone, so that it is never sent again.
  pub loop_tick-Outcome :
      (env : Environment) (t : DriveThread) → Outcome t (loop_tick bitflags env t)
  unfolding loop_tick
  loop_tick-Outcome env t =
      let request = next_request bitflags t.connection in
      let u : DriveThread = record t {
        connection = record t.connection { next_motion_command = none };
      } in
      let h = send_request-Leaves env request u in
      then_conclude (send_request bitflags env request u).0 env request t
        (send_request bitflags env request u).1 h.interface h.command
