-- ===== src/Lib.antt =====
-- puddle, the controller of a linear servo drive: a model of its core logic.
--
-- The program has a core (src/main.rs), which handles the events of every controller and of the
-- drive one after the other; a drive thread (src/drive.rs), which exchanges one UDP datagram with the
-- drive in each cycle and plans the next motion command; the protocol of the drive (linmot/src); and
-- controllers, a handheld one (src/hid.rs) and WebSocket clients (src/websocket.rs). Core and drive
-- thread share power, motion, commands and actions (`DriveInterface`); the drive thread sends
-- feedback to the core as an event.
--
-- Files:
--   Base       shared names, lists, integers with machine widths, results with state, bytes
--   Linmot     linmot/src: Reader and Writer (udp/reader.rs, udp/writer.rs), Mci (mci.rs,
--              mci/commands.rs), Udp (udp.rs), Units (mci/units.rs), Bitflags (the crate bitflags,
--              a parameter). Udp/Sending and Udp/Receiving hold the proofs on `to_wire`, `from_wire`
--   Messages   src/messages.rs and src/lib.rs
--   Drive      src/drive.rs: Connection (state), Words (64-bit arithmetic), Predict, Clamp
--              (`clamp_deceleration`), Arrival and Next (`compute_next_request`), Tick (`loop_tick`)
--   Core       src/main.rs: Manager (`CoreManager`, `send`, `sync_commands_to_drive`), Access, Sets
--              and Power (`handle_message`, by subject), Event (`handle_event`, the loop of `main`).
--              Event/Effect has the steps that a message can make, as a relation, and in
--              Effect/Rules when each message changes the core and how; Event/Sync what
--              holds after any events, Event/Reply the answers
--   Hid        src/hid/messages.rs: the types of the handheld controller's protocol; src/hid.rs:
--              Screen (`ScreenSpec::encode`, `send_screen_update`), Input (`read_input_report`),
--              Variables (`send_variable_updates`), Device (`connect_to_device`, `run_loop`). src/hid/ui_manager.rs is in Ui (encoders and
--              messages), Ui/Variables (what is shown, and what of it is sent) and Ui/Report
--              (`UiManager`, its two operations); Ui/Turning and Ui/Report/Tuned hold the proofs on
--              its commands, Ui/Replay on its messages, Ui/Live those on core and interface together
--   WebSocket  src/websocket.rs: the event loop of its thread. WebSocket/Clients has the laws of the
--              map of clients, WebSocket/Lifecycle what the core is told of them
--   Cli        src/bin/puddle-cli.rs: `App` and its messages; Cli/Inputs has what changes its inputs,
--              Cli/Keys what a key does, Cli/Indices, Cli/Usable and Cli/Stepping the proofs
--   Metrics    src/metrics.rs: the record of a cycle and the thread that sends rows; Metrics/Kept has
--              the proof on its reconnections
--   Tests      instances at concrete inputs
--
-- A mutable struct is a record that a function takes and returns; what returns `Result` and mutates
-- is an `Exec`, which returns the state beside an error too. Integers are natural numbers below their
-- bound, or the integers of Base/Int; where the source computes on i64 or u64, a release build's
-- wrapping is written out. `Duration` is its number of microseconds. All recursion is structural.
-- An index out of range that panics is none in the model of the terminal client (Base/Partial). A
-- clamp to a negative limit panics in the source; theorems that promise a result assume that the
-- limits are not negative.
--
-- Parameters: what the crate bitflags documents (`Bitflags`), the answers of the socket, whether the
-- mutex is free and whether the channel still receives (`Environment`), the user interface of the
-- handheld controller (`HidUi`, which Hid/Ui/Report fills), what its device answers, the scaling of a value to a byte, which is
-- computed in floating point (`Scale`), what sockets and serde answer to the WebSocket thread, the
-- value of a text typed into the terminal client (`Entry`), the texts of warnings and errors (`Texts`). A saved set's map is an
-- association list; the order in which a hash map lists its entries is not fixed by the source.
--
-- Not modelled: the command line and the start of threads; sleeping and the measured times; the log;
-- JSON; conversions from and to floating point; the database client of src/metrics.rs; the drawing of src/bin/puddle-cli.rs
-- and its sockets; src/bin/puddle-rpi-stats.rs.
pub mod Base
pub mod Linmot
pub mod Messages
pub mod Drive
pub mod Core
pub mod Hid
pub mod WebSocket
pub mod Cli
pub mod Metrics
pub mod Tests
