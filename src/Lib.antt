-- ===== src/Lib.antt =====
-- Virtual automotive OTA: a verification library of the update path, from the client that programs an
-- ECU down to the frames on the vehicle's networks.
--
-- The parts and their files:
--   Prelude            Booleans, lists over the native numbers, results with Python's exceptions, bytes.
--   IsoTp              transport/can/isotp_adapter.py: `Frames` the frame formats, `Sender` the adapter's
--                      segment and send, `Receiver` the reassembler.
--   Doip               transport/doip/packet.py: building, parsing and extracting packets.
--   Uds                transport/uds/codec.py and transport/uds/security.py.
--   Programmer         ecus/base/uds_can_programmer.py with ecus/*/firmware_receiver.py: `State` the
--                      object, `Session` and `Flashing` the services, `Server` the dispatch and a run of
--                      requests, `Feed` the way from CAN frames to requests, in the receive loop of
--                      ecus/*/can_receiver.py.
--   Client             transport/uds/flash_manager.py, transport/uds/client.py and the UDS services of
--                      transport/can/can_sender.py; `Vehicle` puts the zone controller and the bus between
--                      them and the server, `Bench` and `EndToEnd` run the programming sequence.
--   Ecu                ecus/base/slot_manager.py, version_manager.py and reboot_manager.py with the
--                      validator's confirmation of a boot (tcu/post_install_validator.py); `Install` has
--                      the records that ecus/base/installer.py writes, which a power loss may cut short.
--   Scheduler          tcu/update_scheduler.py over the policies of tcu/dependency_policy.py.
--   Planner            tcu/models/dependency_graph.py and tcu/dependency_manager.py, the graph of dependencies
--                      and its order; `Dynamic` has tcu/dynamic_update_planner.py, and `Executable` puts its
--                      plan before the scheduler, as tcu/main.py does.
--   Exchange           one request over CAN and its responses, as the zone controllers and the gateway wait
--                      for them.
--   Gateway            transport/doip/server.py: `Context`, `Session`, `Flashing` and `Handler` the requests
--                      for one ECU, `Server` the packets of testers, `Forwarding` the way over CAN.
--   Zone               zones/base/zone_controller.py: `Health` and `Service`.
--   Flash              the bytes of ecus/base/flash_memory.py, and the loop of ecus/base/installer.py that
--                      programs an image.
--   Image              firmware/image_format.py: the header of a firmware image and its payload. CRC-32,
--                      SHA-256 and Python's generator are given.
--
-- A method of an object is a function that takes the object's state and returns its result with the new
-- state. What a method reads from outside (clocks, files, the runtime control, the digest, the key
-- derivation) is a field of `Env`, so that each request may read something else. A handler returns the
-- state, the events in order (responses, the file written, the installation started) and the exception
-- that it raised, if any. Clocks are natural numbers of milliseconds.
--
-- Loops that the source ends by a length run on fuel: `consecutive_frames` and `send_loop` on the length
-- of the payload, since each round takes 63 bytes or the rest; `extract_loop` on the length of the
-- buffer, since each round takes eight bytes or more; `transfer_blocks` on the length of the image, since
-- a chunk has one byte or more; `visit` on the number of nodes, since no node is queued twice; `narrow`
-- on the number of executable names, since each turn but the last takes one away. Loops that end by a
-- deadline run on the script of what is received, or on the number of rounds before the deadline.
--
-- Not modelled: sockets, threads, sleeps, logging and printing; the third-party packages, whose builders
-- have a fallback in the source that is modelled; the DoIP client, the JSON that carries requests and responses
-- between the zone client and the zone service, and the legacy JSON messages of the gateway.
pub mod Prelude
pub mod IsoTp
pub mod Doip
pub mod Uds
pub mod Programmer
pub mod Client
pub mod Ecu
pub mod Scheduler
pub mod Planner
pub mod Exchange
pub mod Gateway
pub mod Zone
pub mod Flash
pub mod Image
