-- ===== src/Lib.antt =====
-- The GARDENA Local MQTT app (gardena_local_mqtt/): a Home Assistant app that takes the sensors and
-- the mower of a GARDENA gateway over from the gateway's own MQTT publisher.
--
-- The parts and how they interact. The worker (worker.py) reads snapshots of the gateway, plans the
-- MQTT entities with telemetry.py, takes the publisher over and rolls back, and in its loop passes
-- commands from MQTT to the gateway's WebSocket API and events of that API to MQTT. It writes its
-- state into files (storage.py). The page of the app (app.py) shows them and asks for actions through
-- them, under a lock, and diagnostics.py filters what the gateway reports of its runtime.
--
-- Files and code:
--   Base, Text, Json     numbers and lists, Python's exceptions and state (`Exec S A` is a method that
--                        changes an S and may raise), text, UTF-8 and base64, dicts, JSON values
--   Transport            protocol.py, the socket and `_recv_exact`, which both clients share
--   Mqtt                 protocol.py, `MqttClient`, one definition for each method
--   WebSocket            protocol.py, the frames of `WebSocketClient`
--   Mower                protocol.py, `Mower`, `_nested_value`; Mower/Event: `apply_event`;
--                        Mower/Discovery: the payloads and `ControlPublisher.publish_discovery`
--   Telemetry            telemetry.py, `make_plan`, `readings`; Telemetry/Publish: `publish`
--   Worker               worker.py, `activate`, `rollback` and the resumption in `run`, with what they
--                        call of gateway.py and storage.py; Worker/Round: the body of the loop of `run`,
--                        of which Worker/Loop is the part from the select on
--   Discover             protocol.py, `gateway_messages` and `discover_mowers`
--   Options              worker.py, `options`, and security.py, `validate_host`
--   Identity             protocol.py, the identities that the gateway's publisher announced
--   Telemetry/Config     telemetry.py, `validate_config`; Telemetry/Collect: worker.py,
--                        `collect_existing`; Telemetry/Snapshot: telemetry.py, `parse_snapshot`
--   Handler              app.py, `do_GET` and `do_POST` of `Handler`
--   Diagnostics          diagnostics.py, `sanitize`
--   Deploy               deploy.py, the site that an installation changes; Deploy/Install: `install`,
--                        `restore_ha`, `refresh_status`; Deploy/Health: `health` on the status that was
--                        read; Deploy/Cleanup: cleanup.py, `run`; Deploy/Supervisor: a turn of the loop
--                        of app.py's `main`
-- The child modules of each part hold its theorems; those named Tests hold concrete runs.
--
-- How state is modelled. A socket is a schedule of arrivals with their delays, a list of sent bytes
-- and a clock in milliseconds. The worker's world holds the journal, the gateway's publisher service
-- and how each call to come ends: done, or failed before, amid or after its effect. The loop holds the
-- mowers, the commands that wait, and what was sent; a round of it acts on both. The app's page works
-- on its files and its lock, with reads and writes that may fail. A site holds the app's files, the worker's
-- process, the gateway's service and how each call to come ends, and lists whether the worker and the
-- service ran after each change of either. JSON is a data type; `json.loads`, `json.dumps`,
-- SHA-256, `uuid4`, `secrets`, `tarfile`, `float`, `str.strip` and `str` of other values are arguments.
--
-- Loops and fuel. `_recv_exact(n)` runs at most n rounds, since each brings a byte; the remaining
-- length of an MQTT packet has at most four digits, since the code raises at a fourth that goes on.
-- The wait of an installation for the gateway's health takes 120 seconds in rounds of three at least,
-- so it has 41 rounds. `discover_mowers` has one round more than there are bytes to come, since every
-- text takes some; its deadline of 30 seconds may end it before. The loops of `collect_existing` and
-- `collect_publisher_mower_identities` run over the list of what their reads give. All other loops are
-- structural.
--
-- Not modelled: the WebSocket handshake, the HTTP and SSH transport of gateway.py, and
-- what `main` of app.py and `run` of worker.py do before and after their loops, which are I/O around
-- the parts above or are left to be added; the shell commands that go to the gateway, which take part
-- by their effect; the gateway runtime in Go (gardena_local_mqtt/gateway_runtime/), which is another
-- program.
pub mod Base
pub mod Text
pub mod Transport
pub mod WebSocket
pub mod Json
pub mod Mower
pub mod Telemetry
pub mod Worker
pub mod Handler
pub mod Deploy
pub mod Discover
pub mod Identity
pub mod Options
pub mod Diagnostics
pub mod Mqtt
