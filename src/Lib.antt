-- ===== src/Lib.antt =====
-- The engine of SmartIDS: what it keeps in memory and in its files, and what it decides.
--
-- A packet goes to the session builder and to the heuristic detector; the packet processor turns
-- what they find into alerts and blocks; the response engine blocks addresses for a time; payloads
-- for the backend wait in bounded queues and in spill files.
--
-- - Packet: packet_capture/packet_models/packet_data.py, and the clock. A time is a whole number of
--   microseconds, where the source has float seconds.
-- - Heuristic: threat_detection/heuristic.py. Prune is `_prune_tracked_ips`, Evaluate is
--   `evaluate_packet`; History, Tracking, Sweeping, Capacity, Pruned and Detection lead from one
--   operation to the runs of Rules. The order of a loop over a set is the parameter `SetOrder`.
-- - Window: the time windows that the detector and the policy keep in deques.
-- - Response: response_engine. Policy is policy.py, Commands is processed_command_store.py, Activity
--   is ip_activity_tracker.py, Firewall is firewall/base.py, Linux is firewall/linux_adapter.py,
--   Windows is firewall/windows_adapter.py with firewall/factory.py, and Blocker is auto_blocker.py
--   with the events of block_records.py. `iptables` and `netsh` are parameters named `run`, with
--   the documented behaviour of the first in `Iptables`; `ipaddress` is the parameter `parse_ip`.
-- - Traffic: traffic_engine/session_builder. Stats is running_stats.py, Session is
--   traffic_session.py and session_key.py, Builder is session_builder.py. Floats are the parameter
--   `Floats`, of which no law is assumed.
-- - Forwarding: packet_capture/forwarding. Spill is disk_spill_store.py with `json` as a parameter,
--   Publisher is background_publisher.py with `publish` as a parameter; Progress is about a backend
--   that accepts everything.
--   Contracts is contracts.py, with the texts and the roundings of Python as parameters.
-- - Processor: packet_capture/processor/packet_processor.py. Processor itself is
--   `apply_backend_command` over the blocker and the command store; Alerts is `_emit_session_alert`
--   and the alert store; Respond has the payloads of alerts and block events, and Handlers what is
--   done on evidence; Pipeline is `process`, with Reporting for what is published of sessions and
--   predictions. A publisher is the list of the payloads that it was called with (Outbox). The
--   predictors are parameters, as far as their primary model goes. Steps, Once, Repeats, Evidence, Updates,
--   Announced and Quiet are theorems. Shadow is `SecondaryShadowEventPublisher`.
-- - Telemetry: packet_capture/telemetry/engine_telemetry.py. Streams and Reports are its theorems.
-- - Capture: Filters is packet_capture/utils/packet_filters.py, Features is
--   feature_engine/feature_store/feature_store.py, Statistics is feature_engine/stats.py with
--   Python's `statistics` as a parameter, and Extractor is
--   feature_engine/extractors/session_feature_extractor.py with ml/features/schema.py.
-- - Realtime: packet_capture/realtime/engine_ws_client.py over a world that `apply_command` changes.
--   What a connection brings is a value, so that the loop is a function of the turns that it makes.
--   Backoff and Delivery are its theorems.
-- - Runtime: ml/runtime. Stack is model_stack.py with live_predictor.py and
--   completed_flow_predictor.py, over models that are parameters; Tree is
--   custom_decision_tree_runtime.py. Artifacts is artifact_integrity.py, artifact_validation.py and
--   generate_artifact_checksums.py over a file system that is a function of the path.
-- - Service: packet_capture/sniffer_service.py and packet_capture/sniffers/live_sniffer.py, the turns
--   of the engine's threads over one state; Settings is what it reads from the environment. Totals,
--   Conservation and Environment are theorems.
-- - Registration: packet_capture/registration, the loopback server as a function of the requests that
--   it gets, the saved configuration and the run of a registration; Trust is its theorem.
-- - Base, Dict, Text: tests, lists, dictionaries in the order of insertion, and `str.strip`.
-- - Tests: the theorems at concrete inputs.
--
-- A method that holds its object's lock is one step. A loop is recursion over the list that it
-- visits; only the loop over the chunks of a file counts its turns, as many as the file has bytes,
-- which is enough since each chunk but the last empty one has at least one.
--
-- Not modelled: most settings of the service, the signing of requests and the command poller;
-- capture, HTTP, threads, logging and scapy, which are input and output; training and evaluation,
-- which are offline scripts.
pub mod Base
pub mod Dict
pub mod Text
pub mod Packet
pub mod Window
pub mod Heuristic
pub mod Response
pub mod Traffic
pub mod Forwarding
pub mod Tests
pub mod Processor
pub mod Capture
pub mod Telemetry
pub mod Realtime
pub mod Runtime
pub mod Service
pub mod Registration
