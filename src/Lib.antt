-- ===== src/Lib.antt =====
-- OpenHDO Linker: a process that translates between the server's JSON envelopes over a WebSocket and a Tuya
-- light on the local network. Modelled from src/openhdo_linker/.
--
-- The server's client (server_client.py) turns each message into an Envelope (protocol.py) and hands it to
-- LinkerBoundary (boundary.py), which answers with envelopes. The boundary calls the driver contract
-- VendorRgbDriver (driver.py). The Tuya driver (tuya.py) builds frames of encrypted JSON from commands, and
-- reads data points (DPs) and from them the light's state (models.py) from the device's answers.
--
-- Python: what the program uses of its language. `Exc` and `Result` are exceptions and calls that may raise,
-- `Action` a method that may raise and changes its object, with rules for what it keeps,
-- `Dict` a dict in insertion order, `Value` a JSON value, `Text` and `Uuid` the readings of texts, `Bytes` the
-- packing of 32-bit words, `Round` the rounding of quotients of integers.
-- Models: models.py. `Rgb`, `Descriptor` and `Light` are its classes, `new` is a constructor with its checks.
-- Config: config.py. `new` is LinkerConfig with its checks.
-- Protocol: protocol.py. `from_dict` and `to_dict_of` are Envelope.from_dict and to_dict.
-- Driver: driver.py. VendorRgbDriver is a record of operations on the driver's state. `Driver.Supervisor` is
-- ConnectionSupervisor: `attempt` is one pass of the loop of `run`.
-- Boundary: boundary.py. LinkerBoundary is the state, an `Action` is a method that may raise. `Requests` reads
-- payloads, `Commands` is the part of `handle` for light commands with `_execute` and MemoryCommandJournal, and
-- `Sessions` is `handle_discovery`, `handle_pairing`, `register`, `state` and the dispatch of `handle`.
-- Server: server_client.py. `receive` is `_receive`, `Client` is `run` with `_session` and `_send`, `Publisher` a
-- pass of `_publish_states`.
-- Tuya: tuya.py. `Mapping` is TuyaDpMapping, `Frame` is `_frame_bytes`, `parse_frame` and `_read_frame`,
-- `Payload` is `_payload_for_command` and `decode_payload`, `Dps` is `parse_dps` and `state_from_dps`, `Control`
-- is the values that the set operations send, `Config` the checks of the device configurations, `Frame6699`
-- is `_frame_6699` and `_parse_6699`, `Discovery` reads what a datagram of the discovery holds, and `Scan` is
-- `_parse_discovery_datagram` and `_discover_sync`.
-- Tuya.Local: the class TuyaLocalDriver. Its record holds the fields of the object, with futures as numbers, and
-- logs of what was sent, slept and published. `Link` is `connect`, `_write` and `_negotiate_session`, `Reader`
-- is `_reader_loop` and `_handle_status`, `Exchange` is `_exchange`, `Polling` the polls and the light's
-- operations, `Pairing` is `pair` and the pairing state's file, `Finding` is `discover`. `Invariant` says what
-- each method leaves as it is, `Events` is the driver's life as a relation: constructed, and then methods and
-- what arrives in any order. `Contract` is the driver as the boundary and
-- the state publisher see it.
-- Runtime: runtime_config.py's readings of single settings, its RuntimeConfig (`Settings`), and
-- `_resolve_inspect_local_key` of cli.py.
-- Prelude: shared names, tests and lists. Tests: sample data and the theorems applied to it.
--
-- A method that awaits is one step: the boundary's lock makes light commands follow each other, and a call of
-- the driver takes the driver's state to its next one. An awaited call that is cut off raises TimeoutError.
-- Numbers are unbounded as Python's are; a 32-bit word is checked where struct.pack checks it. Times are whole
-- numbers of a unit in which the constants are whole: hundredths of a second in the boundary, any such unit in
-- the supervisor and in the client. The supervisor's loop runs on fuel, one for each pass, and ends once the stop
-- is set; the client's `run` does too, and two passes are enough for it.
-- Texts are sequences of code points.
--
-- Parameters, for code of libraries: `Digests` (CRC and HMAC, of 32 bytes), `Cryptography` (PKCS7 and AES-ECB
-- with their inverse laws), `Gcm` (AES-GCM with its laws), `Encodings` (base64 and MD5 texts),
-- `Colorsys` (float colour conversions, no law), `IsoTime` (ISO 8601 texts, and the times that UTC does not
-- have), `Reading` (json.loads and int of a text), `Json` (json.loads and str of a float), `Stamps` (uuid4
-- and the clock), the functions ip_address, urlparse and int10, and `Loaded` for the outcome of json.loads
-- of a message, with all that it raises; texts of a device for which json.loads raises an error that tuya.py
-- does not catch are left out. `Outside` is what TuyaLocalDriver calls, its numbered functions the answers
-- of the connection, the callbacks, the files and the clock to its n-th call, and `Lan` the sockets of a
-- scan, and `Network` the WebSocket and the stop that the client looks at. The pairing state's file holds
-- the JSON value that was written to it. Theorems that say so take it that closing a connection never
-- raises.
--
-- Not modelled: sockets, the WebSocket, tasks and locks of asyncio and logging, which are I/O; a method of
-- TuyaLocalDriver is one step, in which the reader runs only while the method awaits a future, and between
-- two methods it runs on anything that arrives; a call that is cancelled at an await is not followed further.
-- The state publisher and the receiver of a session are modelled one at a time, not step by step beside each
-- other. The rest of runtime_config.py and cli.py; smoke.py, a manual tool. The text of an exception that
-- shows a value is modelled without the value.
pub mod Prelude
pub mod Python
pub mod Models
pub mod Config
pub mod Tuya
pub mod Protocol
pub mod Driver
pub mod Boundary
pub mod Server
pub mod Runtime
pub mod Tests
