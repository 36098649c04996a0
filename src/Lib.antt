-- ===== src/Lib.antt =====
-- The lock integration of this repository, custom_components/onesti_lock, as functions and their laws.
-- It has two halves. The Bluetooth library (ble/) speaks the lock's own protocol: bytes are cut into
-- packets and blobs, payloads are commands and responses, a session exchanges keys and then runs one
-- encrypted command at a time. The Home Assistant half reaches the same lock over ZHA: a transport
-- sends Zigbee commands and wakes a sleeping lock, a coordinator keeps the slots of one lock in its
-- config entry, services are how a user writes them, and reports of the lock become events. Apart from
-- both, scripts/release_publish.py publishes a version.
--
-- Which file models which part:
--   Base and its children: shared types and lemmas, not of this program: results of code that raises,
--     lists measured by native numbers, bit masks, dicts as lists of items.
--   Ble.Const, Ble.Error: ble/protocol/const.py, ble/errors.py. An IntEnum is a data type with `value`
--     and `of_value`; an exception is a value, its message is not modelled.
--   Ble.Streams: ble/protocol/streams.py. A byte is a number below 256; a text is its code points.
--   Ble.Packet, Ble.Packetize, Ble.Blob, Ble.Stream: ble/protocol/packet.py and blob.py. `PacketStream`
--     is a record, and each of its methods returns it again beside its result, so that what a method
--     wrote before it raised is kept.
--   Ble.Command, Ble.Commands, Ble.Response, Ble.Responses, Ble.Features: the files of the same names
--     in ble/protocol.
--   Ble.Crypto: ble/crypto.py, over two parameters: one run of AES-CBC and the curve of the
--     `cryptography` package. IsCbc and IsCurve say what is relied on. Ble.Link joins the layers.
--   Ble.Session: ble/client/session.py. A session is a record; notifications, a dropped link and a
--     close are steps on it (`step`, `steps`). An exchange is given its course: the clock, what arrives
--     while it pauses and while it waits, and a write that fails. The end of what arrives is the
--     deadline, so an exchange always ends. `connect` is given the answers of the transport.
--   Ble.Auth, Ble.Advertisement: ble/client/auth.py, ble/protocol/advertisement.py. SHA-1 is a parameter.
--   Ble.Enrollment: ble/client/enrollment.py: what is stored and how it is checked, `enroll` and
--     `resume_enrollment` over a session. The two share what runs the remaining steps. What leaves the
--     process is a list of acts: the frames of a login or of a step, and each call of `save`. Whether
--     a save returns, and the course of every exchange, are inputs, and so are the random keys.
--   Integration.PinRules, Integration.Redact, Integration.Events: pin_rules.py, redact.py, events.py.
--   Integration.Zha: zha.py. How each attempt and a wake end is an input; what goes out is a list of
--     acts, since a wake drives the bolt.
--   Integration.Coordinator: coordinator.py. The world is the entry's options, this coordinator, and
--     the one that a reload has made; a send returns the world that it leaves, since other code runs
--     while it is awaited.
--   Integration.Services: services.py.
--   Integration.ZhaDevices: the part of zha.py that lists the locks of ZHA and their models.
--   Integration.Lifecycle: the setup of an entry in __init__.py, and the availability of coordinator.py:
--     whether lock events reach the entry. What is done is a list of happenings.
--   Integration.Migration: the versions of an entry in __init__.py, and the rewriting of the keys of the
--     registries, as the calls made on them; `Pass` of Migration.Keys says what those calls are.
--     Migration.Registry is what is relied on of the entity registry: a key is taken where a row has it.
--   Integration.ConfigFlow, Integration.OptionsFlow: config_flow.py. A step takes what the user entered,
--     or nothing, and gives a form, an abort or an entry; a step of the options also starts a write of
--     Integration.Coordinator. What Home Assistant knows of unique ids is an input.
--   Release: scripts/release_publish.py. What git and GitHub answer is an input, and what is written to
--     GitHub a list of writes; hashing, archives and Python's parser are parameters. Release.Zip builds,
--     Release.Guards reads, Release.Published proves what is out, Release.Publish is the flow.
--   Ble.Examples, Integration.Examples, Release.Examples: concrete inputs.
--
-- Bounds: loops are structural recursion on the list that they read, but for `later_chunks` of
-- Ble.Packetize, which counts down from the length of the payload: each round takes at least one byte
-- of it. Fields are unsigned: a writer refuses what does not fit, and a
-- reader gets back less than 2 ^ (8 * size). Subtractions that Python would take below zero are tested
-- before. Time is in milliseconds.
--
-- Not modelled: the bleak transport and bluetooth.py, which adapt the session to the libraries of a
-- host; the tracer; the entities, diagnostics and translations; the registering of platforms, services
-- and unload callbacks with Home Assistant; the text rules of the changelog, and the other scripts.
-- They are input and output, or adapters to libraries. Logging is left out throughout, but for the two
-- lines that say whether lock events reach the entry.
pub mod Base
pub mod Ble
pub mod Integration
pub mod Release
