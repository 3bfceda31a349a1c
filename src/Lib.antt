-- ===== src/Lib.antt =====
-- Master-All-Strings: a verification library of the Python package src/master_all_strings.
--
-- The package turns a captured guitar performance into a canonical score and works with scores,
-- lessons and practice sessions. Paths are relative to src/master_all_strings, here and in the other
-- files. The parts that are modelled, from the bottom up:
--
-- Foundation, Events: core/foundation.py and core/musical_events/models.py, the validators that the
-- domain packages share and the pitch event independent of an instrument.
--
-- Score: core/score. Rounding holds divide_round_half_away_from_zero, Timing the conversions between
-- nanoseconds and ticks with their residues, Tempo and Meter the changes with their validation,
-- Timeline the normalized tempo map and the walk over it in both directions, Canonicalize the
-- canonical orders, with Canonicalize/Ascending, which states the order of events without their sort
-- key. Timeline/Spec is the description of elapsed time by functions of natural
-- numbers, segment by segment, which have no error and no sign. A float of seconds is a numerator over a
-- power of two, and the product of floats that makes it is the parameter FloatSeconds, with what IEEE
-- arithmetic promises of it. Repository is the in-memory store of
-- core/score/repository.py as actions on its three dictionaries: Laws has sequences of writes, Links
-- the invariant between the dictionaries, Refusals the writes that raise, Returns what a save answers.
-- Errors, Provenance and Models are the validators and the records that they guard. Digest serializes
-- a revision's content with the json.dumps of Prelude/Json and hashes it: SHA-256 and repr of a float
-- are the parameter Hashing. Ids has the authorities that issue document ids behind one interface.
-- Revisions and Service are revision_service.py, as actions on the repository and on the state of any
-- id authority: Service/Steps says what a call leaves behind on every branch, Chains and History are
-- the invariant of a document's revisions, Runs the states that calls reach, and Catalog the
-- specification, a log of revisions for each document. Where two contents must not share a hash this is
-- a hypothesis on the contents that meet in the run (NoClash), since no hash is injective.
--
-- Ingestion: core/ingestion. Contracts holds the request and the outcome, Conversion makes a pair of
-- messages a note, Policy is the import of direct events: notes wait in a queue by pitch and channel, a release takes the first that waits, and what
-- cannot be converted is rejected by name. Events, provenance, rejections and warnings go through the
-- checks of their constructors: Policy/Built says what these let through, Policy/Sound what they
-- accept, Policy/Waiting what a step keeps. It uses Score/Timing and makes Events. Requests and Results
-- are what the constructors of requests and results check, Fingerprint the identity of a request as the
-- hash of a json text, and Service the object that turns a request into a document by the calls of
-- Score/Service, which it keeps as a part of its state. Service/Effects is the interface between its
-- method and an invariant: a record of the three ways in which a request changes the object. Service/
-- Idempotency and Conflicts are about a request id that is used again.
--
-- Performance: performance/contracts and performance/capture_normalization.py (Errors, Runtimes,
-- Sessions, Capture, CommandResults), and performance/adapters/fake_runtime.py with
-- performance/adapters/clock.py (FakeRuntime: Lifecycle, Capturing, Feed, Health). A method of the
-- runtime is an action on a record of the object's fields, in Prelude/Action: an exception keeps what
-- was written before it. FakeRuntime/Operations makes every call a value and runs sequences of them.
-- Pairing is performance/note_pairing.py with performance/contracts/live_midi.py.
-- FakeRuntime/Stability is the interface between the methods and an invariant of the captures: a
-- record of the four ways in which captures change, which each invariant fills in
-- FakeRuntime/Evidence, and from which every method is shown to keep it.
--
-- Education: education. Errors are its validators, Actions the advised next action, Encoding the dicts
-- of to_dict and their json text with sorted keys. GuidedSession is guided_session.py: the records and
-- their checks, with Digest, which hashes a session. Rules and Service are guided_session_service.py,
-- whose operations are functions from a session to a session or an error. Steps makes a call a value
-- and has the sessions that calls reach, Phases says which status goes with which action, Effects and
-- Progress what each way to change a session leaves, Invariant and Records what follows for all calls.
-- Findings are the findings, ranges and policies of contracts.py, and Recommendations the choice of
-- actions, with Evidence, Total and Kinds about it. A rate is the bits of a float, a ratio is counted in
-- 10^-9, and the
-- ratio of findings is compared without the rounding of a quotient of floats, which changes no answer
-- below a million events.
--
-- Conventions. Python's int is the signed integer of Prelude/Int where it may be negative, and a
-- natural number where validation excludes that. A str is the list of its code points. A dict is the
-- list of its entries in insertion order, an exception the err of a Result. Type checks of arguments
-- (isinstance) hold by typing and have no counterpart; schema_version is the constant of its class and
-- left out. The message of an exception is a constructor. The float of an event's offset is
-- its bits (Prelude/Float), so that the two zeros differ; other floats occur as fields only, counted in
-- 10^-9. datetime.fromisoformat is the parameter Iso8601 and str.lower the parameter Lowercase, of which
-- nothing is assumed.
--
-- Termination and fuel. All loops are structural recursion on their lists. The decimal digits of a
-- number are written with its value plus one as fuel, which no number exceeds in digits.
--
-- Not modelled: floating-point views of time, JSON records, hash functions, files, processes, servers, the command
-- line, the web front end, the rest of education, and the packages lesson, media, presentation, mvp,
-- core/projections, core/spatial_mapping and integrations.
pub mod Prelude
pub mod Foundation
pub mod Events
pub mod Score
pub mod Ingestion
pub mod Performance
pub mod Education
mod Tests
