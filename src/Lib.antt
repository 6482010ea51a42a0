-- ===== src/Lib.antt =====
-- Verification of the Dawn Dock firmware, a bedside clock: the pure C++ of
-- firmware/components/alarm_core.
--
-- The program. The alarm engine keeps one active occurrence and a journal of terminal ones, and
-- answers every request by a new state and an `EvaluationResult`. The push inputs go through a
-- debouncer and the knob through a quadrature decoder before they reach it. The schedule store
-- keeps the schedule and the engine's state in two slots of which a commit replaces the older one.
--
-- Which file models what. `Common` holds the library names, Boolean tests, ℤ with the range of
-- `std::int64_t`, `std::string` as its bytes and `std::to_string`.
-- `AlarmEngine` is firmware/components/alarm_core/alarm_engine.cpp with its header: `Types` the
-- types, `Journal` the helpers, `Due` evaluate_due and begin_recovered_ring, `Active` the functions
-- on the active occurrence; its other children are proofs. `ControlDebounce` is control_debounce.cpp
-- and `QuadratureEncoder` quadrature_encoder.cpp of the same folder.
-- `ScheduleStore` is schedule_store.cpp with its header: `Types` the types, `Validate`
-- validate_snapshot, `Bytestream` Writer, Reader and the checksum, `Encode` and `Decode` the record,
-- `Compare` snapshots_equal, `Load` load, `Commit` migrate_to_current_schema, save and
-- save_occurrence_state. The virtual functions of SlotStorage are a parameter; what the store relies
-- on of them is the record `SlotLaws` of ScheduleStore/Durable. "Independent slots" below are these
-- laws: a write leaves the other slot as it was, or fails and has the device refuse to read it, as a
-- storage does that latches after a failed write. Every read of the store stands between the bounds of
-- a transaction, so a storage that refuses reads outside one is represented by one whose `read`
-- answers there as it would inside. ScheduleStore/Tests has devices that keep these laws: one in
-- memory, one that tears its writes, one that latches and one that loses an acknowledgement.
-- Over the engine and the store stand `CommittedEvaluator`, which is
-- committed_schedule_evaluator.cpp, `InvalidTimeRecovery`, invalid_time_recovery.cpp, and
-- `CommittedAlarmDisable`, committed_alarm_disable.cpp. `RuntimeCoordinator` is
-- runtime_coordinator.cpp, whose tick composes the evaluation and the recovery. `JsonParser` is
-- json_parser.cpp, which stands alone: `Scalars` its strings and numbers, `Values` the rest.
-- `RecurrenceResolver` is recurrence_resolver.cpp: `Types` the types and the arithmetic on days,
-- `Mapping` the rules of a timezone, `Resolve` resolve_next_occurrence. A definition has the
-- name of the function that it models; a part of a function that has a name of its own here says so
-- in a comment. State is passed and returned; an output parameter with a Boolean result is an
-- `Option`.
--
-- Bounds. A number of 64 bits is an unbounded one here, and a theorem that needs the range has it
-- as a hypothesis; the tests against overflow are those of the source. `std::to_string` is written
-- with fuel for twenty digits, which every number below 10 ^ 20 fits, and so every one of 64 bits.
-- The JSON parser recurs on the depth that its limit leaves, and its loops have one more unit of fuel
-- than there are bytes of text; each turn consumes a byte.
--
-- Not modelled: of firmware/components/alarm_core, the materializer, the reader of TZif files and
-- the message layer above the JSON parser (validation, protocol); the implementation of
-- SlotStorage over the NVS library of the platform; and everything outside firmware/components (the
-- app, the hardware, the scripts).
pub mod Common
pub mod AlarmEngine
pub mod ControlDebounce
pub mod QuadratureEncoder
pub mod ScheduleStore
pub mod CommittedEvaluator
pub mod CommittedAlarmDisable
pub mod InvalidTimeRecovery
pub mod RuntimeCoordinator
pub mod JsonParser
pub mod RecurrenceResolver
