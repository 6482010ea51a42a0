-- ===== src/ScheduleStore/Encode.antt =====
-- `encode_record` of firmware/components/alarm_core/schedule_store.cpp, and what it calls.
use dawn_dock.Common.{
  ℕ, zero, suc, ◌+◌, ltb, Bool, not, List, [], ◌∷◌, ◌++◌, map, Option, none, some, if◌then◌else◌,
  length, Bytes, ℤ,
}
use dawn_dock.AlarmEngine.{
  ActiveOccurrence, TerminalOccurrence, TerminalHighWatermark, PersistentAlarmState, TerminalReason,
}
use dawn_dock.ScheduleStore.Types.{
  StoredAlarmDefinition, ScheduleSnapshot, current_storage_schema_version,
  maximum_storage_record_bytes,
}
use dawn_dock.ScheduleStore.Validate.{validate_snapshot}
use dawn_dock.ScheduleStore.Bytestream.{write_integer, write_int64, write_string, crc32}

-- "DDST".
abbrev pub magic : Bytes
magic = 68 ∷ 68 ∷ 83 ∷ 84 ∷ []

abbrev pub header_size : ℕ
header_size = 24

-- What a row of writes appends, if none of them fails.
abbrev pub join : List (Option Bytes) → Option Bytes
join [] = some []
join (none ∷ parts) = none
join (some bytes ∷ parts) = elim (join parts) [ none ↦ none | some rest ↦ some (bytes ++ rest) ]

abbrev pub encode_boolean : Bool → ℕ
encode_boolean value = if value then 1 else 0

abbrev pub encode_reason : TerminalReason → ℕ
encode_reason TerminalReason.dismissed = 0
encode_reason TerminalReason.alarm_disabled = 1
encode_reason TerminalReason.timed_out = 2
encode_reason TerminalReason.forward_jump = 3
encode_reason TerminalReason.invalid_time = 4
encode_reason TerminalReason.prolonged_power_off = 5

abbrev pub decode_reason : ℕ → Option TerminalReason
decode_reason zero = some TerminalReason.dismissed
decode_reason (suc zero) = some TerminalReason.alarm_disabled
decode_reason (suc (suc zero)) = some TerminalReason.timed_out
decode_reason (suc (suc (suc zero))) = some TerminalReason.forward_jump
decode_reason (suc (suc (suc (suc zero)))) = some TerminalReason.invalid_time
decode_reason (suc (suc (suc (suc (suc zero))))) = some TerminalReason.prolonged_power_off
decode_reason (suc (suc (suc (suc (suc (suc n)))))) = none

unfoldable pub write_deadline : Option ℤ → Bytes
write_deadline none = write_integer 1 0
write_deadline (some deadline) = write_integer 1 1 ++ write_int64 deadline

unfoldable pub write_active : Option ActiveOccurrence → Option Bytes
unfolding write_deadline
write_active none = some (write_integer 1 0)
write_active (some active) = join (
    some (write_integer 1 1)
    ∷ write_string active.alarm_id
    ∷ write_string active.occurrence_id
    ∷ some (write_int64 active.scheduled_utc_seconds)
    ∷ some (write_int64 active.first_ring_utc_seconds)
    ∷ some (write_int64 active.first_ring_monotonic_seconds)
    ∷ some (write_deadline active.snooze_deadline_monotonic_seconds)
    ∷ some (write_integer 1 active.snooze_count)
    ∷ some (write_integer 1 (encode_boolean active.recovered_after_reboot))
    ∷ write_string active.last_recovery_boot_id
    ∷ [])

unfoldable pub write_terminal : TerminalOccurrence → Option Bytes
write_terminal terminal = join (
    write_string terminal.occurrence_id
    ∷ some (write_integer 1 (encode_reason terminal.reason))
    ∷ [])

unfoldable pub write_watermark : TerminalHighWatermark → Option Bytes
write_watermark watermark =
    join (write_string watermark.alarm_id ∷ some (write_int64 watermark.scheduled_utc_seconds) ∷ [])

-- The count of a row in two bytes, and its entries.
unfoldable pub write_list : {A : Type 0} → (A → Option Bytes) → List A → Option Bytes
write_list write xs = join (some (write_integer 2 (length xs)) ∷ map write xs)

unfoldable pub write_occurrence_state : PersistentAlarmState → Option Bytes
unfolding write_active write_terminal write_watermark write_list
write_occurrence_state state = join (
    write_active state.active
    ∷ write_list write_terminal state.terminal
    ∷ write_list write_watermark state.terminal_high_watermarks
    ∷ [])

unfoldable pub write_alarm : StoredAlarmDefinition → Option Bytes
write_alarm alarm = join (
    write_string alarm.id
    ∷ some (write_integer 8 alarm.schedule_revision)
    ∷ some (write_integer 1 (encode_boolean alarm.enabled))
    ∷ some (write_int64 alarm.scheduled_utc_seconds)
    ∷ [])

unfoldable pub write_payload : ScheduleSnapshot → Option Bytes
unfolding write_occurrence_state write_alarm
write_payload snapshot = join (
    some (write_integer 8 snapshot.revision)
    ∷ write_string snapshot.timezone_rules_version
    ∷ write_list write_alarm snapshot.alarms
    ∷ write_occurrence_state snapshot.occurrence_state
    ∷ [])

-- The part of the header that the checksum covers: schema, reserved, generation, payload size.
unfoldable pub protected_header : ℕ → ℕ → Bytes
protected_header generation payload_size =
    write_integer 2 current_storage_schema_version
    ++ (write_integer 2 0 ++ (write_integer 8 generation ++ write_integer 4 payload_size))

-- The record around a payload.
unfoldable pub frame : ℕ → Bytes → Bytes
unfolding protected_header
frame generation payload =
    let header = protected_header generation (length payload) in
    magic ++ (header ++ (write_integer 4 (crc32 (header ++ payload)) ++ payload))

unfoldable pub encode_record : ScheduleSnapshot → ℕ → Option Bytes
unfolding validate_snapshot write_payload frame
encode_record snapshot generation =
    if not (validate_snapshot snapshot) then none else elim (write_payload snapshot) [
      | none ↦ none
      | some payload ↦
          if ltb maximum_storage_record_bytes (length payload + header_size)
          then none
          else some (frame generation payload)
    ]
