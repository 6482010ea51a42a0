-- ===== src/ScheduleStore/Decode.antt =====
-- `decode_record` and `intact_future_schema_generation` of
-- firmware/components/alarm_core/schedule_store.cpp, and what they call.
use dawn_dock.Common.{
  ℕ, zero, suc, ◌-◌, ltb, leb, ◌==◌, not, ◌&&◌, ◌||◌, List, [], ◌∷◌, Option, none, some,
  if◌then◌else◌, length, take, drop, Bytes, bytes_eq, codes, ℤ,
}
use dawn_dock.AlarmEngine.{
  ActiveOccurrence, TerminalOccurrence, TerminalHighWatermark, PersistentAlarmState,
  recent_terminal_retention, terminal_high_watermark_capacity,
}
use dawn_dock.ScheduleStore.Types.{
  StoredAlarmDefinition, ScheduleSnapshot, DecodedRecord, current_storage_schema_version,
  maximum_stored_alarms, maximum_storage_record_bytes,
}
use dawn_dock.ScheduleStore.Validate.{validate_snapshot}
use dawn_dock.ScheduleStore.Bytestream.{
  Reader, ◌>>=◌, ◌>>◌, pure, require, read_integer, read_int64, read_string, read_boolean,
  update_crc32, crc32,
}
use Prim.Native.Nat.{bit_xor}
use dawn_dock.ScheduleStore.Encode.{magic, header_size, decode_reason}

unfoldable pub read_deadline : Reader (Option ℤ)
read_deadline = do
  has_deadline ← read_boolean
  if has_deadline then (do deadline ← read_int64; pure (some deadline)) else pure none

unfoldable pub read_active : Reader (Option ActiveOccurrence)
unfolding read_deadline
read_active = do
  has_active ← read_boolean
  if has_active
      then (do
        alarm_id ← read_string
        occurrence_id ← read_string
        scheduled ← read_int64
        first_utc ← read_int64
        first_monotonic ← read_int64
        deadline ← read_deadline
        snooze_count ← read_integer 1
        recovered ← read_boolean
        boot_id ← read_string
        pure (
            some (record {
              alarm_id = alarm_id;
              occurrence_id = occurrence_id;
              scheduled_utc_seconds = scheduled;
              first_ring_utc_seconds = first_utc;
              first_ring_monotonic_seconds = first_monotonic;
              snooze_deadline_monotonic_seconds = deadline;
              snooze_count = snooze_count;
              recovered_after_reboot = recovered;
              last_recovery_boot_id = boot_id;
            })))
      else pure none

unfoldable pub read_terminal : Reader TerminalOccurrence
read_terminal = do
  occurrence_id ← read_string
  code ← read_integer 1
  elim (decode_reason code) [
    | none ↦ λ bytes. none
    | some reason ↦ pure (record { occurrence_id = occurrence_id; reason = reason })
  ]

unfoldable pub read_watermark : Reader TerminalHighWatermark
read_watermark = do
  alarm_id ← read_string
  scheduled ← read_int64
  pure (record { alarm_id = alarm_id; scheduled_utc_seconds = scheduled })

unfoldable pub read_many : {A : Type 0} → Reader A → ℕ → Reader (List A)
read_many read zero bytes = some ([], bytes)
read_many read (suc n) bytes = elim (read bytes) [
  | none ↦ none
  | some (x, rest) ↦ elim (read_many read n rest) [
    | none ↦ none
    | some (xs, end) ↦ some (x ∷ xs, end)
  ]
]

-- A count of two bytes, within its limit, and that many entries.
unfoldable pub read_list : {A : Type 0} → ℕ → Reader A → Reader (List A)
unfolding read_many
read_list limit read = do count ← read_integer 2; require (leb count limit); read_many read count

unfoldable pub read_occurrence_state : Reader PersistentAlarmState
unfolding read_active read_terminal read_watermark read_list
read_occurrence_state = do
  active ← read_active
  terminal ← read_list recent_terminal_retention read_terminal
  watermarks ← read_list terminal_high_watermark_capacity read_watermark
  pure (record { active = active; terminal = terminal; terminal_high_watermarks = watermarks })

unfoldable pub read_alarm : Reader StoredAlarmDefinition
read_alarm = do
  id ← read_string
  revision ← read_integer 8
  enabled ← read_boolean
  scheduled ← read_int64
  pure (record {
    id = id;
    schedule_revision = revision;
    enabled = enabled;
    scheduled_utc_seconds = scheduled;
  })

-- A record of schema 1 has no version of the time zone rules.
unfoldable pub read_version : ℕ → Reader Bytes
read_version schema =
    if schema == current_storage_schema_version
    then read_string
    else pure (codes "legacy-v1-unpinned")

unfoldable pub read_payload : ℕ → Reader ScheduleSnapshot
unfolding read_version read_alarm read_occurrence_state
read_payload schema = do
  revision ← read_integer 8
  version ← read_version schema
  alarms ← read_list maximum_stored_alarms read_alarm
  state ← read_occurrence_state
  pure (record {
    revision = revision;
    timezone_rules_version = version;
    alarms = alarms;
    occurrence_state = state;
  })

pub record Header : Type 0 where
  pub schema : ℕ
  pub reserved : ℕ
  pub generation : ℕ
  pub payload_size : ℕ
  pub expected_crc : ℕ

unfoldable pub read_header : Reader Header
read_header = do
  schema ← read_integer 2
  reserved ← read_integer 2
  generation ← read_integer 8
  payload_size ← read_integer 4
  expected_crc ← read_integer 4
  pure (record {
    schema = schema;
    reserved = reserved;
    generation = generation;
    payload_size = payload_size;
    expected_crc = expected_crc;
  })

-- The tests on the size and the magic, and the header behind it.
unfoldable pub open_record : Bytes → Option Header
unfolding read_header
open_record bytes =
    if ltb (length bytes) header_size
      || (ltb maximum_storage_record_bytes (length bytes) || not (bytes_eq (take 4 bytes) magic))
    then none
    else elim (read_header (drop 4 bytes)) [ none ↦ none | some (header, rest) ↦ some header ]

unfoldable pub current_record_crc : Bytes → ℕ
current_record_crc bytes =
    bit_xor
      (update_crc32 (update_crc32 0xffffffff (take 16 (drop 4 bytes))) (drop header_size bytes))
      0xffffffff

abbrev pub record_crc : ℕ → Bytes → ℕ
record_crc schema bytes =
    if schema == 1 then crc32 (drop header_size bytes) else current_record_crc bytes

-- The payload must be read to its end, and hold a valid snapshot.
unfoldable pub finish_decode : Header → Option (ScheduleSnapshot × Bytes) → Option DecodedRecord
finish_decode header none = none
finish_decode header (some (snapshot, rest)) =
    if not (length rest == 0) || not (validate_snapshot snapshot)
    then none
    else some (record {
      snapshot = snapshot;
      generation = header.generation;
      migrated = not (header.schema == current_storage_schema_version);
    })

unfoldable pub decode_record : Bytes → Option DecodedRecord
unfolding open_record current_record_crc read_payload finish_decode
decode_record bytes = elim (open_record bytes) [
  | none ↦ none
  | some header ↦
      if not (header.reserved == 0)
        || (header.generation == 0
            || ((not (header.schema == 1) && not (header.schema == current_storage_schema_version))
                || not (header.payload_size == length bytes - header_size)))
      then none
      else if not (record_crc header.schema bytes == header.expected_crc)
      then none
      else finish_decode header (read_payload header.schema (drop header_size bytes))
]

unfoldable pub intact_future_schema_generation : Bytes → Option ℕ
unfolding open_record current_record_crc
intact_future_schema_generation bytes = elim (open_record bytes) [
  | none ↦ none
  | some header ↦
      if not (header.reserved == 0)
        || (header.generation == 0
            || (leb header.schema current_storage_schema_version
                || (not (header.payload_size == length bytes - header_size)
                    || not (current_record_crc bytes == header.expected_crc))))
      then none
      else some header.generation
]
