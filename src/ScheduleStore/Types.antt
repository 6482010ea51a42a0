-- ===== src/ScheduleStore/Types.antt =====
-- The constants and types of firmware/components/alarm_core/include/dawn/schedule_store.hpp.
use dawn_dock.Common.{ℕ, ◌*◌, ℤ, Bool, false, List, [], none, Bytes}
use dawn_dock.AlarmEngine.{PersistentAlarmState}

abbrev pub current_storage_schema_version : ℕ
current_storage_schema_version = 2

abbrev pub maximum_stored_alarms : ℕ
maximum_stored_alarms = 32

abbrev pub maximum_alarm_id_bytes : ℕ
maximum_alarm_id_bytes = 64

abbrev pub maximum_occurrence_id_bytes : ℕ
maximum_occurrence_id_bytes = 160

abbrev pub maximum_boot_id_bytes : ℕ
maximum_boot_id_bytes = 64

abbrev pub maximum_timezone_version_bytes : ℕ
maximum_timezone_version_bytes = 64

abbrev pub maximum_storage_record_bytes : ℕ
maximum_storage_record_bytes = 64 * 1024

pub record StoredAlarmDefinition : Type 0 where
  pub id : Bytes
  pub schedule_revision : ℕ
  pub enabled : Bool
  pub scheduled_utc_seconds : ℤ

pub record ScheduleSnapshot : Type 0 where
  pub revision : ℕ
  pub timezone_rules_version : Bytes
  pub alarms : List StoredAlarmDefinition
  pub occurrence_state : PersistentAlarmState

-- A default-constructed snapshot.
abbrev pub default_snapshot : ScheduleSnapshot
default_snapshot = record {
  revision = 0;
  timezone_rules_version = [];
  alarms = [];
  occurrence_state = record { active = none; terminal = []; terminal_high_watermarks = [] };
}

pub data StorageSlot : Type 0 where
  a b : StorageSlot

pub data SlotReadStatus : Type 0 where
  empty present io_error : SlotReadStatus

pub record SlotReadResult : Type 0 where
  pub status : SlotReadStatus
  pub bytes : Bytes

-- The abstract class of the slots: a state of the device and its four operations. `write` returns
-- the new state of the device and whether it reports success.
pub record SlotStorage : Type 1 where
  pub Device : Type 0
  pub begin_transaction : Device → Device × Bool
  pub end_transaction : Device → Device
  pub read : Device → StorageSlot → SlotReadResult
  pub write : Device → StorageSlot → Bytes → Device × Bool

pub data LoadStatus : Type 0 where
  empty loaded corrupt unsupported_schema ambiguous io_error : LoadStatus

pub data StoreStatus : Type 0 where
  stored unchanged revision_conflict generation_conflict invalid_snapshot : StoreStatus
  corrupt_store io_error verification_failed : StoreStatus

pub record LoadResult : Type 0 where
  pub status : LoadStatus
  pub snapshot : ScheduleSnapshot
  pub generation : ℕ
  pub source : StorageSlot
  pub migrated : Bool
  pub corruption_detected : Bool

-- A default-constructed `LoadResult`.
abbrev pub default_load : LoadResult
default_load = record {
  status = LoadStatus.empty;
  snapshot = default_snapshot;
  generation = 0;
  source = StorageSlot.a;
  migrated = false;
  corruption_detected = false;
}

pub record StoreResult : Type 0 where
  pub status : StoreStatus
  pub generation : ℕ
  pub destination : StorageSlot

pub record DecodedRecord : Type 0 where
  pub snapshot : ScheduleSnapshot
  pub generation : ℕ
  pub migrated : Bool
