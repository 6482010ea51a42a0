-- ===== src/ScheduleStore/Tests.antt =====
-- The schedule store over a device in memory, and its theorems at concrete inputs.
use dawn_dock.Common.{
  false, ◌++◌, ℕ, ◌+◌, ◌%◌, ◌≡◌, ◌≢◌, refl, arith, ◌↔◌, Bool, true, none, [], ◌∷◌, map, Bytes, inl,
  inr, ◌⊎◌, not, bytes_eq, codes, pos, length, take,
}
use dawn_dock.AlarmEngine.{PersistentAlarmState}
use dawn_dock.ScheduleStore.Types.{
  DecodedRecord, StorageSlot, SlotReadStatus, SlotReadResult, SlotStorage, LoadStatus,
  ScheduleSnapshot, StoreStatus,
}
use dawn_dock.ScheduleStore.Validate.{
  validate_snapshot, valid_string, valid_optional_string, validate_alarms, validate_active,
  validate_terminal, validate_watermarks, validate_occurrence_state,
}
use dawn_dock.ScheduleStore.Bytestream.{
  write_integer, write_string, read_integer, read_int64, read_bytes, read_string, read_boolean,
  crc_round, crc_rounds, update_crc32, crc32,
}
use dawn_dock.ScheduleStore.Encode.{
  magic, write_deadline, write_active, write_terminal, write_watermark, write_list,
  write_occurrence_state, write_alarm, write_payload, protected_header, frame, encode_record,
}
use dawn_dock.ScheduleStore.Decode.{
  read_deadline, read_active, read_terminal, read_watermark, read_many, read_list,
  read_occurrence_state, read_alarm, read_version, read_payload, read_header, open_record,
  current_record_crc, finish_decode, decode_record, intact_future_schema_generation,
}
use dawn_dock.ScheduleStore.Compare.{snapshots_equal}
use dawn_dock.ScheduleStore.Equality.{snapshots_equal_iff}
use dawn_dock.ScheduleStore.Load.{
  scan_decoded, scan_present, scan_slot, finish_known, finish_scan, load_unlocked, in_transaction,
}
use dawn_dock.ScheduleStore.Slots.{IsOlder, is_torn}
use dawn_dock.ScheduleStore.Durable.{IsByteString, SlotLaws, IsCurrent}
use dawn_dock.ScheduleStore.Reads.{ReadsAs}
use dawn_dock.ScheduleStore.Commits.{
  save-stored, save_occurrence_state-stored, migrate_to_current_schema-stored,
}
use dawn_dock.ScheduleStore.Failures.{is_refusal, save-refusal, save-survives}
use dawn_dock.ScheduleStore.Races.{save-once, save_occurrence_state-once}
use dawn_dock.ScheduleStore.Commit.{
  opposite, verify_written, replace_slot, carry_journal, save_loaded, save, save_occurrence_loaded,
  save_occurrence_state, migrate_loaded, migrate_to_current_schema,
}

-- What two slots hold; a slot is made of bytes.
pub record Slots : Type 0 where
  first : SlotReadResult
  second : SlotReadResult

abbrev as_bytes : SlotReadResult → SlotReadResult
as_bytes slot = record slot { bytes = map (λ byte. byte % 256) slot.bytes }

abbrev read_slot : Slots → StorageSlot → SlotReadResult
read_slot slots StorageSlot.a = as_bytes slots.first
read_slot slots StorageSlot.b = as_bytes slots.second

abbrev write_slot : Slots → StorageSlot → Bytes → Slots × Bool
write_slot slots StorageSlot.a bytes =
    (record slots { first = record { status = SlotReadStatus.present; bytes = bytes } }, true)
write_slot slots StorageSlot.b bytes =
    (record slots { second = record { status = SlotReadStatus.present; bytes = bytes } }, true)

abbrev pub memory : SlotStorage
memory = record {
  Device = Slots;
  begin_transaction = λ slots. (slots, true);
  end_transaction = λ slots. slots;
  read = read_slot;
  write = write_slot;
}

map-IsByteString : (bytes : Bytes) → IsByteString (map (λ byte. byte % 256) bytes)
map-IsByteString [] = tt
map-IsByteString (byte ∷ bytes) = (ground arith, map-IsByteString bytes)

read_slot-IsByteString :
    (slots : Slots) (slot : StorageSlot) → IsByteString (read_slot slots slot).bytes
read_slot-IsByteString slots StorageSlot.a = map-IsByteString slots.first.bytes
read_slot-IsByteString slots StorageSlot.b = map-IsByteString slots.second.bytes

write_slot_other :
    (slots : Slots) (slot : StorageSlot) (bytes : Bytes)
    → read_slot (write_slot slots slot bytes).0 (opposite slot) ≡ read_slot slots (opposite slot)
write_slot_other slots StorageSlot.a bytes = refl
write_slot_other slots StorageSlot.b bytes = refl

pub memory_laws : SlotLaws memory
memory_laws = record {
  read_bytes = read_slot-IsByteString;
  begin_reads = λ d slot. refl;
  end_reads = λ d slot. refl;
  write_other = λ d slot bytes. inl (write_slot_other d slot bytes);
}

abbrev blank : Slots
blank = record {
  first = record { status = SlotReadStatus.empty; bytes = [] };
  second = record { status = SlotReadStatus.empty; bytes = [] };
}

abbrev no_journal : PersistentAlarmState
no_journal = record { active = none; terminal = []; terminal_high_watermarks = [] }

abbrev journal : PersistentAlarmState
journal = record {
  active = none;
  terminal = [];
  terminal_high_watermarks = record { alarm_id = codes "w"; scheduled_utc_seconds = pos 9 } ∷ [];
}

abbrev schedule : ℕ → ScheduleSnapshot
schedule revision = record {
  revision = revision;
  timezone_rules_version = codes "2024a";
  alarms =
      record {
        id = codes "w";
        schedule_revision = 1;
        enabled = true;
        scheduled_utc_seconds = pos 9;
      }
      ∷ [];
  occurrence_state = no_journal;
}

-- What a run of the store unfolds.
unfoldable pub store : Unit {0}
unfolding validate_snapshot valid_string valid_optional_string validate_alarms validate_active
    validate_terminal validate_watermarks validate_occurrence_state write_integer write_string
    read_integer read_int64 read_bytes read_string read_boolean crc_round crc_rounds update_crc32
    crc32 write_deadline write_active write_terminal write_watermark write_list
    write_occurrence_state write_alarm write_payload protected_header frame encode_record
    read_deadline read_active read_terminal read_watermark read_many read_list read_occurrence_state
    read_alarm read_version read_payload read_header open_record current_record_crc finish_decode
    decode_record intact_future_schema_generation snapshots_equal scan_decoded scan_present
    scan_slot finish_known finish_scan load_unlocked in_transaction verify_written replace_slot
    save_loaded save save_occurrence_loaded save_occurrence_state migrate_loaded
    migrate_to_current_schema bytes_eq
store = tt

saves : (save memory (schedule 1) 0 blank).1.status ≡ StoreStatus.stored
unfolding store
saves = refl

save-stored_example :
    IsCurrent memory
      (save memory (schedule 1) 0 blank).0
      (carry_journal memory (load_unlocked memory blank) (schedule 1))
      ((load_unlocked memory blank).generation + 1)
save-stored_example = save-stored memory memory_laws blank (schedule 1) 0 saves

-- The two slots after a first save.
unfoldable pub saved : Slots
unfolding save
saved = (save memory (schedule 1) 0 blank).0

journals : (save_occurrence_state memory journal 1 1 saved).1.status ≡ StoreStatus.stored
unfolding store saved
journals = refl

save_occurrence_state-stored_example :
    IsCurrent memory
      (save_occurrence_state memory journal 1 1 saved).0
      (record ((load_unlocked memory saved).snapshot) { occurrence_state = journal })
      ((load_unlocked memory saved).generation + 1)
save_occurrence_state-stored_example =
    save_occurrence_state-stored memory memory_laws saved journal 1 1 journals

-- A record of the earlier schema.
unfoldable legacy : Slots
unfolding store
legacy =
    let payload =
      write_integer 8 1
      ++ (write_integer 2 0 ++ (write_integer 1 0 ++ (write_integer 2 0 ++ write_integer 2 0))) in
    record blank {
      first = record {
        status = SlotReadStatus.present;
        bytes =
            magic
            ++ (write_integer 2 1
                ++ (write_integer 2 0
                    ++ (write_integer 8 7
                        ++ (write_integer 4 (length payload)
                            ++ (write_integer 4 (crc32 payload) ++ payload)))));
      };
    }

migrates : (migrate_to_current_schema memory legacy).1.status ≡ StoreStatus.stored
unfolding store legacy
migrates = refl

migrate_to_current_schema-stored_example :
    IsCurrent memory
      (migrate_to_current_schema memory legacy).0
      (load_unlocked memory legacy).snapshot
      ((load_unlocked memory legacy).generation + 1)
migrate_to_current_schema-stored_example =
    migrate_to_current_schema-stored memory memory_laws legacy migrates

conflicts : is_refusal (save memory (schedule 1) 0 legacy).1.status ≡ true
unfolding store legacy
conflicts = refl

save-refusal_example : ReadsAs memory (save memory (schedule 1) 0 legacy).0 legacy
save-refusal_example = save-refusal memory memory_laws legacy (schedule 1) 0 conflicts

-- A device on which every write is torn.
abbrev torn_memory : SlotStorage
torn_memory = record memory {
  write = λ slots slot bytes. ((write_slot slots slot (take 30 bytes)).0, true);
}

torn_laws : SlotLaws torn_memory
torn_laws = record {
  read_bytes = read_slot-IsByteString;
  begin_reads = λ d slot. refl;
  end_reads = λ d slot. refl;
  write_other = λ d slot bytes. inl (write_slot_other d slot (take 30 bytes));
}

saved_loads : (load_unlocked torn_memory saved).status ≡ LoadStatus.loaded
unfolding store saved
saved_loads = refl

tears : IsOlder (load_unlocked torn_memory saved).generation (
    read_slot
      (save torn_memory (schedule 2) 1 saved).0
      (opposite (load_unlocked torn_memory saved).source))
unfolding store saved
tears = is_torn refl refl refl

save-survives_example :
    IsCurrent torn_memory
      (save torn_memory (schedule 2) 1 saved).0
      (load_unlocked torn_memory saved).snapshot
      (load_unlocked torn_memory saved).generation
    ⊎ ((load_unlocked torn_memory (save torn_memory (schedule 2) 1 saved).0).status
        ≡ LoadStatus.io_error)
save-survives_example =
    save-survives torn_memory torn_laws saved (schedule 2) 1 saved_loads (inl tears)

-- A device whose writes fail, and which refuses every read and write from then on.
abbrev latched_read : Slots × Bool → StorageSlot → SlotReadResult
latched_read (slots, true) slot = record { status = SlotReadStatus.io_error; bytes = [] }
latched_read (slots, false) slot = read_slot slots slot

abbrev latching_memory : SlotStorage
latching_memory = record {
  Device = Slots × Bool;
  begin_transaction = λ device. (device, not device.1);
  end_transaction = λ device. device;
  read = latched_read;
  write = λ device slot bytes. (((write_slot device.0 slot bytes).0, true), false);
}

latched_read-IsByteString :
    (device : Slots × Bool) (slot : StorageSlot) → IsByteString (latched_read device slot).bytes
latched_read-IsByteString (slots, true) slot = tt
latched_read-IsByteString (slots, false) slot = read_slot-IsByteString slots slot

latching_laws : SlotLaws latching_memory
latching_laws = record {
  read_bytes = latched_read-IsByteString;
  begin_reads = λ d slot. refl;
  end_reads = λ d slot. refl;
  write_other = λ d slot bytes. inr (refl, refl);
}

-- Its failed write keeps nothing readable, and says so.
latches :
    (load_unlocked latching_memory (save latching_memory (schedule 2) 1 (saved, false)).0).status
    ≡ LoadStatus.io_error
unfolding store saved
latches = refl

latch_survived :
    IsCurrent latching_memory
      (save latching_memory (schedule 2) 1 (saved, false)).0
      (load_unlocked latching_memory (saved, false)).snapshot
      (load_unlocked latching_memory (saved, false)).generation
    ⊎ ((load_unlocked latching_memory (save latching_memory (schedule 2) 1 (saved, false)).0).status
        ≡ LoadStatus.io_error)
unfolding store saved
latch_survived =
    save-survives latching_memory latching_laws (saved, false) (schedule 2) 1 refl (inr refl)

save-once_example :
    (save memory (schedule 1) 0 (save memory (schedule 1) 0 blank).0).1.status ≢ StoreStatus.stored
save-once_example = save-once memory memory_laws blank (schedule 1) (schedule 1) 0 saves

save_occurrence_state-once_example :
    (save_occurrence_state memory no_journal 1 1
      (save_occurrence_state memory journal 1 1 saved).0).1.status
    ≢ StoreStatus.stored
save_occurrence_state-once_example =
    save_occurrence_state-once memory memory_laws saved journal no_journal 1 1 1 journals

-- A device that loses the acknowledgement of every write: the bytes are there, and the write says
-- that it failed.
abbrev lossy_memory : SlotStorage
lossy_memory = record memory {
  write = λ slots slot bytes. ((write_slot slots slot bytes).0, false);
}

acknowledgement_lost :
    (save_occurrence_state lossy_memory journal 1 1 saved).1.status ≡ StoreStatus.io_error
unfolding store saved
acknowledgement_lost = refl

snapshots_equal_iff_example :
    (snapshots_equal (schedule 1) (schedule 2) ≡ true) ↔ (schedule 1 ≡ schedule 2)
snapshots_equal_iff_example = snapshots_equal_iff (schedule 1) (schedule 2)

-- What `saved` holds in its first slot.
abbrev first_record : DecodedRecord
first_record = record { snapshot = schedule 1; generation = 1; migrated = false }
