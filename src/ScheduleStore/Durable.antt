-- ===== src/ScheduleStore/Durable.antt =====
-- What the writing operations of the store leave in the two slots.
use dawn_dock.Common.{
  drop, ℕ, zero, suc, ◌<◌, ◌^◌, Bool, some, Option-cases, Bool-cases, Bytes, [], ◌∷◌, ◌≡◌, refl,
  arith, inl, inr, false, ◌⊎◌,
}
use dawn_dock.ScheduleStore.Types.{
  StorageSlot, SlotReadStatus, SlotReadResult, SlotStorage, LoadStatus, DecodedRecord,
  ScheduleSnapshot, StoreStatus,
}
use dawn_dock.ScheduleStore.Bytestream.{read_integer}
use dawn_dock.ScheduleStore.Decode.{
  Header, read_header, decode_record, open_record, finish_decode, read_payload,
}
use dawn_dock.ScheduleStore.Encode.{header_size, encode_record}
use dawn_dock.ScheduleStore.Equality.{snapshots_equal_iff}
use dawn_dock.ScheduleStore.Load.{load_unlocked}
use dawn_dock.ScheduleStore.Slots.{
  Holds, IsOlder, HoldsFound, load-HoldsFound, load-newest, record_of,
}
use dawn_dock.ScheduleStore.Commit.{opposite, replace_slot, verify_written}

-- Every element is a byte.
abbrev pub IsByteString : Bytes → Type 0
IsByteString [] = Unit
IsByteString (byte ∷ bytes) = (byte < 256) × IsByteString bytes

read_integer-lt :
    (size : ℕ) (bytes : Bytes) (value : ℕ) (rest : Bytes)
    → IsByteString bytes
    → read_integer size bytes ≡ some (value, rest)
    → (value < 256 ^ size) × IsByteString rest
unfolding read_integer
read_integer-lt zero bytes value rest b e = ground arith
read_integer-lt (suc size) [] value rest b e = ground arith
read_integer-lt (suc size) (byte ∷ bytes) value rest b e =
    elim (Option-cases (read_integer size bytes)) [
      | inl f ↦ ground arith
      | inr ((v, r), f) ↦ ground (arith, read_integer-lt size bytes v r b.1 f)
    ]

-- What the store relies on of the device, where `read` is what a read inside a transaction answers:
-- a slot holds bytes, the bounds of a transaction do not change what is read of it, and a write to
-- the other slot does so only when it fails and the device refuses reads from then on.
pub record SlotLaws (storage : SlotStorage) : Type 0 where
  pub read_bytes :
      (d : storage.Device) (slot : StorageSlot) → IsByteString (storage.read d slot).bytes
  pub begin_reads :
      (d : storage.Device) (slot : StorageSlot)
      → storage.read (storage.begin_transaction d).0 slot ≡ storage.read d slot
  pub end_reads :
      (d : storage.Device) (slot : StorageSlot)
      → storage.read (storage.end_transaction d) slot ≡ storage.read d slot
  pub write_other :
      (d : storage.Device) (slot : StorageSlot) (bytes : Bytes)
      → (storage.read (storage.write d slot bytes).0 (opposite slot)
          ≡ storage.read d (opposite slot))
        ⊎ (((storage.write d slot bytes).1 ≡ false)
            × ((storage.read (storage.write d slot bytes).0 (opposite slot)).status
                ≡ SlotReadStatus.io_error))

-- The slot holds this snapshot at this generation.
pub record HoldsSnapshot (read : SlotReadResult) (snapshot : ScheduleSnapshot) (generation : ℕ)
    : Type 0 where
  pub decoded : DecodedRecord
  pub is_held : Holds read decoded
  pub snapshot_is : decoded.snapshot ≡ snapshot
  pub generation_is : decoded.generation ≡ generation

verify_written-stored :
    (snapshot : ScheduleSnapshot) (current generation : ℕ) (slot : StorageSlot) (unmigrated : Bool)
    (written : SlotReadResult)
    → (verify_written snapshot current generation slot unmigrated written).status
      ≡ StoreStatus.stored
    → HoldsSnapshot written snapshot generation
unfolding verify_written
verify_written-stored snapshot current generation slot unmigrated written h =
    elim (Option-cases (decode_record written.bytes)) [
      | inl e ↦ ground arith
      | inr (verified, e) ↦ record {
        decoded = verified;
        is_held = record { is_present = ground arith; decodes = e };
        snapshot_is = ground (arith, snapshots_equal_iff verified.snapshot snapshot);
        generation_is = ground arith;
      }
    ]

drop-IsByteString : (n : ℕ) (bytes : Bytes) → IsByteString bytes → IsByteString (drop n bytes)
drop-IsByteString zero bytes b = b
drop-IsByteString (suc n) [] b = b
drop-IsByteString (suc n) (byte ∷ bytes) b = drop-IsByteString n bytes b.1

read_header-lt :
    (bytes : Bytes) (header : Header) (rest : Bytes)
    → IsByteString bytes
    → read_header bytes ≡ some (header, rest)
    → header.generation < 2 ^ 64
unfolding read_header
read_header-lt bytes header rest b e = elim (Option-cases (read_integer 2 bytes)) [
  | inl f ↦ ground arith
  | inr ((schema, r), f) ↦ elim (Option-cases (read_integer 2 r)) [
    | inl g ↦ ground arith
    | inr ((reserved, t), g) ↦ elim (Option-cases (read_integer 8 t)) [
      | inl k ↦ ground arith
      | inr ((generation, u), k) ↦
          let l = read_integer-lt 2 bytes schema r b f in
          let m = read_integer-lt 2 r reserved t l.1 g in
          let n = read_integer-lt 8 t generation u m.1 k in ground (arith, n.0)
    ]
  ]
]

open_record-lt :
    (bytes : Bytes) (header : Header)
    → IsByteString bytes
    → open_record bytes ≡ some header
    → header.generation < 2 ^ 64
unfolding open_record read_header
open_record-lt bytes header b e = elim (Option-cases (read_header (drop 4 bytes))) [
  | inl f ↦ ground arith
  | inr ((found, rest), f) ↦
      ground (arith, read_header-lt (drop 4 bytes) found rest (drop-IsByteString 4 bytes b) f)
]

pub decode_record-lt :
    (bytes : Bytes) (decoded : DecodedRecord)
    → IsByteString bytes
    → decode_record bytes ≡ some decoded
    → decoded.generation < 2 ^ 64
unfolding decode_record finish_decode
decode_record-lt bytes decoded b e = elim (Option-cases (open_record bytes)) [
  | inl f ↦ ground arith
  | inr (header, f) ↦ elim (Option-cases (read_payload header.schema (drop header_size bytes))) [
    | inl g ↦ ground arith
    | inr ((snapshot, rest), g) ↦ ground (arith, open_record-lt bytes header b f)
  ]
]

-- A load returns this snapshot at this generation.
pub record IsCurrent (storage : SlotStorage) (d : storage.Device) (snapshot : ScheduleSnapshot)
    (generation : ℕ) : Type 0 where
  pub is_loaded : (load_unlocked storage d).status ≡ LoadStatus.loaded
  pub snapshot_is : (load_unlocked storage d).snapshot ≡ snapshot
  pub generation_is : (load_unlocked storage d).generation ≡ generation

module _ (storage : SlotStorage) (laws : SlotLaws storage) where
  open storage use {Device, read, write}

  -- A write that is verified is in its slot, and the other slot is as it was.
  pub replace_slot-stored :
      (snapshot : ScheduleSnapshot) (current generation : ℕ) (slot : StorageSlot)
      (unmigrated : Bool) (d : Device)
      → (replace_slot storage snapshot current generation slot unmigrated d).1.status
        ≡ StoreStatus.stored
      → HoldsSnapshot
          (read (replace_slot storage snapshot current generation slot unmigrated d).0 slot)
          snapshot
          generation
  unfolding replace_slot
  replace_slot-stored snapshot current generation slot unmigrated d h =
      elim (Option-cases (encode_record snapshot generation)) [
        | inl e ↦ ground arith
        | inr (bytes, e) ↦ elim (Bool-cases (write d slot bytes).1) [
          | inl w ↦
              rw (replace_slot, e, w)
                (verify_written-stored snapshot current generation slot unmigrated
                  (read (write d slot bytes).0 slot) (ground arith))
          | inr w ↦ ground arith
        ]
      ]

  -- The slot is as it was, or the device refuses to read it.
  abbrev pub Keeps : Device → Device → StorageSlot → Type 0
  Keeps e d slot = (read e slot ≡ read d slot) ⊎ ((read e slot).status ≡ SlotReadStatus.io_error)

  pub replace_slot-Keeps :
      (snapshot : ScheduleSnapshot) (current generation : ℕ) (slot : StorageSlot)
      (unmigrated : Bool) (d : Device)
      → Keeps
          (replace_slot storage snapshot current generation slot unmigrated d).0
          d
          (opposite slot)
  unfolding replace_slot
  replace_slot-Keeps snapshot current generation slot unmigrated d =
      elim (Option-cases (encode_record snapshot generation)) [
        | inl e ↦ rw (replace_slot, e) (inl refl)
        | inr (bytes, e) ↦ ground (arith, laws.write_other d slot bytes)
      ]

  replace_slot-other :
      (snapshot : ScheduleSnapshot) (current generation : ℕ) (slot : StorageSlot)
      (unmigrated : Bool) (d : Device)
      → (replace_slot storage snapshot current generation slot unmigrated d).1.status
        ≡ StoreStatus.stored
      → read (replace_slot storage snapshot current generation slot unmigrated d).0 (opposite slot)
        ≡ read d (opposite slot)
  unfolding replace_slot
  replace_slot-other snapshot current generation slot unmigrated d h =
      elim (Option-cases (encode_record snapshot generation)) [
        | inl e ↦ ground arith
        | inr (bytes, e) ↦ ground (arith, laws.write_other d slot bytes)
      ]

  Holds-newest :
      (d : Device) (slot : StorageSlot) (decoded : DecodedRecord)
      → Holds (read d slot) decoded
      → IsOlder decoded.generation (read d (opposite slot))
      → IsCurrent storage d decoded.snapshot decoded.generation
  Holds-newest d slot decoded h o =
      let (loaded, snapshot, generation, source) = load-newest storage d slot decoded h o in
      record { is_loaded = loaded; snapshot_is = snapshot; generation_is = generation }

  -- A store that could be loaded is loaded as it was, whatever became of the slot that is not its
  -- source, short of a newer record there.
  pub load-survives :
      (d e : Device)
      → (load_unlocked storage d).status ≡ LoadStatus.loaded
      → read e (load_unlocked storage d).source ≡ read d (load_unlocked storage d).source
      → IsOlder
          (load_unlocked storage d).generation
          (read e (opposite (load_unlocked storage d).source))
      → IsCurrent storage e (load_unlocked storage d).snapshot (load_unlocked storage d).generation
  unfolding HoldsFound
  load-survives d e h same older =
      Holds-newest e (load_unlocked storage d).source (record_of (load_unlocked storage d))
        (rw same (load-HoldsFound storage d h)) older

  -- A verified write of a record newer than the source is what a load finds.
  pub replace_slot-load :
      (d : Device) (snapshot : ScheduleSnapshot) (current generation : ℕ) (slot : StorageSlot)
      (unmigrated : Bool)
      → IsOlder generation (read d (opposite slot))
      → (replace_slot storage snapshot current generation slot unmigrated d).1.status
        ≡ StoreStatus.stored
      → IsCurrent storage
          (replace_slot storage snapshot current generation slot unmigrated d).0
          snapshot
          generation
  replace_slot-load d snapshot current generation slot unmigrated o h =
      let new = replace_slot-stored snapshot current generation slot unmigrated d h in
      let found =
        Holds-newest (replace_slot storage snapshot current generation slot unmigrated d).0 slot
          new.decoded new.is_held
          (rw
            (new.generation_is, replace_slot-other snapshot current generation slot unmigrated d h)
            o) in
      record {
        is_loaded = found.is_loaded;
        snapshot_is = rw found.snapshot_is new.snapshot_is;
        generation_is = rw found.generation_is new.generation_is;
      }
