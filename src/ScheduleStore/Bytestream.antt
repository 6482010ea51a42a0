-- ===== src/ScheduleStore/Bytestream.antt =====
-- `Writer`, `Reader` and the checksum of firmware/components/alarm_core/schedule_store.cpp. What a
-- writer appends is a list of bytes; a reader takes what it reads off the bytes that remain.
use Prim.Native.Nat.{bit_and, bit_xor}
use dawn_dock.Common.{
  ℕ, zero, suc, ◌+◌, ◌*◌, ◌/◌, ◌%◌, ltb, ◌==◌, Bool, true, false, [], ◌∷◌, ◌++◌, Option, none, some,
  if◌then◌else◌, length, Bytes, ℤ, word64, signed64,
}

-- `Writer::integer` of a type of `size` bytes, the lowest byte first.
unfoldable pub write_integer : ℕ → ℕ → Bytes
write_integer zero value = []
write_integer (suc size) value = (value % 256) ∷ write_integer size (value / 256)

-- Of `std::int64_t`.
abbrev pub write_int64 : ℤ → Bytes
write_int64 value = write_integer 8 (word64 value)

unfoldable pub write_string : Bytes → Option Bytes
unfolding write_integer
write_string value =
    if ltb 65535 (length value) then none else some (write_integer 2 (length value) ++ value)

abbrev pub Reader : Type 0 → Type 0
Reader A = Bytes → Option (A × Bytes)

infixl 5 ◌>>=◌ ◌>>◌
abbrev pub ◌>>=◌ : {A B : Type 0} → Reader A → (A → Reader B) → Reader B
◌>>=◌ m f bytes = elim (m bytes) [ none ↦ none | some (value, rest) ↦ f value rest ]

abbrev pub ◌>>◌ : {B : Type 0} → Reader (Unit {0}) → Reader B → Reader B
m >> k = m >>= λ _. k

abbrev pub pure : {A : Type 0} → A → Reader A
pure value bytes = some (value, bytes)

-- A read goes on only if the test holds.
abbrev pub require : Bool → Reader (Unit {0})
require true bytes = some (tt, bytes)
require false bytes = none

-- `Reader::integer`; the bytes that are joined by `|=` do not overlap.
unfoldable pub read_integer : ℕ → Reader ℕ
read_integer zero bytes = some (0, bytes)
read_integer (suc size) [] = none
read_integer (suc size) (byte ∷ bytes) = elim (read_integer size bytes) [
  | none ↦ none
  | some (value, rest) ↦ some (byte + 256 * value, rest)
]

unfoldable pub read_int64 : Reader ℤ
unfolding read_integer
read_int64 = do value ← read_integer 8; pure (signed64 value)

unfoldable pub read_bytes : ℕ → Reader Bytes
read_bytes zero bytes = some ([], bytes)
read_bytes (suc n) [] = none
read_bytes (suc n) (byte ∷ bytes) = elim (read_bytes n bytes) [
  | none ↦ none
  | some (value, rest) ↦ some (byte ∷ value, rest)
]

unfoldable pub read_string : Reader Bytes
unfolding read_integer read_bytes
read_string = do size ← read_integer 2; read_bytes size

unfoldable pub read_boolean : Reader Bool
unfolding read_integer
read_boolean = do encoded ← read_integer 1; require (ltb encoded 2); pure (encoded == 1)

-- One round of the inner loop of `update_crc32`; the mask is all ones if the lowest bit is set.
unfoldable pub crc_round : ℕ → ℕ
crc_round crc = bit_xor (crc / 2) (bit_and 0xedb88320 (if crc % 2 == 1 then 0xffffffff else 0))

unfoldable pub crc_rounds : ℕ → ℕ → ℕ
unfolding crc_round
crc_rounds zero crc = crc
crc_rounds (suc left) crc = crc_rounds left (crc_round crc)

unfoldable pub update_crc32 : ℕ → Bytes → ℕ
unfolding crc_rounds
update_crc32 crc [] = crc
update_crc32 crc (byte ∷ bytes) = update_crc32 (crc_rounds 8 (bit_xor crc byte)) bytes

-- `~crc` of 32 bits.
unfoldable pub crc32 : Bytes → ℕ
unfolding update_crc32
crc32 bytes = bit_xor (update_crc32 0xffffffff bytes) 0xffffffff
