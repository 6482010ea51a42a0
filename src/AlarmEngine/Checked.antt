-- ===== src/AlarmEngine/Checked.antt =====
-- `checked_add` and `checked_elapsed` are exact, and refuse only what `std::int64_t` cannot hold.
use dawn_dock.Common.{◌≡◌, ◌↔◌, arith, ℤ, ◌+ℤ◌, ◌-ℤ◌, ◌≤ℤ◌, IsInt64, some}
use dawn_dock.AlarmEngine.{checked_add, checked_elapsed}

-- A sum is returned exactly when it fits, and is then the true sum.
pub checked_add-exact :
    (a b r : ℤ)
    → IsInt64 a
    → IsInt64 b
    → (checked_add a b ≡ some r) ↔ ((r ≡ a +ℤ b) × IsInt64 (a +ℤ b))
unfolding checked_add ◌+ℤ◌ ◌-ℤ◌
checked_add-exact a b r ha hb = ground arith

-- An elapsed time is returned exactly when the clock has not gone back and the difference fits.
pub checked_elapsed-exact :
    (now start e : ℤ)
    → IsInt64 now
    → IsInt64 start
    → (checked_elapsed now start ≡ some e)
      ↔ ((e ≡ now -ℤ start) × (start ≤ℤ now) × IsInt64 (now -ℤ start))
unfolding checked_elapsed ◌+ℤ◌ ◌-ℤ◌
checked_elapsed-exact now start e hn hs = ground arith

pub checked_add-some : (a b r : ℤ) → checked_add a b ≡ some r → r ≡ a +ℤ b
unfolding checked_add
checked_add-some a b r h = ground arith
