-- ===== src/AlarmEngine/Watermarks.antt =====
-- The terminal high-watermarks: what `raise_high_watermark` does to searches, size and keys.
use dawn_dock.Common.{
  ◌+◌, ◌≡◌, arith, ℤ, leb_ℤ, Bool, ◌&&◌, ◌||◌, List, [], ◌∷◌, if◌then◌else◌, length, any, Bytes,
  bytes_eq, bytes_eq_iff, DistinctBy,
}
use dawn_dock.AlarmEngine.{
  TerminalHighWatermark, find_high_watermark, raise_high_watermark, at_or_below,
}

abbrev pub has_watermark : List TerminalHighWatermark → Bytes → Bool
has_watermark ws alarm_id = any (λ w. bytes_eq w.alarm_id alarm_id) ws

-- The one law of the table that its clients need: what lies at or below a mark after a raise.
pub at_or_below-raise :
    (ws : List TerminalHighWatermark) (id k : Bytes) (s t : ℤ)
    → at_or_below (find_high_watermark (raise_high_watermark id s ws) k) t
      ≡ (at_or_below (find_high_watermark ws k) t || (bytes_eq id k && leb_ℤ t s))
unfolding find_high_watermark raise_high_watermark
at_or_below-raise [] id k s t = ground arith
at_or_below-raise (w ∷ ws) id k s t = ground (
  arith,
  bytes_eq_iff w.alarm_id id,
  bytes_eq_iff w.alarm_id k,
  bytes_eq_iff id k,
  at_or_below-raise ws id k s t,
)

pub has_watermark-raise :
    (ws : List TerminalHighWatermark) (id k : Bytes) (s : ℤ)
    → has_watermark (raise_high_watermark id s ws) k ≡ (has_watermark ws k || bytes_eq id k)
unfolding raise_high_watermark
has_watermark-raise [] id k s = ground arith
has_watermark-raise (w ∷ ws) id k s = ground (
  arith,
  bytes_eq_iff w.alarm_id id,
  bytes_eq_iff w.alarm_id k,
  bytes_eq_iff id k,
  has_watermark-raise ws id k s,
)

pub length-raise :
    (ws : List TerminalHighWatermark) (id : Bytes) (s : ℤ)
    → length (raise_high_watermark id s ws)
      ≡ (if has_watermark ws id then length ws else length ws + 1)
unfolding raise_high_watermark
length-raise [] id s = omega arith
length-raise (w ∷ ws) id s = ground (arith, length-raise ws id s)

pub DistinctBy-raise :
    (ws : List TerminalHighWatermark) (id : Bytes) (s : ℤ)
    → DistinctBy (λ w. w.alarm_id) ws
    → DistinctBy (λ w. w.alarm_id) (raise_high_watermark id s ws)
unfolding raise_high_watermark
DistinctBy-raise [] id s d = ground arith
DistinctBy-raise (w ∷ ws) id s d = ground (
  arith,
  bytes_eq_iff w.alarm_id id,
  bytes_eq_iff id w.alarm_id,
  has_watermark-raise ws id w.alarm_id s,
  DistinctBy-raise ws id s d.1,
)
