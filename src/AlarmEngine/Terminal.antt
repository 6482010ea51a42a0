-- ===== src/AlarmEngine/Terminal.antt =====
-- The recent terminal records: `append_terminal` keeps them distinct and within the retention.
use dawn_dock.Common.{
  ◌-◌, ◌≤◌, ◌≡◌, arith, ℤ, ltb, Bool-cases, inl, inr, false, List, [], ◌∷◌, ◌++◌, length,
  length-drop, any, any-append, any-drop, Bytes, bytes_eq, DistinctBy, DistinctBy-drop,
  DistinctBy-append,
}
use dawn_dock.AlarmEngine.{
  TerminalOccurrence, PersistentAlarmState, recent_terminal_retention, has_terminal, retain_recent,
  finish, TerminalReason, raise_high_watermark, record_terminal_high_watermark, append_terminal,
}

pub length-retain_recent :
    (ts : List TerminalOccurrence) → length (retain_recent ts) ≤ recent_terminal_retention
unfolding retain_recent
length-retain_recent ts = ground (arith, length-drop (length ts - recent_terminal_retention) ts)

any-retain_recent :
    (ts : List TerminalOccurrence) (k : Bytes)
    → any (λ t. bytes_eq t.occurrence_id k) ts ≡ false
    → any (λ t. bytes_eq t.occurrence_id k) (retain_recent ts) ≡ false
unfolding retain_recent
any-retain_recent ts k h = ground (
  arith,
  any-drop (λ (t : TerminalOccurrence). bytes_eq t.occurrence_id k)
      (length ts - recent_terminal_retention) ts,
)

DistinctBy-retain_recent :
    (ts : List TerminalOccurrence)
    → DistinctBy (λ t. t.occurrence_id) ts
    → DistinctBy (λ t. t.occurrence_id) (retain_recent ts)
unfolding retain_recent
DistinctBy-retain_recent ts d = elim (Bool-cases (ltb recent_terminal_retention (length ts))) [
  | inl e ↦ rw e (DistinctBy-drop _ (length ts - recent_terminal_retention) ts d)
  | inr e ↦ rw e d
]

module _ (s : PersistentAlarmState) (t : TerminalOccurrence) where
  pub length-append_terminal :
      length s.terminal ≤ recent_terminal_retention
      → length (append_terminal s t).terminal ≤ recent_terminal_retention
  unfolding append_terminal
  length-append_terminal h = ground (arith, length-retain_recent (s.terminal ++ (t ∷ [])))

  pub DistinctBy-append_terminal :
      DistinctBy (λ u. u.occurrence_id) s.terminal
      → DistinctBy (λ u. u.occurrence_id) (append_terminal s t).terminal
  unfolding append_terminal has_terminal
  DistinctBy-append_terminal d = ground (
    arith,
    DistinctBy-retain_recent (s.terminal ++ (t ∷ [])),
    DistinctBy-append (λ (u : TerminalOccurrence). u.occurrence_id) s.terminal t d,
  )

  pub has_terminal-append_terminal :
      (k : Bytes)
      → has_terminal s.terminal k ≡ false
      → bytes_eq t.occurrence_id k ≡ false
      → has_terminal (append_terminal s t).terminal k ≡ false
  unfolding append_terminal has_terminal
  has_terminal-append_terminal k h e = ground (
    arith,
    any-retain_recent (s.terminal ++ (t ∷ [])) k,
    any-append (λ (u : TerminalOccurrence). bytes_eq u.occurrence_id k) s.terminal (t ∷ []),
  )

-- A terminal outcome leaves the active slot alone.
pub active-finish :
    (s : PersistentAlarmState) (id : Bytes) (t : ℤ) (o : Bytes) (r : TerminalReason)
    → (finish s id t o r).active ≡ s.active
unfolding finish append_terminal record_terminal_high_watermark
active-finish s id t o r = ground arith

-- The watermarks after a terminal outcome are the raised ones.
pub watermarks-finish :
    (s : PersistentAlarmState) (id : Bytes) (t : ℤ) (o : Bytes) (r : TerminalReason)
    → (finish s id t o r).terminal_high_watermarks
      ≡ raise_high_watermark id t s.terminal_high_watermarks
unfolding finish append_terminal record_terminal_high_watermark
watermarks-finish s id t o r = ground arith
