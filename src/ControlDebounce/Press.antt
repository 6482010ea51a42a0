-- ===== src/ControlDebounce/Press.antt =====
-- What a reported press says of the samples before it.
use dawn_dock.Common.{
  ◌≤◌, ◌≡◌, ◌↔◌, refl, arith, ℤ, pos, ◌-ℤ◌, ◌≤ℤ◌, -ℤ_parts, IsInt64, Bool, Bool-cases, true, false,
  some, List, [], ◌∷◌, sub64-word64, ◌⊎◌, inl, inr,
}
use dawn_dock.ControlDebounce.{ControlDebounce, sample, after, presses}

-- A press is reported exactly when the line was stably released, and the level has been pressed
-- since a candidate sample at least 20 ms ago.
pub sample-press :
    (d : ControlDebounce) (pressed : Bool) (now : ℤ)
    → IsInt64 now
    → IsInt64 d.candidate_started_ms
    → ((sample d pressed now).1 ≡ true) ↔ (
        (pressed ≡ true)
        × (d.stable_pressed ≡ some false)
        × (d.candidate_pressed ≡ some true)
        × (pos 20 ≤ℤ now -ℤ d.candidate_started_ms))
unfolding sample
sample-press d pressed now hn hs =
    ground
      (arith, sub64-word64 now d.candidate_started_ms hn hs, -ℤ_parts now d.candidate_started_ms)

-- The latest samples, back to one at `since`, are all at one level, and none is earlier than it.
pub data Held (level : Bool) (since : ℤ) : List (Bool × ℤ) → Type 0 where
  begins : (history : List (Bool × ℤ)) → Held level since ((level, since) ∷ history)
  goes_on :
      (now : ℤ) (history : List (Bool × ℤ))
      → since ≤ℤ now
      → Held level since history
      → Held level since ((level, now) ∷ history)

-- Where a candidate comes from: this sample, or an earlier one that this sample bears out.
sample-candidate :
    (d : ControlDebounce) (pressed : Bool) (now : ℤ) (level : Bool)
    → (sample d pressed now).0.candidate_pressed ≡ some level
    → (pressed ≡ level)
      × (((sample d pressed now).0.candidate_started_ms ≡ now)
          ⊎ (((sample d pressed now).0.candidate_started_ms ≡ d.candidate_started_ms)
              × (d.candidate_pressed ≡ some level)
              × (d.candidate_started_ms ≤ℤ now)))
unfolding sample
sample-candidate d pressed now level h = ground arith

candidate-Held :
    (history : List (Bool × ℤ)) (level : Bool)
    → (after history).candidate_pressed ≡ some level
    → Held level (after history).candidate_started_ms history
unfolding after
candidate-Held [] level e = absurd (ground arith)
candidate-Held ((pressed, now) ∷ history) level e =
    let (p, cases) = sample-candidate (after history) pressed now level e in
    elim cases [
      | inl started ↦ rw (started, p) (begins history)
      | inr (started, same, order) ↦
          rw (started, p) (goes_on now history order (candidate-Held history level same))
    ]

abbrev pub AllInt64 : List (Bool × ℤ) → Type 0
AllInt64 [] = Unit
AllInt64 ((pressed, now) ∷ history) = IsInt64 now × AllInt64 history

started-IsInt64 :
    (history : List (Bool × ℤ)) → AllInt64 history → IsInt64 (after history).candidate_started_ms
unfolding after
started-IsInt64 [] h = omega arith
started-IsInt64 ((pressed, now) ∷ history) h = ground (arith, started-IsInt64 history h.1)

-- A press is reported only at the end of samples that all found the button pressed and that span
-- at least 20 ms, and only if the line had been stably released before.
pub press-Held :
    (history : List (Bool × ℤ)) (pressed : Bool) (now : ℤ)
    → AllInt64 ((pressed, now) ∷ history)
    → (sample (after history) pressed now).1 ≡ true
    → (since : ℤ) × Held true since ((pressed, now) ∷ history)
      × (pos 20 ≤ℤ now -ℤ since)
      × ((after history).stable_pressed ≡ some false)
press-Held history pressed now h e =
    let since = (after history).candidate_started_ms in
    let started = started-IsInt64 history h.1 in
    let (p, stable, candidate, span) = (sample-press (after history) pressed now h.0 started).0 e in
    (
      since,
      rw p (
          goes_on now history (omega (arith, -ℤ_parts now since))
            (candidate-Held history true candidate)),
      span,
      stable,
    )

sample-unreleased :
    (d : ControlDebounce) (now : ℤ)
    → ¬ (d.stable_pressed ≡ some false)
    → ((sample d true now).1 ≡ false) × ¬ ((sample d true now).0.stable_pressed ≡ some false)
unfolding sample
sample-unreleased d now h = ground arith

-- A line that was not stably released reports no press over samples that all find the button
-- pressed, however many and however timed: a button held at start-up, or since the last reported
-- press, is silent.
pub presses-unreleased :
    (d : ControlDebounce) (times : List ℤ)
    → ¬ (d.stable_pressed ≡ some false)
    → presses d true times ≡ 0
unfolding presses
presses-unreleased d [] h = refl
presses-unreleased d (now ∷ later) h =
    let (quiet, still) = sample-unreleased d now h in
    ground (arith, quiet, presses-unreleased (sample d true now).0 later still)

sample-reported :
    (d : ControlDebounce) (now : ℤ)
    → (sample d true now).1 ≡ true
    → ¬ ((sample d true now).0.stable_pressed ≡ some false)
unfolding sample
sample-reported d now h = ground arith

-- Over samples that all find the button pressed a line reports at most one press.
pub presses-held : (d : ControlDebounce) (times : List ℤ) → presses d true times ≤ 1
unfolding presses
presses-held d [] = omega arith
presses-held d (now ∷ later) = elim (Bool-cases (sample d true now).1) [
  | inl e ↦
      ground (arith, e, presses-unreleased (sample d true now).0 later (sample-reported d now e))
  | inr e ↦ ground (arith, e, presses-held (sample d true now).0 later)
]
