-- ===== src/Unlock/Shown.antt =====
-- How far the time that is shown is from the time that is left.
use keycell.Prelude.{◌≡◌, ◌≤◌, ◌<◌, inl, inr, arith, ℕ, ◌+◌, ◌*◌, ◌/◌, ◌%◌, Bool-cases, ltb, ◌==◌}
use keycell.Unlock.{
  minute, round_minute, Remaining, under_minute, minutes, hours, format_rounded, format_remaining,
}

-- Rounding goes to the nearest minute.
round_minute_near :
    (d : ℕ)
    → (q : ℕ) × (round_minute d ≡ q * minute)
      × (q * minute ≤ d + 30_000_000_000)
      × (d ≤ q * minute + 30_000_000_000)
      × (q ≡ 0 → d < 30_000_000_000)
unfolding round_minute
round_minute_near d = elim (Bool-cases (ltb (d % minute + d % minute) minute)) [
  | inl low ↦ (d / minute, rw low (ground arith), ground arith, ground arith, λ z. ground arith)
  | inr high ↦
      (d / minute + 1, rw high (ground arith), ground arith, ground arith, λ z. ground arith)
]

-- What is shown for `d`: the minutes of an hour below 60, and at most half a minute off.
abbrev pub IsNear : ℕ → Remaining → Type 0
IsNear d under_minute = d < 30_000_000_000
IsNear d (minutes m) =
    (1 ≤ m) × (m < 60) × (m * minute ≤ d + 30_000_000_000) × (d ≤ m * minute + 30_000_000_000)
IsNear d (hours h m) =
    (1 ≤ h)
    × (m < 60)
    × ((60 * h + m) * minute ≤ d + 30_000_000_000)
    × (d ≤ (60 * h + m) * minute + 30_000_000_000)

format_rounded-IsNear :
    (d q : ℕ)
    → q * minute ≤ d + 30_000_000_000
    → d ≤ q * minute + 30_000_000_000
    → (q ≡ 0 → d < 30_000_000_000)
    → IsNear d (format_rounded (q * minute))
unfolding format_rounded
format_rounded-IsNear d q low high zero = elim (Bool-cases (ltb (q * minute) minute)) [
  | inl small ↦ rw small (zero (ground arith))
  | inr big ↦ elim (Bool-cases (q * minute / (60 * minute) == 0)) [
    | inl no_hour ↦ rw (big, no_hour) (ground arith)
    | inr hour ↦ rw (big, hour) (ground arith)
  ]
]

-- The figures of a remaining time: less than a minute is shown when less than half a minute is
-- left; otherwise the hours and minutes that are shown are at most half a minute off, with minutes
-- below 60.
pub format_remaining-IsNear : (d : ℕ) → IsNear d (format_remaining d)
unfolding format_remaining
format_remaining-IsNear d =
    let (q, is, low, high, zero) = round_minute_near d in
    rw is (format_rounded-IsNear d q low high zero)
