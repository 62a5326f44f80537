-- ===== src/Health/Metrics/Window.antt =====
-- A sliding window against the list of all points that were added to it.
use sentinel_fs.Prelude.{
  ℕ, ◌≤◌, ◌≡◌, refl, inl, inr, List, [], ◌∷◌, ◌++◌, All, Bool-cases, if◌then◌else◌, arith,
}
use sentinel_fs.Float64.{Float64}
use sentinel_fs.Health.Metrics.{
  MetricPoint, SlidingWindow, expired, drop_expired, evict, add_point, last_value, latest,
}

-- The points that are not older than the duration at time `now`.
abbrev pub within : ℕ → ℕ → List MetricPoint → List MetricPoint
within duration now [] = []
within duration now (p ∷ ps) =
    let rest = within duration now ps in if expired duration now p then rest else p ∷ rest

-- No point is older than one before it.
abbrev pub Ascends : List MetricPoint → Type 0
Ascends [] = Unit
Ascends (p ∷ ps) = All (λ q. p.timestamp ≤ q.timestamp) ps × Ascends ps

-- The window after the points were added one by one.
abbrev pub feed : List MetricPoint → SlidingWindow → SlidingWindow
feed [] sw = sw
feed (p ∷ ps) sw = feed ps (add_point p.value p.timestamp sw)

-- The time of the last point, or `t` where there is none.
abbrev pub last_time : ℕ → List MetricPoint → ℕ
last_time t [] = t
last_time t (p ∷ ps) = last_time p.timestamp ps

last_value-append :
    (v found : Float64) (t : ℕ) (ps : List MetricPoint)
    → last_value found (ps ++ record { value = v; timestamp = t } ∷ []) ≡ v
unfolding last_value
last_value-append v found t [] = refl
last_value-append v found t (p ∷ ps) = last_value-append v p.value t ps

-- `sw` holds what `history` leaves of duration `d` at time `t`.
record Windowed (d t : ℕ) (history : List MetricPoint) (sw : SlidingWindow) : Type 0 where
  span : sw.duration ≡ d
  kept : sw.points ≡ within d t history
  ascends : Ascends history
  past : All (λ q. q.timestamp ≤ t) history

last_value-add :
    (d t : ℕ) (v found : Float64) (ps : List MetricPoint)
    → last_value found (drop_expired d t (ps ++ record { value = v; timestamp = t } ∷ [])) ≡ v
unfolding last_value drop_expired expired
last_value-add d t v found [] = ground arith
last_value-add d t v found (p ∷ ps) = elim (Bool-cases (expired d t p)) [
  | inl out ↦ rw out (last_value-add d t v found ps)
  | inr kept ↦ rw kept (last_value-append v p.value t ps)
]

pub latest-add_point : (v : Float64) (t : ℕ) (sw : SlidingWindow) → latest (add_point v t sw) ≡ v
unfolding latest add_point evict
latest-add_point v t sw = last_value-add sw.duration t v 0 sw.points
