-- ===== src/Window.antt =====
-- internal/window/window.go: the maintenance windows of a policy. The rules of the time zones are
-- tzdata's, a parameter.
pub mod Search
pub mod Weekly
use node_rotation_controller.Base.{
  ℕ, suc, ◌+◌, ◌*◌, ◌-◌, ◌%◌, String, Bool, true, false, not, ◌&&◌, ◌||◌, ◌==◌, ltb, leb, Option,
  none, some, List, [], ◌∷◌, ◌++◌, map, any, ℤ, pos, Time, Duration, if◌then◌else◌,
}
use node_rotation_controller.Policy.{MaintenanceWindow, Formats}
use node_rotation_controller.Policy.Clock.{parse_weekday, parse_hhmm}

-- What time.Location tells: the minute of the day and the weekday of an instant, its offset in
-- seconds from UTC, the ends of the zones in effect that lie between two instants, one after the
-- other, and the instant of a minute of a day, counted from Monday, January 1, 2024.
pub record Zones : Type 0 where
  pub minute_of_day : String → Time → ℕ
  pub weekday : String → Time → ℕ
  pub offset : String → Time → ℤ
  pub zone_ends : String → Time → Time → List Time
  pub date : String → ℕ → ℕ → Time

pub record Entry : Type 0 where
  pub location : String
  pub days : List ℕ
  pub start_min : ℕ
  pub end_min : ℕ

-- Schedule
abbrev pub Schedule : Type 0
Schedule = List Entry

infixl 5 ◌>>=◌
abbrev pub ◌>>=◌ {ℓ κ} : {A : Type ℓ} → {B : Type κ} → Option A → (A → Option B) → Option B
◌>>=◌ none f = none
◌>>=◌ (some a) f = f a

abbrev pub parse_days : List String → Option (List ℕ)
parse_days [] = some []
parse_days (d ∷ ds) = do n ← parse_weekday d; ns ← parse_days ds; some (n ∷ ns)

module _ ⦃formats : Formats⦄ where
  unfoldable pub new_entry : MaintenanceWindow → Option Entry
  new_entry w = if not (formats.has_location w.timezone) then none else (do
    days ← parse_days w.days
    start ← parse_hhmm w.start
    end_of ← parse_hhmm w.end_of
    some (record { location = w.timezone; days = days; start_min = start; end_min = end_of }))

  -- New
  unfoldable pub new : List MaintenanceWindow → Option Schedule
  new [] = some []
  new (w ∷ ws) = do e ← new_entry w; es ← new ws; some (e ∷ es)

module _ ⦃zones : Zones⦄ where
  abbrev pub is_open : Time → Entry → Bool
  is_open now e =
      let mins = zones.minute_of_day e.location now in
      if ltb mins e.start_min || leb e.end_min mins
      then false
      else any (λ d. d == zones.weekday e.location now) e.days

  -- InWindow
  unfoldable pub in_window : Schedule → Time → Bool
  in_window s now = any (is_open now) s
