-- ===== src/Annotations.antt =====
-- internal/annotations/annotations.go: the keys and the values of the controller's annotations,
-- and the RFC 3339 texts that stand in them.
use node_rotation_controller.Base.{
  ℕ, ◌*◌, ◌/◌, ◌<◌, String, ◌≡◌, Option, none, some, pos, Time, Duration, nanos_per_second, str_eq,
  if◌then◌else◌,
}

abbrev pub surge_for : String
surge_for = "noderotation.io/surge-for"

abbrev pub state : String
state = "noderotation.io/state"

abbrev pub failed_at : String
failed_at = "noderotation.io/failed-at"

abbrev pub retry_count : String
retry_count = "noderotation.io/retry-count"

abbrev pub started_at : String
started_at = "noderotation.io/started-at"

abbrev pub surge_claim : String
surge_claim = "noderotation.io/surge-claim"

abbrev pub active_rotation : String
active_rotation = "noderotation.io/active-rotation"

abbrev pub active_rotation_state : String
active_rotation_state = "noderotation.io/active-rotation-state"

abbrev pub draining_at : String
draining_at = "noderotation.io/draining-at"

abbrev pub surge_wait : String
surge_wait = "noderotation.io/surge-wait"

abbrev pub surge_path : String
surge_path = "noderotation.io/surge-path"

abbrev pub last_rotation_at : String
last_rotation_at = "noderotation.io/last-rotation-at"

abbrev pub last_failure_at : String
last_failure_at = "noderotation.io/last-failure-at"

abbrev pub freeze : String
freeze = "noderotation.io/freeze"

abbrev pub rotation_mode : String
rotation_mode = "noderotation.io/rotation-mode"

abbrev pub window_opened_at : String
window_opened_at = "noderotation.io/window-opened-at"

abbrev pub cordoned : String
cordoned = "noderotation.io/cordoned"

abbrev pub do_not_disrupt_owned : String
do_not_disrupt_owned = "noderotation.io/do-not-disrupt-owned"

abbrev pub state_pending : String
state_pending = "pending"

abbrev pub state_draining : String
state_draining = "draining"

abbrev pub state_failed : String
state_failed = "failed"

abbrev pub state_expired : String
state_expired = "expired"

abbrev pub rotation_mode_forceful_fallback : String
rotation_mode_forceful_fallback = "forceful-fallback"

-- Whole seconds, which is what an RFC 3339 text holds.
abbrev pub truncate_second : ℕ → ℕ
truncate_second n = n / nanos_per_second * nanos_per_second

-- time.Parse and time.Format at time.RFC3339, which are Go's. Up to the year 9999 a formatted
-- instant parses back to its whole second, and the empty text is no timestamp.
pub record TimeText : Type 0 where
  pub parse : String → Option Time
  pub format : Time → String
  pub parse-format :
      (n : ℕ)
      → n < 315_537_897_600_000_000_000
      → parse (format (pos n)) ≡ some (pos (truncate_second n))
  pub parse-empty : parse "" ≡ none
  -- Duration.String
  pub show : Duration → String

-- parseTime, which decide, selection and the controller each declare.
module _ ⦃text : TimeText⦄ where
  unfoldable pub parse_time : String → Option Time
  parse_time s = if str_eq s "" then none else text.parse s
