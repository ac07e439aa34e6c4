-- ===== src/Controller/Windows.antt =====
-- What a pass takes from the schedule of a policy, at its instant.
use node_rotation_controller.Base.{ℕ, Option, none, some, List, pos, Time, Duration}
use node_rotation_controller.Policy.{MaintenanceWindow, Formats}
use node_rotation_controller.Window.{Zones, Schedule, new, in_window}
use node_rotation_controller.Window.Search.{occurrence_bounds}
use node_rotation_controller.Window.Weekly.{
  merged_occurrences, worst_case_period, shortest_window, shortest_idle_gap,
}
use node_rotation_controller.Controller.Resolve.{Calendar}

abbrev duration_or_zero : Option ℕ → Duration
duration_or_zero none = pos 0
duration_or_zero (some n) = pos n

module _ ⦃zones : Zones⦄ where
  unfoldable pub calendar : Schedule → Time → Calendar
  calendar s now =
      let occs = merged_occurrences s in
      record {
        in_window = in_window s now;
        occurrence = occurrence_bounds s now;
        period = duration_or_zero (worst_case_period occs);
        window_len = duration_or_zero (shortest_window occs);
        idle_gap = shortest_idle_gap occs;
      }

  abbrev calendar_of : Time → Option Schedule → Option Calendar
  calendar_of now none = none
  calendar_of now (some s) = some (calendar s now)

  unfoldable pub calendar_at : ⦃formats : Formats⦄ → Time → List MaintenanceWindow → Option Calendar
  calendar_at now windows = calendar_of now (new windows)
