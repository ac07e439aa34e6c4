-- ===== src/Examples/WindowCases.antt =====
-- internal/window: a zone without transitions, and windows of two minutes.
use node_rotation_controller.Base.{
  ℕ, ◌+◌, ◌*◌, ◌/◌, ◌%◌, ◌≡◌, refl, some, List, [], ◌∷◌, ℤ, pos, negsuc, ◌+ℤ◌, ◌-ℤ◌, saturate64,
  add_time, sub_time, nanos_per_minute,
}
use node_rotation_controller.Window.{Zones, Schedule, in_window}
use node_rotation_controller.Window.Search.{
  refine, first_out_after, first_in_at_or_before, minute_aligned_zones, occurrence_bounds,
}
use node_rotation_controller.Window.Search.Edges.{IsOccurrence, occurrence_bounds-IsOccurrence}
use node_rotation_controller.Window.Weekly.{
  Span, sort_spans, merge_from, merge_spans, anchor_monday,
}
use node_rotation_controller.Window.Weekly.Merge.{covers, IsApart, merge_spans_lem}

abbrev minute_number : ℤ → ℕ
minute_number (pos n) = n / nanos_per_minute
minute_number (negsuc n) = 0

-- UTC: the first day of year 1 is a Monday.
instance abbrev pub utc : Zones
utc = record {
  minute_of_day = λ l t. minute_number t % 1440;
  weekday = λ l t. (minute_number t / 1440 + 1) % 7;
  offset = λ l t. pos 0;
  zone_ends = λ l from to. [];
  date = λ l day minute. anchor_monday +ℤ pos ((day * 1440 + minute) * nanos_per_minute);
}

abbrev pub mondays : Schedule
mondays = record { location = "UTC"; days = 1 ∷ []; start_min = 1; end_min = 3 } ∷ []

found :
    occurrence_bounds mondays (pos 90_000_000_000) ≡ some (pos 60_000_000_000, pos 180_000_000_000)
unfolding occurrence_bounds minute_aligned_zones first_out_after first_in_at_or_before refine
    in_window add_time sub_time saturate64 ◌+ℤ◌ ◌-ℤ◌
found = refl

occurrence_bounds-IsOccurrence_example :
    IsOccurrence mondays (pos 90_000_000_000) (pos 60_000_000_000, pos 180_000_000_000)
occurrence_bounds-IsOccurrence_example =
    occurrence_bounds-IsOccurrence mondays (pos 90_000_000_000)
      (pos 60_000_000_000, pos 180_000_000_000) found

abbrev overlapping : List Span
overlapping =
    record { start = 5; end_of = 9 }
    ∷ record { start = 1; end_of = 5 }
    ∷ record { start = 20; end_of = 30 }
    ∷ []

merged :
    merge_spans overlapping
    ≡ record { start = 1; end_of = 9 } ∷ record { start = 20; end_of = 30 } ∷ []
unfolding merge_spans sort_spans merge_from
merged = refl

merge_spans_lem_example :
    ((t : ℕ) → covers t (merge_spans overlapping) ≡ covers t overlapping)
    × IsApart (merge_spans overlapping)
merge_spans_lem_example = merge_spans_lem overlapping
