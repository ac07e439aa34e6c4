-- ===== src/Window/Weekly.antt =====
-- mergedOccurrences, WorstCasePeriod, ShortestWindow and ShortestIdleGap: the windows on the
-- cycle of a week, in nanoseconds from its start.
pub mod Merge
use node_rotation_controller.Base.{
  ℕ, zero, suc, ◌+◌, ◌*◌, ◌-◌, ◌%◌, Bool, true, false, not, ◌&&◌, ◌||◌, ◌==◌, ltb, leb, Option,
  none, some, List, [], ◌∷◌, ◌++◌, map, ℤ, pos, negsuc, Time, sub_time, ltb_ℤ, ◌-ℤ◌,
  nanos_per_minute, if◌then◌else◌,
}
use node_rotation_controller.Window.{Zones, Entry, Schedule}

abbrev pub week : ℕ
week = 604_800_000_000_000

-- Monday, January 1, 2024.
abbrev pub anchor_monday : Time
anchor_monday = pos 63_839_664_000_000_000_000

-- continuousWindowPeriod
abbrev pub continuous_window_period : ℕ
continuous_window_period = nanos_per_minute

pub record Span : Type 0 where
  pub start : ℕ
  pub end_of : ℕ

pub record Occurrence : Type 0 where
  pub start : ℕ
  pub long : ℕ

-- The remainder by a week, in [0, week).
abbrev pub in_week : ℤ → ℕ
in_week (pos n) = n % week
in_week (negsuc n) = let r = suc n % week in if r == 0 then 0 else week - r

abbrev pub spans_at : ℕ → ℕ → List Span → List Span
spans_at st long rest =
    if ltb week (st + long)
    then record { start = 0; end_of = st + long - week }
      ∷ record { start = st; end_of = week }
      ∷ rest
    else record { start = st; end_of = st + long } ∷ rest

-- By start, then by end.
abbrev pub is_before : Span → Span → Bool
is_before a b = ltb a.start b.start || ((a.start == b.start) && ltb a.end_of b.end_of)

abbrev pub insert_span : Span → List Span → List Span
insert_span x [] = x ∷ []
insert_span x (y ∷ ys) = if is_before y x then y ∷ insert_span x ys else x ∷ y ∷ ys

unfoldable pub sort_spans : List Span → List Span
sort_spans [] = []
sort_spans (x ∷ xs) = insert_span x (sort_spans xs)

-- The last span so far, with one that overlaps it or touches it.
abbrev pub extend : Span → Span → Span
extend last x = if ltb last.end_of x.end_of then record last { end_of = x.end_of } else last

-- The loop over the sorted spans, from the last that was put down.
unfoldable pub merge_from : Span → List Span → List Span
merge_from last [] = last ∷ []
merge_from last (x ∷ xs) =
    if leb x.start last.end_of then merge_from (extend last x) xs else last ∷ merge_from x xs

abbrev pub merge_sorted : List Span → List Span
merge_sorted [] = []
merge_sorted (x ∷ xs) = merge_from x xs

unfoldable pub merge_spans : List Span → List Span
merge_spans spans = merge_sorted (sort_spans spans)

abbrev pub last_span : Span → List Span → Span
last_span x [] = x
last_span x (y ∷ ys) = last_span y ys

abbrev pub all_but_last : Span → List Span → List Span
all_but_last x [] = []
all_but_last x (y ∷ ys) = x ∷ all_but_last y ys

abbrev pub occurrence_of : Span → Occurrence
occurrence_of m = record { start = m.start; long = m.end_of - m.start }

abbrev pub around : Span → Span → Occurrence
around first last = record { start = last.start; long = (week - last.start) + first.end_of }

-- One occurrence across the end of the week is put together again.
unfoldable pub join_week : List Span → List Occurrence
join_week [] = []
join_week (x ∷ []) = occurrence_of x ∷ []
join_week (x ∷ y ∷ ys) =
    if (x.start == 0) && ((last_span y ys).end_of == week)
    then around x (last_span y ys) ∷ map occurrence_of (all_but_last y ys)
    else map occurrence_of (x ∷ y ∷ ys)

module _ ⦃zones : Zones⦄ where
  -- startOffset, for the weekday d; Sunday is 0.
  unfoldable pub start_offset : Entry → ℕ → ℕ
  start_offset e d =
      in_week (sub_time (zones.date e.location ((d + 6) % 7) e.start_min) anchor_monday)

  abbrev pub day_spans : Entry → ℕ → List ℕ → List Span → List Span
  day_spans e long [] rest = rest
  day_spans e long (d ∷ ds) rest = spans_at (start_offset e d) long (day_spans e long ds rest)

  abbrev pub spans_of : Schedule → List Span
  spans_of [] = []
  spans_of (e ∷ es) =
      let rest = spans_of es in
      if leb e.end_min e.start_min
      then rest
      else day_spans e ((e.end_min - e.start_min) * nanos_per_minute) e.days rest

  -- mergedOccurrences
  unfoldable pub merged_occurrences : Schedule → List Occurrence
  merged_occurrences s = join_week (merge_spans (spans_of s))

abbrev pub insert_occurrence : Occurrence → List Occurrence → List Occurrence
insert_occurrence x [] = x ∷ []
insert_occurrence x (y ∷ ys) =
    if ltb y.start x.start then y ∷ insert_occurrence x ys else x ∷ y ∷ ys

abbrev pub sort_occurrences : List Occurrence → List Occurrence
sort_occurrences [] = []
sort_occurrences (x ∷ xs) = insert_occurrence x (sort_occurrences xs)

abbrev pub larger : ℕ → ℕ → ℕ
larger a b = if ltb b a then a else b

-- The largest gap between the starts, the last one to the first of the next week.
abbrev pub largest_gap : ℕ → Occurrence → List Occurrence → ℕ → ℕ
largest_gap first o [] gap = larger (first + week - o.start) gap
largest_gap first o (p ∷ ps) gap = largest_gap first p ps (larger (p.start - o.start) gap)

abbrev pub is_continuous : List Occurrence → Bool
is_continuous (o ∷ []) = leb week o.long
is_continuous _ = false

abbrev pub period_of_sorted : List Occurrence → Option ℕ
period_of_sorted [] = none
period_of_sorted (o ∷ os) = some (largest_gap o.start o os 0)

-- WorstCasePeriod
unfoldable pub worst_case_period : List Occurrence → Option ℕ
worst_case_period occs =
    if is_continuous occs
    then some continuous_window_period
    else period_of_sorted (sort_occurrences occs)

abbrev pub smaller : ℕ → ℕ → ℕ
smaller a b = if ltb a b then a else b

abbrev pub shortest_from : ℕ → List Occurrence → ℕ
shortest_from n [] = n
shortest_from n (o ∷ os) = shortest_from (smaller o.long n) os

-- ShortestWindow
unfoldable pub shortest_window : List Occurrence → Option ℕ
shortest_window [] = none
shortest_window (o ∷ os) = some (shortest_from o.long os)

-- A gap is an int64 that may come out negative.
abbrev pub smaller_gap : Option ℤ → ℤ → Option ℤ
smaller_gap none g = some g
smaller_gap (some s) g = if ltb_ℤ s (pos 0) || ltb_ℤ g s then some g else some s

abbrev pub idle_from : ℕ → Occurrence → List Occurrence → Option ℤ → Option ℤ
idle_from first o [] s = smaller_gap s (pos (first + week) -ℤ pos (o.start + o.long))
idle_from first o (p ∷ ps) s =
    idle_from first p ps (smaller_gap s (pos p.start -ℤ pos (o.start + o.long)))

abbrev pub idle_of_sorted : List Occurrence → Option ℤ
idle_of_sorted [] = none
idle_of_sorted (o ∷ os) = idle_from o.start o os none

-- ShortestIdleGap
unfoldable pub shortest_idle_gap : List Occurrence → Option ℤ
shortest_idle_gap occs = if is_continuous occs then none else idle_of_sorted (sort_occurrences occs)
