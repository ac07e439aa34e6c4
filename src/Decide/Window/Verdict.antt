-- ===== src/Decide/Window/Verdict.antt =====
-- When a window is reported as missed.
use node_rotation_controller.Base.{
  ◌<◌, ◌≡◌, ◌≢◌, ◌↔◌, false, Option, none, some, arith, ◌<ℤ◌, Time, get, str_eq, str_eq_iff, refl,
  Option-cases, inl, inr, String,
}
use node_rotation_controller.Annotations.{
  TimeText, parse_time, window_opened_at, active_rotation, last_rotation_at,
}
use node_rotation_controller.Decide.Gates.{Thawed, frozen-Thawed}
use node_rotation_controller.Decide.Window.{
  window_defer, window_missed, WindowInputs, rotated_since, outstanding, window_edge,
}

module _ ⦃text : TimeText⦄ where
  -- The last rotation, if there is one, completed before `opened`.
  abbrev pub NotSince : Time → Option Time → Type 0
  NotSince opened none = Unit
  NotSince opened (some rotated) = rotated <ℤ opened

  not_since :
      (opened : Time) (last : Option Time)
      → rotated_since (some opened) last ≡ false
      → NotSince opened last
  not_since opened none h = tt
  not_since opened (some r) h = ground arith

  since_not :
      (opened : Time) (last : Option Time)
      → NotSince opened last
      → rotated_since (some opened) last ≡ false
  since_not opened none h = refl
  since_not opened (some r) h = ground arith

  -- The window is closed, its opening instant was recorded and is readable, no rotation is in
  -- flight, no freeze lies ahead, claims are outstanding, and no rotation completed since it
  -- opened.
  pub record IsMissed (i : WindowInputs) : Type 0 where
    pub opened : Time
    pub closed : i.in_window ≡ false
    pub recorded : parse_time (get i.annotations window_opened_at) ≡ some opened
    pub idle : get i.annotations active_rotation ≡ ""
    pub thawed : Thawed i.annotations i.now
    pub owed : 0 < outstanding i.census
    pub none_since : NotSince opened (parse_time (get i.annotations last_rotation_at))

  parse_time-empty : (s : String) → parse_time s ≢ none → str_eq s "" ≡ false
  unfolding parse_time
  parse_time-empty s h = ground arith

  missed→IsMissed : (i : WindowInputs) → window_edge i ≡ window_missed → IsMissed i
  unfolding window_edge
  missed→IsMissed i h = elim (Option-cases (parse_time (get i.annotations window_opened_at))) [
    | inl e ↦ absurd (ground arith)
    | inr (t, e) ↦ record {
      opened = t;
      closed = ground arith;
      recorded = e;
      idle = (str_eq_iff _ _).0 (ground arith);
      thawed = (frozen-Thawed i.annotations i.now).0 (ground arith);
      owed = ground arith;
      none_since = not_since t (parse_time (get i.annotations last_rotation_at)) (ground arith);
    }
  ]

  IsMissed→missed : (i : WindowInputs) → IsMissed i → window_edge i ≡ window_missed
  unfolding window_edge
  IsMissed→missed i m = ground (
    arith,
    parse_time-empty (get i.annotations window_opened_at) (λ e. cc (m.recorded)),
    (str_eq_iff (get i.annotations active_rotation) "").1 m.idle,
    (frozen-Thawed i.annotations i.now).1 m.thawed,
    since_not m.opened (parse_time (get i.annotations last_rotation_at)) m.none_since,
  )

  -- A missed window is reported exactly when all of these hold.
  pub window_edge-IsMissed_iff : (i : WindowInputs) → (window_edge i ≡ window_missed) ↔ IsMissed i
  window_edge-IsMissed_iff i = (missed→IsMissed i, IsMissed→missed i)

  -- While a rotation is in flight a stamped occurrence that closed is held back: neither missed
  -- nor settled.
  pub window_edge-defers :
      (i : WindowInputs) (opened : Time)
      → i.in_window ≡ false
      → parse_time (get i.annotations window_opened_at) ≡ some opened
      → get i.annotations active_rotation ≢ ""
      → window_edge i ≡ window_defer
  unfolding window_edge
  window_edge-defers i opened w r a = ground (
    arith,
    parse_time-empty (get i.annotations window_opened_at) (λ e. cc (r)),
    str_eq_iff (get i.annotations active_rotation) "",
  )
