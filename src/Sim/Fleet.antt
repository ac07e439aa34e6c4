-- ===== src/Sim/Fleet.antt =====
-- internal/sim/sim.go: the slots of the fleet, the records of the timeline, and what is read off
-- a node.
use node_rotation_controller.Base.{
  ℕ, zero, suc, Bool, true, false, not, ◌&&◌, Option, none, some, List, [], ◌∷◌, ◌++◌, map, any, ℤ,
  pos, negsuc, eqb_ℤ, ltb_ℤ, Time, Duration, add_time, str_eq, if◌then◌else◌, sub_duration,
}
use node_rotation_controller.Schedule.{warn, drain_fallback}
use node_rotation_controller.Selection.{Claim, lead_time_for}
use node_rotation_controller.Window.{Zones, Schedule, in_window}
use node_rotation_controller.Sim.{
  FleetNode, FleetSpec, SimResolved, SimEvent, BirthMode, birth_initial, DrainCapSource,
  drain_cap_explicit, drain_cap_fallback, Generation, Diagnostic, SimNode, name_of, deadline, Run,
}

module _ {ℓ} {A : Type ℓ} where
  -- l[i] = f(l[i]), where i is an index of l.
  abbrev pub update_at : ℕ → (A → A) → List A → List A
  update_at i f [] = []
  update_at zero f (x ∷ xs) = f x ∷ xs
  update_at (suc i) f (x ∷ xs) = x ∷ update_at i f xs

  abbrev pub get_elem? : ℕ → List A → Option A
  get_elem? i [] = none
  get_elem? zero (x ∷ xs) = some x
  get_elem? (suc i) (x ∷ xs) = get_elem? i xs

  -- The last element, changed.
  abbrev pub update_last : (A → A) → List A → List A
  update_last f [] = []
  update_last f (x ∷ []) = f x ∷ []
  update_last f (x ∷ y ∷ ys) = x ∷ update_last f (y ∷ ys)

-- emit
abbrev pub emit : SimEvent → Run → Run
emit e r = record r { tl = record r.tl { events = e ∷ r.tl.events } }

abbrev same_amounts : List ℤ → List ℤ → Bool
same_amounts [] [] = true
same_amounts [] (y ∷ ys) = false
same_amounts (x ∷ xs) [] = false
same_amounts (x ∷ xs) (y ∷ ys) = eqb_ℤ x y && same_amounts xs ys

abbrev pub same_diagnostic : Diagnostic → Diagnostic → Bool
same_diagnostic d e =
    str_eq d.code e.code && (str_eq d.subject e.subject && same_amounts d.amounts e.amounts)

-- diagOnce
unfoldable pub diag_once : Diagnostic → Run → Run
diag_once d r =
    if any (same_diagnostic d) r.tl.diagnostics
    then r
    else record r { tl = record r.tl { diagnostics = r.tl.diagnostics ++ (d ∷ []) } }

-- drainCap
unfoldable pub drain_cap : SimNode → Duration × DrainCapSource
drain_cap n = elim n.tgp [
  | some d ↦ (d, drain_cap_explicit)
  | none ↦ (drain_fallback, drain_cap_fallback)
]

-- A claim of which only the grace period is set.
abbrev bare_claim : Option Duration → Claim
bare_claim tgp = record {
  name = "";
  created_at = pos 0;
  deleting = false;
  expire_after = none;
  tgp = tgp;
  ready = false;
  annotations = λ k. none;
}

-- eligibilityBoundary
unfoldable pub eligibility_boundary : SimResolved → SimNode → Time
eligibility_boundary res n = elim res.override [
  | some o ↦ add_time n.created_at o
  | none ↦
      add_time (deadline n) (sub_duration (pos 0) (lead_time_for res.lead_time (bare_claim n.tgp)))
]

abbrev pub generation_of : SimResolved → ℕ → SimNode → BirthMode → Option ℕ → Bool → Generation
generation_of res slot n birth predecessor provisional =
    let (bound, source) = drain_cap n in
    record {
      slot = slot;
      gen = n.gen;
      name = name_of n;
      birth_mode = birth;
      predecessor_gen = predecessor;
      created_at = n.created_at;
      expire_after = n.expire_after;
      drain_cap = bound;
      drain_cap_source = source;
      deadline = deadline n;
      eligibility_boundary = eligibility_boundary res n;
      ready_at = pos 0;
      provisional = provisional;
    }

-- recordGeneration; the index that it returns is the number of generations before.
unfoldable pub record_generation : ℕ → SimNode → BirthMode → Option ℕ → Bool → Run → Run
record_generation slot n birth predecessor provisional r = record r {
  tl = record r.tl {
    generations =
        r.tl.generations ++ (generation_of r.res slot n birth predecessor provisional ∷ []);
  };
}

abbrev or_template : Duration → Option Duration → Duration
or_template d none = d
or_template d (some e) = e

abbrev or_template_tgp : Option Duration → Option Duration → Option Duration
or_template_tgp d none = d
or_template_tgp d (some e) = some e

unfoldable pub sim_node : FleetSpec → FleetNode → SimNode
sim_node f n = record {
  base = n.name;
  gen = 0;
  created_at = n.created_at;
  expire_after = or_template f.expire_after n.expire_after;
  tgp = or_template_tgp f.tgp n.tgp;
  state = "";
  breached = false;
}

abbrev record_all : ℕ → List SimNode → Run → Run
record_all slot [] r = r
record_all slot (n ∷ ns) r =
    record_all (suc slot) ns (record_generation slot n birth_initial none false r)

-- initFleet
unfoldable pub init_fleet : FleetSpec → Run → Run
init_fleet f r =
    let nodes = map (sim_node f) f.nodes in
    record_all 0 nodes (record r { template = f; nodes = nodes })

-- drainFor: the duration, and the run with its diagnostic.
unfoldable pub drain_for : SimNode → Run → Duration × Run
drain_for n r =
    let bound = (drain_cap n).0 in
    if ltb_ℤ bound r.env.drain
    then (
      bound,
      diag_once
          (record {
            severity = warn;
            code = "EnvDrainAboveTGP";
            subject = name_of n;
            amounts = r.env.drain ∷ bound ∷ bound ∷ [];
          })
          r,
    )
    else (r.env.drain, r)

module _ ⦃zones : Zones⦄ (sched : Schedule) where
  -- openWindow
  unfoldable pub open_window : Time → Run → Run
  open_window at r =
      let clipped = in_window sched at && in_window sched (add_time at (negsuc 0)) in
      record r {
        tl = record r.tl {
          windows =
              r.tl.windows
              ++ (record {
                start = at;
                end_of = pos 0;
                start_clipped = clipped;
                end_clipped = false;
              }
                  ∷ []);
        };
        win_open = true;
      }

-- closeWindow
unfoldable pub close_window : Time → Bool → Run → Run
close_window at clipped r = if not r.win_open then r else record r {
  tl = record r.tl {
    windows = update_last (λ w. record w { end_of = at; end_clipped = clipped }) r.tl.windows;
  };
  win_open = false;
}
