-- ===== src/Controller/Warnings.antt =====
-- internal/controller/warnings.go and transitions.go: the log lines and Events of a NodePool's
-- standing conditions, each announced once as long as it lasts.
--
-- A text's wording is left out: an output carries its reason, its action and the values that the
-- text is rendered from. How fmt writes a census is a parameter.
pub mod Latched
pub mod Calls
pub mod Effects
pub mod Stateless
pub mod Passes
pub mod History
use node_rotation_controller.Base.{
  ℕ, String, Bool, true, false, Option, none, some, List, [], ◌∷◌, ◌++◌, str_eq, any, map,
  empty_map, Annotations, if◌then◌else◌,
}
use node_rotation_controller.Schedule.{Finding, Severity, warn, fatal}
use node_rotation_controller.Selection.{Claim, LeadTime, short_lead_claims}
use node_rotation_controller.Adapt.{claim_views}
use node_rotation_controller.Controller.World.{NodeClaim}

-- An object that an Event is about.
pub data Object : Type 0 where
  node_pool : String → Object
  node_claim : String → Object

pub record Notice : Type 0 where
  pub about : Object
  pub related : Option Object
  pub reason : String
  pub action : String
  pub values : List String

-- A line at debug verbosity, a line, and a Warning Event.
pub data Output : Type 0 where
  debug : Notice → Output
  logged : Notice → Output
  raised : Notice → Output

pub record PoolWarnState : Type 0 where
  pub finding_codes : String → Bool
  pub short_lead : String → Bool
  pub conflict : String
  pub no_candidate : String
  pub static_pool : String
  pub ph_pending : Annotations
  pub headroom : String

abbrev pub fresh_state : PoolWarnState
fresh_state = record {
  finding_codes = λ c. false;
  short_lead = λ c. false;
  conflict = "";
  no_candidate = "";
  static_pool = "";
  ph_pending = empty_map;
  headroom = "";
}

-- The emitter's state map, and whether it has an Event recorder.
pub record Emitter : Type 0 where
  pub events : Bool
  pub state : String → Option PoolWarnState

unfoldable pub new_warning_emitter : Bool → Emitter
new_warning_emitter events = record { events = events; state = λ p. none }

-- poolStateLocked: the state of a pool, a fresh one where there is none.
unfoldable pub pool_state : Emitter → String → PoolWarnState
pool_state e pool = elim (e.state pool) [ none ↦ fresh_state | some s ↦ s ]

abbrev pub set_state : Emitter → String → PoolWarnState → Emitter
set_state e pool s = record e { state = λ q. if str_eq pool q then some s else e.state q }

-- A line, and an Event where there is a recorder.
abbrev pub announce : Bool → Notice → List Output
announce events n = logged n ∷ (if events then raised n ∷ [] else [])

-- One key is announced where it is not the last one.
abbrev pub once : Bool → String → String → Notice → List Output
once events last key n = if str_eq last key then [] else announce events n

abbrev pub finding_notice : String → Finding → Notice
finding_notice pool f = record {
  about = node_pool pool;
  related = none;
  reason = f.code;
  action = "EvaluateSchedule";
  values = f.code ∷ [];
}

abbrev pub is_warn : Finding → Bool
is_warn f = elim f.severity [ warn ↦ true | fatal ↦ false ]

-- What a list of names that stand now says about those that stood before.
abbrev pub newly : (String → Bool) → Bool → (String → Notice) → String → List Output
newly before events n name = debug (n name) ∷ (if before name then [] else announce events (n name))

abbrev pub finding_lines : (String → Bool) → Bool → String → List Finding → List Output
finding_lines before events pool [] = []
finding_lines before events pool (f ∷ fs) =
    let rest = finding_lines before events pool fs in
    if is_warn f then newly before events (λ c. finding_notice pool f) f.code ++ rest else rest

abbrev pub warns_of : List Finding → String → Bool
warns_of fs code = any (λ f. if is_warn f then str_eq f.code code else false) fs

unfoldable pub emit_findings : Emitter → String → List Finding → Emitter × List Output
emit_findings e pool fs =
    let s = pool_state e pool in
    (
      set_state e pool (record s { finding_codes = warns_of fs }),
      finding_lines s.finding_codes e.events pool fs,
    )

abbrev pub short_lead_notice : String → Notice
short_lead_notice name = record {
  about = node_claim name;
  related = none;
  reason = "ShortLead";
  action = "CheckExpiry";
  values = name ∷ [];
}

abbrev pub short_lead_lines : (String → Bool) → Bool → List Claim → List Output
short_lead_lines before events [] = []
short_lead_lines before events (c ∷ cs) =
    newly before events short_lead_notice c.name ++ short_lead_lines before events cs

abbrev pub named_in : List Claim → String → Bool
named_in cs name = any (λ c. str_eq c.name name) cs

unfoldable pub emit_short_lead :
    Emitter → String → List NodeClaim → LeadTime → Emitter × List Output
emit_short_lead e pool claims lead =
    let s = pool_state e pool in
    let found = short_lead_claims (claim_views claims) lead in
    (
      set_state e pool (record s { short_lead = named_in found }),
      short_lead_lines s.short_lead e.events found,
    )
