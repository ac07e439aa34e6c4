-- ===== src/Examples/PolicyCases.antt =====
-- internal/policy and internal/resolve: two policies, and one set of windows.
use node_rotation_controller.Base.{
  String, false, ◌≡◌, refl, ◌↔◌, none, some, List, [], ◌∷◌, Annotations, empty_map, put, has,
  minutes, str_eq, if◌then◌else◌,
}
use node_rotation_controller.Policy.{MaintenanceWindow, Policy, Formats, apply_defaults, validate}
use node_rotation_controller.Policy.Shape.{IsWellFormed}
use node_rotation_controller.Policy.Valid.{validate-IsWellFormed_iff}
use node_rotation_controller.Policy.Defaults.{windows_only}
use node_rotation_controller.Governing.{
  RotationPolicy, Selectors, matched, specificity, classify, collect, governing,
}
use node_rotation_controller.Governing.Governed.{IsGoverned, governing_lem}

-- One duration and one zone are known.
instance abbrev pub formats : Formats
formats = record {
  parse_duration = λ s. if str_eq s "1h" then some (minutes 60) else none;
  has_location = λ s. str_eq s "UTC";
}

-- A selector with labels compiles, and matches a pool that has the label "team".
instance abbrev pub selectors : Selectors
selectors = record {
  matches = λ s labels. elim s [ none ↦ some false | some t ↦ some (has labels "team") ];
}

abbrev pub night : MaintenanceWindow
night = record { timezone = "UTC"; days = "Sun" ∷ []; start = "01:00"; end_of = "05:30" }

abbrev pub spec : Policy
spec = windows_only (night ∷ [])

abbrev pub policy_named : String → List (String × String) → RotationPolicy
policy_named n labels = record {
  name = n;
  node_pool_selector = some (record { match_labels = labels; match_expressions = [] });
  spec = spec;
}

abbrev pub policies : List RotationPolicy
policies = policy_named "wide" [] ∷ policy_named "narrow" (("team", "a") ∷ []) ∷ []

abbrev pub team_pool : Annotations
team_pool = put empty_map "team" "a"

validate-IsWellFormed_iff_example :
    (validate (apply_defaults spec) ≡ []) ↔ IsWellFormed (apply_defaults spec)
validate-IsWellFormed_iff_example = validate-IsWellFormed_iff (apply_defaults spec)

governing_lem_example : IsGoverned team_pool policies (governing team_pool policies)
governing_lem_example = governing_lem team_pool policies

-- Both match, and the narrow one is the more specific.
narrow_wins : governing team_pool policies ≡ matched (policy_named "narrow" (("team", "a") ∷ []))
unfolding governing collect specificity classify
narrow_wins = refl
