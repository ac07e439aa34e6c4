-- ===== src/Surge/Path.antt =====
-- internal/surge/path.go: whether a surge host came up during this attempt.
use node_rotation_controller.Base.{
  String, Bool, false, ltb_ℤ, Option, none, some, Time, if◌then◌else◌,
}

abbrev pub path_provisioned : String
path_provisioned = "provisioned"

abbrev pub path_absorbed : String
path_absorbed = "absorbed"

-- CreatedByAttempt, from the creation time of the claim where there is one.
unfoldable pub created_by_attempt : Option Time → Time → Bool
created_by_attempt none started = false
created_by_attempt (some created) started = ltb_ℤ started created

unfoldable pub host_path : Option Time → Time → String
host_path none started = ""
host_path (some created) started =
    if created_by_attempt (some created) started then path_provisioned else path_absorbed
