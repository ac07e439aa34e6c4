-- ===== src/Examples/ControllerCases.antt =====
-- internal/controller/rotation_controller.go: one pool, one claim, and calls that fail.
use node_rotation_controller.Base.{
  String, true, false, ◌≡◌, ◌⊎◌, refl, Option, none, some, [], ◌∷◌, Annotations, empty_map, put,
  get, pos, ap, sym, atoi, atoi_codes, unsigned, digits_value,
}
use node_rotation_controller.Annotations.{
  started_at, parse_time, state, state_failed, state_draining, active_rotation,
  active_rotation_state, retry_count,
}
use node_rotation_controller.Selection.{parse_int}
use node_rotation_controller.Controller.World.{NodeClaim, goes_through, fails, claim_deleted, World}
use node_rotation_controller.Controller.Reads.{Cache, Resolved}
use node_rotation_controller.Controller.Api.{tick, delete_claim, ◌>>=◌}
use node_rotation_controller.Controller.Ending.{complete_or_abort}
use node_rotation_controller.Controller.Ending.Once.{balance, complete_or_abort-balance}
use node_rotation_controller.Controller.Pending.Safe.{IsOrdered}
use node_rotation_controller.Controller.Pending.{protect_and_escalate, start_forceful_fallback}
use node_rotation_controller.Controller.Dispatch.Ordered.{own_delete-IsOrdered}
use node_rotation_controller.Controller.Failing.{record_failure, reap_surge_claim}
use node_rotation_controller.Controller.Failing.Recorded.{IsRecorded, record_failure-IsRecorded}
use node_rotation_controller.Controller.Failing.Reap.{IsReapable, reap_surge_claim-Spares}
use node_rotation_controller.Controller.Dispatch.{advance, advance_draining, advance_pending}
use node_rotation_controller.Controller.Dispatch.Turns.{advance-ends}
use node_rotation_controller.Controller.Dispatch.Stale.{advance_pending_stale}
use node_rotation_controller.Examples.Stamps.{stamps, at, stamp}

abbrev pub failed_claim : NodeClaim
failed_claim = record {
  name = "claim-a";
  created_at = at 10;
  annotations = put (put empty_map state state_failed) retry_count "2";
  deleting = false;
  node_name = "node-a";
  expire_after = some (pos 1_000_000_000_000);
  tgp = none;
  conditions = ("Ready", "True") ∷ [];
}

abbrev pub anchored_pool : Annotations
anchored_pool = put (put empty_map active_rotation "claim-a") active_rotation_state state_draining

-- The first call goes through, and the second fails.
abbrev pub world : World
world = record {
  pool = anchored_pool;
  version = 1;
  claims = λ name. some failed_claim;
  nodes = [];
  placeholders = λ name. true;
  effects = [];
  script = goes_through ∷ fails ∷ [];
}

abbrev pub cache : Cache
cache = record {
  pool = anchored_pool;
  version = some 1;
  pool_nodes = some [];
  get_claim = λ name. some (some failed_claim);
  reread = some (some failed_claim);
  get_placeholder = λ name. some none;
  get_node = λ name. some none;
  pool_claims = some (failed_claim ∷ []);
  surge_nodes = some [];
  all_pods = some [];
  fits = some true;
  excluded_hosts = some [];
}

abbrev resolved : Resolved
resolved = record {
  pool_name = "pool-a";
  namespace = "system";
  placeholder_name = λ name. name;
  static_pool = false;
  fatal = false;
  retry_backoff = pos 60;
  ready_timeout = pos 60;
  cooldown = pos 0;
  failure_pause = pos 0;
  drain_bound = pos 60;
  fallback_enabled = false;
  in_window = true;
  occurrence = none;
  lead_time = record { base = pos 0; drain_fallback = pos 60 };
  override = none;
  drain_estimate = none;
  provisioning_estimate = none;
  chances = pos 2;
  max_unavailable = pos 1;
}

complete_or_abort-balance_example :
    balance "claim-a" (complete_or_abort "claim-a" (at 100) (some []) world).1
    ≡ balance "claim-a" world
complete_or_abort-balance_example =
    complete_or_abort-balance "claim-a" (at 100) (some []) world (λ e. cc)

-- Every call goes through.
abbrev calm : World
calm = record world { script = [] }

-- The delete goes through, under the mirror.
deleted_in_order :
    (advance_draining cache failed_claim calm).1.effects
    ≡ claim_deleted "claim-a" state_draining ∷ []
unfolding advance_draining delete_claim ◌>>=◌
deleted_in_order = refl

own_delete-IsOrdered_example :
    IsOrdered (protect_and_escalate cache resolved failed_claim (at 100) (at 20) calm).1
    × IsOrdered (start_forceful_fallback failed_claim (at 100) calm).1
    × IsOrdered (advance_draining cache failed_claim calm).1
own_delete-IsOrdered_example =
    own_delete-IsOrdered cache resolved failed_claim (at 100) (at 20) calm tt (λ e. e)

record_failure-IsRecorded_example :
    (((record_failure "claim-a" (at 100) calm).1).pool ≡ calm.pool)
    ⊎ IsRecorded "claim-a" (at 100) calm (record_failure "claim-a" (at 100) calm).1
record_failure-IsRecorded_example = record_failure-IsRecorded "claim-a" (at 100) calm

counted : parse_int (get failed_claim.annotations retry_count) ≡ pos 2
unfolding parse_int atoi atoi_codes unsigned digits_value
counted = refl

advance_pending_stale_example :
    (advance_pending cache resolved failed_claim (at 100) world).1 ≡ tick world
advance_pending_stale_example =
    advance_pending_stale cache resolved failed_claim failed_claim (at 100) world refl refl refl

advance-ends_example :
    advance 5 (λ i. cache) resolved "claim-a" (at 100) world
    ≡ advance 2 (λ i. cache) resolved "claim-a" (at 100) world
advance-ends_example =
    advance-ends (λ i. cache) resolved "claim-a" (at 100) (λ i c e. ap (name_or c.name) (sym e)) 3
      world
  where
    name_or : String → Option (Option NodeClaim) → String
    name_or s none = s
    name_or s (some none) = s
    name_or s (some (some c)) = c.name

-- An attempt that began before the claim that it is told to reap came up.
abbrev started_claim : NodeClaim
started_claim = record failed_claim { annotations = put empty_map started_at (stamp 5) }

reap_surge_claim-Spares_example :
    ((reap_surge_claim cache resolved started_claim "claim-b" world).1 ≡ world)
    ⊎ ((sc : NodeClaim) × ((cache.get_claim "claim-b" ≡ some (some sc))
          × IsReapable cache resolved started_claim sc
              (parse_time (get started_claim.annotations started_at))))
reap_surge_claim-Spares_example =
    reap_surge_claim-Spares cache resolved started_claim "claim-b" world
