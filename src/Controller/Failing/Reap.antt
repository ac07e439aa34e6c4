-- ===== src/Controller/Failing/Reap.antt =====
-- reapSurgeClaim: which claim a rollback may delete.
use node_rotation_controller.Base.{
  String, true, false, Option, none, some, List, ◌≡◌, ◌⊎◌, refl, inl, inr, Bool-cases, get, str_eq,
  ◌<ℤ◌, Time, arith,
}
use node_rotation_controller.Annotations.{TimeText, parse_time, started_at}
use node_rotation_controller.Surge.Pods.{Pod}
use node_rotation_controller.Surge.Path.{created_by_attempt}
use node_rotation_controller.Controller.World.{NodeClaim, World, M}
use node_rotation_controller.Controller.Reads.{Cache, Resolved, hosts_real_pods}
use node_rotation_controller.Controller.Failing.{
  reap_unless_used, reap_new, reap_found, reap_surge_claim,
}

-- A claim that came up after the attempt began, and hosts no Pod but its placeholder.
pub record IsReapable (cache : Cache) (res : Resolved) (cand sc : NodeClaim) (start : Option Time)
    : Type 0 where
  pub started : Time
  pub known : start ≡ some started
  pub is_new : started <ℤ sc.created_at
  pub is_idle :
      (str_eq sc.node_name "" ≡ true)
      ⊎ ((pods : List Pod) × ((cache.all_pods ≡ some pods)
            × (hosts_real_pods pods sc.node_name res.namespace (res.placeholder_name cand.name)
                ≡ false)))

after : (s c : Time) → created_by_attempt (some c) s ≡ true → s <ℤ c
unfolding created_by_attempt
after s c h = ground arith

module _ (cache : Cache) (res : Resolved) (cand : NodeClaim) (w : World) where
  abbrev Spares : M (Unit {0}) → Type 0
  Spares m = (m w).1 ≡ w

  unless_used :
      (sc : NodeClaim) (o : Option (List Pod))
      → cache.all_pods ≡ o
      → Spares (reap_unless_used res cand sc o)
        ⊎ ((pods : List Pod) × ((cache.all_pods ≡ some pods)
              × (hosts_real_pods pods sc.node_name res.namespace (res.placeholder_name cand.name)
                  ≡ false)))
  unless_used sc none e = inl refl
  unless_used sc (some pods) e =
      elim (Bool-cases
        (hosts_real_pods pods sc.node_name res.namespace (res.placeholder_name cand.name))) [
          | inl h ↦ inl (rw h refl)
          | inr h ↦ inr (pods, (e, h))
        ]

  new_only :
      (sc : NodeClaim) (o : Option Time)
      → Spares (reap_new cache res cand sc o) ⊎ IsReapable cache res cand sc o
  new_only sc none = inl refl
  new_only sc (some started) = elim (Bool-cases (created_by_attempt (some sc.created_at) started)) [
    | inr h ↦ inl (rw h refl)
    | inl h ↦ elim (Bool-cases (str_eq sc.node_name "")) [
      | inl e ↦ inr (record {
        started = started;
        known = refl;
        is_new = after started sc.created_at h;
        is_idle = inl e;
      })
      | inr e ↦ elim (unless_used sc cache.all_pods refl) [
        | inl s ↦ inl (rw (h, e) s)
        | inr u ↦ inr (record {
          started = started;
          known = refl;
          is_new = after started sc.created_at h;
          is_idle = inr u;
        })
      ]
    ]
  ]

-- A rollback changes nothing unless the claim that it is told to reap was read, came up after this
-- attempt began, and either has no node or hosts no Pod of a workload but the placeholder.
pub reap_surge_claim-Spares :
    ⦃text : TimeText⦄
    → (cache : Cache) (res : Resolved) (cand : NodeClaim) (name : String) (w : World)
    → ((reap_surge_claim cache res cand name w).1 ≡ w)
      ⊎ ((sc : NodeClaim) × ((cache.get_claim name ≡ some (some sc))
            × IsReapable cache res cand sc (parse_time (get cand.annotations started_at))))
unfolding reap_surge_claim
reap_surge_claim-Spares cache res cand name w = elim (Bool-cases (str_eq name "")) [
  | inl e ↦ inl (rw e refl)
  | inr e ↦ elim (found (cache.get_claim name) refl) [ inl s ↦ inl (rw e s) | inr r ↦ inr r ]
]
  where
    found :
        (o : Option (Option NodeClaim))
        → cache.get_claim name ≡ o
        → ((reap_found cache res cand o w).1 ≡ w)
          ⊎ ((sc : NodeClaim) × ((cache.get_claim name ≡ some (some sc))
                × IsReapable cache res cand sc (parse_time (get cand.annotations started_at))))
    found none e = inl refl
    found (some none) e = inl refl
    found (some (some sc)) e =
        elim (new_only cache res cand w sc (parse_time (get cand.annotations started_at))) [
          | inl s ↦ inl s
          | inr r ↦ inr (sc, (e, r))
        ]
