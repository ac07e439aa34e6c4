-- ===== src/Examples/SweepCases.antt =====
-- internal/controller/sweep.go and internal/surge/placeholder.go: a torn pool, two placeholders of
-- which one is anchored, and the affinity of a placeholder.
use node_rotation_controller.Base.{
  ◌≡◌, ◌≢◌, ◌↔◌, refl, inr, String, true, false, none, some, List, [], ◌∷◌, map, any, All,
  Annotations, empty_map, put, str_eq, str_eq_iff, if◌then◌else◌,
}
use node_rotation_controller.Annotations.{active_rotation_state, draining_at}
use node_rotation_controller.Controller.World.{fails}
use node_rotation_controller.Controller.Sweep.{anchored_in}
use node_rotation_controller.Controller.Sweep.Cluster.{
  StoredPod, ListedPod, ListedPool, Cluster, annotations_of, anchored_claims, sweep_listed_pods,
}
use node_rotation_controller.Controller.Sweep.Cluster.Repairs.{IsWhole, anchored_claims-repairs}
use node_rotation_controller.Controller.Sweep.Cluster.Placeholders.{
  Identifies, Cleared, sweep_listed_pods-spares, sweep_listed_pods-clears,
}
use node_rotation_controller.Surge.Placeholder.{
  PlaceholderInputs, node_pool_label_key, node_affinity,
}
use node_rotation_controller.Surge.Placeholder.Parity.{
  admits, Shares, names_host, node_affinity-admits_iff, node_affinity-names_host,
}

abbrev torn : Annotations
torn = put (put empty_map active_rotation_state "draining") draining_at "then"

abbrev pool : ListedPool
pool = record { name = "pool-a"; annotations = torn }

abbrev orphan : StoredPod
orphan = record { uid = "1"; claim = "claim-a" }

abbrev held : StoredPod
held = record { uid = "2"; claim = "claim-b" }

abbrev listed : List ListedPod
listed =
    record { name = "ph-a"; uid = "1"; claim = "claim-a" }
    ∷ record { name = "ph-b"; uid = "2"; claim = "claim-b" }
    ∷ []

abbrev cluster : Cluster
cluster = record {
  pools = λ n. if str_eq n "pool-a" then some torn else none;
  pods = λ n. if str_eq n "ph-a" then some orphan else if str_eq n "ph-b" then some held else none;
  script = [];
}

anchored_claims-repairs_example :
    ((anchored_claims (some (pool ∷ [])) cluster).0
      ≡ some (anchored_in (map annotations_of (pool ∷ []))))
    × All
        (λ (p : ListedPool). IsWhole (anchored_claims (some (pool ∷ [])) cluster).1 p.name)
        (pool ∷ [])
anchored_claims-repairs_example = anchored_claims-repairs (pool ∷ []) cluster refl (refl, tt)

sweep_listed_pods-clears_example :
    All (Cleared (str_eq "claim-b") (sweep_listed_pods (str_eq "claim-b") listed cluster)) listed
sweep_listed_pods-clears_example =
    sweep_listed_pods-clears (str_eq "claim-b") listed cluster refl
      (inr (orphan, refl, refl), (inr (held, refl, refl), tt))

apart : (s t : String) → str_eq s t ≡ false → s ≢ t
apart s t h e = cc (h, (str_eq_iff s t).1 e)

Identifies-orphan : Identifies held (record { name = "ph-a"; uid = "1"; claim = "claim-a" })
Identifies-orphan = record {
  has_uid = apart "1" "" refl;
  same_label = λ e. absurd (apart "1" "2" refl e);
}

Identifies-held : Identifies held (record { name = "ph-b"; uid = "2"; claim = "claim-b" })
Identifies-held = record { has_uid = apart "2" "" refl; same_label = λ e. refl }

sweep_listed_pods-spares_example :
    (sweep_listed_pods (str_eq "claim-b") listed (record cluster { script = fails ∷ [] })).pods
      "ph-b"
    ≡ some held
sweep_listed_pods-spares_example =
    sweep_listed_pods-spares (str_eq "claim-b") "ph-b" held listed
      (record cluster { script = fails ∷ [] }) refl refl (Identifies-orphan, (Identifies-held, tt))

abbrev placeholder : PlaceholderInputs String
placeholder = record {
  candidate = record { name = "claim-a"; requirements = [] };
  node_labels = put empty_map "zone" "z1";
  pool = record {
    name = "pool-a";
    taints = [];
    requirements = record { key = "zone"; operator = "In"; values = "z1" ∷ "z2" ∷ [] } ∷ [];
  };
  requests = "one";
  match = record { required = "zone" ∷ []; preferred = [] };
  excluded_hostnames = "node-a" ∷ [];
  priority_class_name = "low";
  image = "pause";
  namespace = "system";
}

abbrev other_node : Annotations
other_node = put (put empty_map node_pool_label_key "pool-a") "zone" "z1"

node_affinity-admits_iff_example :
    (admits (node_affinity placeholder).required other_node ≡ true) ↔ (
      (other_node node_pool_label_key ≡ some "pool-a")
      × All (Shares placeholder other_node) ("zone" ∷ []))
node_affinity-admits_iff_example = node_affinity-admits_iff placeholder other_node

node_affinity-names_host_example : any (any names_host) (node_affinity placeholder).required ≡ false
node_affinity-names_host_example = node_affinity-names_host placeholder refl
