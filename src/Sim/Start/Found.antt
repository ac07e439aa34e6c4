-- ===== src/Sim/Start/Found.antt =====
-- The slot of a pick, for slotOf of internal/sim/loop.go.
use mathlib.Core.List.{Memᴰ}
use node_rotation_controller.Base.{
  ℕ, suc, String, true, false, some, List, [], ◌∷◌, map, ◌≡◌, refl, sym, ap, str_eq, str_eq_iff,
  Bool-cases, ◌⊎◌, inl, inr,
}
use node_rotation_controller.Annotations.{TimeText}
use node_rotation_controller.Selection.{Claim, pick_earliest_deadline_eligible}
use node_rotation_controller.Selection
use node_rotation_controller.Selection.Pick.{pick_earliest_deadline_eligible_lem}
use node_rotation_controller.Sim.{SimNode, name_of, Run}
use node_rotation_controller.Sim.Fleet.{get_elem?}
use node_rotation_controller.Sim.Start.{view_of, views, index_of}

-- A slot of the list that holds a node of the name.
abbrev pub HasSlot : String → List SimNode → Type 0
HasSlot name ns =
    (i : ℕ) × (n : SimNode) × (index_of name ns ≡ some i)
    × (get_elem? i ns ≡ some n)
    × (name_of n ≡ name)

index_of-HasSlot : (ns : List SimNode) (c : Claim) → Memᴰ c (map view_of ns) → HasSlot c.name ns
index_of-HasSlot [] c m = elim m [ ]
index_of-HasSlot (n ∷ ns) c m =
    at_head (Bool-cases (str_eq (name_of n) c.name)) m (index_of-HasSlot ns c)
  where
    at_head :
        ((str_eq (name_of n) c.name ≡ true) ⊎ (str_eq (name_of n) c.name ≡ false))
        → Memᴰ c (map view_of (n ∷ ns))
        → (Memᴰ c (map view_of ns) → HasSlot c.name ns)
        → HasSlot c.name (n ∷ ns)
    at_head (inl e) m later = (0, n, rw e refl, refl, (str_eq_iff _ _).0 e)
    at_head (inr e) (Memᴰ.head h) later =
        absurd (cc (e, (str_eq_iff (name_of n) c.name).1 (sym (ap (λ (d : Claim). d.name) h))))
    at_head (inr e) (Memᴰ.tail h) later =
        let (i, x, p, q, w) = later h in (suc i, x, rw (e, p) refl, q, w)

-- Where a claim of the fleet is picked, its name is that of a slot of the fleet, and the node in
-- the slot has the name: the index that slotOf gives is never -1.
pub slot_of-pick :
    ⦃text : TimeText⦄ (r : Run) (sel : Selection.Inputs) (c : Claim)
    → pick_earliest_deadline_eligible (views r) sel ≡ some c
    → HasSlot c.name r.nodes
unfolding views
slot_of-pick r sel c h =
    index_of-HasSlot r.nodes c ((pick_earliest_deadline_eligible_lem sel (views r)).0 c h).is_member
