-- ===== src/Controller/Calm.antt =====
-- Where every call of the API goes through, a rotation that is over, or that no policy governs any
-- more, lets go of its pool.
use node_rotation_controller.Base.{
  String, Bool, true, false, ◌≡◌, refl, Option, none, some, List, [], ◌∷◌, Annotations, get, put,
  str_eq, str_eq_iff, Time, Bool-cases, inl, inr, if◌then◌else◌,
}
use node_rotation_controller.Annotations.{
  TimeText, active_rotation, active_rotation_state, state_draining, last_rotation_at, surge_for,
}
use node_rotation_controller.NodeOps.{Node, apply_unfreeze}
use node_rotation_controller.Controller.World.{World, Result, ok, err}
use node_rotation_controller.Controller.Api.{
  pure, ◌>>=◌, continue, delete_placeholder, patch_node, node_read, node_through, find_node,
  unfreeze_listed, unfreeze_nodes, patch_pool_if, report, set_placeholder, Mutator, Written,
  written, gone, vetoed,
}
use node_rotation_controller.Controller.Anchor.{
  clear_rotation_anchor_fields, clear_anchor_if, clear_if_anchored,
}
use node_rotation_controller.Controller.Ending.{
  long_requeue, complete_edit, announce, observe_drain, complete_or_abort, reap_ungoverned_rotation,
}
use node_rotation_controller.Controller.Hoare.{After, Triple, bind-Triple}

-- No call is to fail or to lag, the pool is as it was, and the placeholder is gone.
abbrev Calm : Annotations → String → World → Type 0
Calm m name w = (w.script ≡ []) × ((w.pool ≡ m) × (w.placeholders name ≡ false))

-- It never ends in an error.
abbrev Never : World → Type 0
Never w = true ≡ false

-- The rotation of this claim has let go of the pool.
abbrev pub IsReleased : String → World → Type 0
IsReleased name w = (get w.pool active_rotation ≡ "") × (w.placeholders name ≡ false)

-- An action that gives a result, after which the claim's rotation has let go.
abbrev pub Releases {ℓ} : {A : Type ℓ} → String → Result A × World → Type 0
Releases name r = After Never (λ a. IsReleased name) r

module _ (m : Annotations) (name : String) where
  set_here : (pods : String → Bool) → set_placeholder name false pods name ≡ false
  set_here pods = rw ((str_eq_iff name name).1 refl) refl

  delete_placeholder-Calm :
      Triple Never
        (λ w. (w.script ≡ []) × (w.pool ≡ m))
        (delete_placeholder name)
        (λ u. Calm m name)
  unfolding delete_placeholder
  delete_placeholder-Calm = record { holds = λ w p. rw p.0 (refl, (p.1, set_here w.placeholders)) }

  node_through-Calm :
      (n : String) (f : Node → Node × Bool) (b : Bool)
      → Triple Never (Calm m name) (node_through n f b) (λ u. Calm m name)
  node_through-Calm n f false = record { holds = λ w p. p }
  node_through-Calm n f true = record { holds = λ w p. p }

  node_read-Calm :
      (n : String) (f : Node → Node × Bool) (o : Option Node)
      → Triple Never (Calm m name) (node_read n f o) (λ u. Calm m name)
  node_read-Calm n f none = record { holds = λ w p. p }
  node_read-Calm n f (some x) = node_through-Calm n f (f x).1

  patch_node-Calm :
      (n : String) (f : Node → Node × Bool)
      → Triple Never (Calm m name) (patch_node n f) (λ u. Calm m name)
  unfolding patch_node
  patch_node-Calm n f = record {
    holds = λ w p. rw p.0 ((node_read-Calm n f (find_node n w.nodes)).holds _ (refl, p.1));
  }

  unfreeze_listed-Calm :
      (ns : List Node) (claim : String)
      → Triple Never (Calm m name) (unfreeze_listed ns claim) (λ u. Calm m name)
  unfolding unfreeze_listed
  unfreeze_listed-Calm [] claim = record { holds = λ w p. p }
  unfreeze_listed-Calm (n ∷ ns) claim =
      elim (Bool-cases (str_eq (get n.annotations surge_for) claim)) [
        | inl e ↦ rw e (
            bind-Triple (patch_node n.name apply_unfreeze) _ (patch_node-Calm n.name apply_unfreeze)
              (λ u. unfreeze_listed-Calm ns claim))
        | inr e ↦ rw e (unfreeze_listed-Calm ns claim)
      ]

  unfreeze_nodes-Calm :
      (ns : List Node) (claim : String)
      → Triple Never (Calm m name) (unfreeze_nodes (some ns) claim) (λ u. Calm m name)
  unfolding unfreeze_nodes ◌>>=◌
  unfreeze_nodes-Calm ns claim = record { holds = (unfreeze_listed-Calm ns claim).holds }

cleared : (m : Annotations) → get (clear_rotation_anchor_fields m) active_rotation ≡ ""
unfolding clear_rotation_anchor_fields
cleared m = refl

module _ (m : Annotations) (name : String) where
  -- The write that releases the anchor, by an edit that is made for this pool.
  release-Calm :
      (f : Mutator) (rest : Annotations)
      → f m ≡ some (clear_rotation_anchor_fields rest)
      → Triple Never (Calm m name) (patch_pool_if f) (λ r. IsReleased name)
  unfolding patch_pool_if
  release-Calm f rest e = record { holds = λ w p. rw (p.0, p.1.0, e) (cleared rest, p.1.1) }

  module _ ⦃text : TimeText⦄ (now : Time) where
    abbrev completed : Annotations → Annotations
    completed m =
        if str_eq (get m active_rotation_state) state_draining
        then put m last_rotation_at (text.format now)
        else m

    observe_drain-Released :
        (o : Option Time)
        → Triple Never (IsReleased name) (observe_drain o now) (λ u. IsReleased name)
    unfolding report
    observe_drain-Released none = record { holds = λ w p. p }
    observe_drain-Released (some at) = record { holds = λ w p. p }

    announce-Released :
        (r : Written) → Triple Never (IsReleased name) (announce name now r) (λ a. IsReleased name)
    unfolding report ◌>>=◌
    announce-Released gone = record { holds = λ w p. p }
    announce-Released (vetoed seen) = record { holds = λ w p. p }
    announce-Released (written before after) =
        elim (Bool-cases (str_eq (get before active_rotation_state) state_draining)) [
          | inl e ↦ rw e (record { holds = λ w p. go _ ((observe_drain-Released _).holds _ p) })
          | inr e ↦ rw e (record { holds = λ w p. p })
        ]
      where
        go :
            (r : Result (Unit {0}) × World)
            → After Never (λ u. IsReleased name) r
            → After Never (λ a. IsReleased name) (continue r.0 (λ u. pure long_requeue) r.1)
        go (ok u, w) p = p
        go (err, w) p = p

-- A completion lets go: where every call goes through and the frozen nodes can be listed, a pass
-- that finds the claim gone gives a result, after which the pool has no anchor and the claim no
-- placeholder, where the pool was anchored to that claim.
pub complete_or_abort-Releases :
    ⦃text : TimeText⦄
    → (name : String) (now : Time) (nodes : List Node) (w : World) → w.script ≡ []
    → get w.pool active_rotation ≡ name
    → Releases name (complete_or_abort name now (some nodes) w)
unfolding complete_or_abort
complete_or_abort-Releases name now nodes w calm h =
    (bind-Triple (delete_placeholder name) _ (delete_placeholder-Calm w.pool name) (λ u.
        bind-Triple (unfreeze_nodes (some nodes) name) _
          (unfreeze_nodes-Calm w.pool name nodes name)
          (λ v.
            bind-Triple (patch_pool_if (complete_edit name now)) _
              (release-Calm w.pool name (complete_edit name now) (completed w.pool name now w.pool)
                (rw ((str_eq_iff (get w.pool active_rotation) name).1 h) refl))
              (announce-Released w.pool name now)))).holds
      w (calm, refl)

-- The reap of a pool that no policy governs lets go: where every call goes through and the frozen
-- nodes can be listed, it gives a result, after which the pool has no anchor and the claim no
-- placeholder, where the pool is anchored to the claim, which has a name, in what the pass was
-- handed and on the API server.
pub reap_ungoverned_rotation-Releases :
    (seen : Annotations) (nodes : List Node) (w : World)
    → w.script ≡ []
    → str_eq (get seen active_rotation) "" ≡ false
    → get w.pool active_rotation ≡ get seen active_rotation
    → Releases (get seen active_rotation) (reap_ungoverned_rotation seen (some nodes) w)
unfolding reap_ungoverned_rotation clear_anchor_if
reap_ungoverned_rotation-Releases seen nodes w calm named h = rw named (
    (bind-Triple (delete_placeholder name) _ (delete_placeholder-Calm w.pool name) (λ u.
        bind-Triple (unfreeze_nodes (some nodes) name) _
          (unfreeze_nodes-Calm w.pool name nodes name)
          (λ v.
            bind-Triple (clear_anchor_if name) _
              (bind-Triple (patch_pool_if (clear_if_anchored name)) _
                (release-Calm w.pool name (clear_if_anchored name) w.pool
                  (rw ((str_eq_iff (get w.pool active_rotation) name).1 h) refl))
                (λ r. record { holds = λ w p. p }))
              (λ r. record { holds = λ w p. p })))).holds
      w (calm, refl))
  where
    name : String
    name = get seen active_rotation
