-- ===== src/Controller/PolicyStatus/Settles.antt =====
-- The status of internal/controller/policystatus.go settles, and is Ready when it should be.
use node_rotation_controller.Base.{
  String, Bool, true, false, not, ◌&&◌, ◌||◌, some, List, [], ◌∷◌, ◌++◌, ◌≡◌, refl, ap, ◌∙◌, str_eq,
  any, sort_names, arith, Bool-cases, inl, inr,
}
use node_rotation_controller.Governing.{
  RotationPolicy, Selectors, Outcome, matched, no_match, conflict, governing,
}
use node_rotation_controller.Policy.{Formats}
use node_rotation_controller.Controller.PolicyStatus.{
  Verdict, invalid, tied, accepted, Conditions, PoolView, Tally, no_pools, count_pool, verdict_of,
  resolves, tally, Status, Target, compute_status, same_status, StatusWrite, status_pass, settled,
}

module _ ⦃conditions : Conditions⦄ ⦃formats : Formats⦄ ⦃selectors : Selectors⦄ where
  -- The policy after a pass that wrote the status that it computed.
  abbrev pub rewritten : Target → List RotationPolicy → List PoolView → Target
  rewritten t policies pools = record t { status = compute_status t policies pools }

  compute_status-again :
      (t : Target) (policies : List RotationPolicy) (pools : List PoolView)
      → compute_status (rewritten t policies pools) policies pools ≡ compute_status t policies pools
  unfolding compute_status
  compute_status-again t policies pools =
      ap (λ cs. record (compute_status t policies pools) { condition_list = cs })
        (conditions.set_again t.status.condition_list _)

  same_status_self : (s : Status) → same_status s s ≡ true
  same_status_self s = let c = conditions.same_self s.condition_list in ground arith

  -- Once the status that a pass computes is there, the next pass over the same policies and pools
  -- writes nothing and asks for no further pass, however a write would turn out.
  pub status_pass-settles :
      (t : Target) (policies : List RotationPolicy) (pools : List PoolView) (outcome : StatusWrite)
      → status_pass outcome (some (some (rewritten t policies pools))) (some policies) (some pools)
        ≡ settled
  unfolding status_pass
  status_pass-settles t policies pools outcome =
      rw (compute_status-again t policies pools, same_status_self (compute_status t policies pools))
        refl

abbrev pub is_ready : Verdict → Bool
is_ready invalid = false
is_ready (tied names pools) = false
is_ready (accepted n) = true

-- A pool for which the policy is among those that tie.
abbrev ties_at : String → Outcome → Bool
ties_at self no_match = false
ties_at self (matched w) = false
ties_at self (conflict names) = any (str_eq self) names

abbrev no_names : List String → Bool
no_names [] = true
no_names (n ∷ ns) = false

module _ ⦃selectors : Selectors⦄ where
  abbrev pub ties : String → List RotationPolicy → PoolView → Bool
  ties self policies p = ties_at self (governing p.labels policies)

  count_pool-conflicted :
      (self : String) (p : PoolView) (o : Outcome) (t : Tally)
      → no_names (count_pool self p o t).conflicted ≡ not (ties_at self o) && no_names t.conflicted
  count_pool-conflicted self p no_match t = refl
  count_pool-conflicted self p (matched w) t = ground arith
  count_pool-conflicted self p (conflict names) t = elim (Bool-cases (any (str_eq self) names)) [
    | inl e ↦ rw e (grown t.conflicted)
    | inr e ↦ rw e refl
  ]
    where
      grown : (ns : List String) → no_names (ns ++ (p.name ∷ [])) ≡ false
      grown [] = refl
      grown (n ∷ ns) = refl

  tally-conflicted :
      (self : String) (policies : List RotationPolicy) (pools : List PoolView) (t : Tally)
      → no_names (tally self policies pools t).conflicted
        ≡ no_names t.conflicted && not (any (ties self policies) pools)
  unfolding tally
  tally-conflicted self policies [] t = ground arith
  tally-conflicted self policies (p ∷ ps) t =
      tally-conflicted self policies ps (count_pool self p (governing p.labels policies) t)
      ∙ ap (λ b. b && not (any (ties self policies) ps))
          (count_pool-conflicted self p (governing p.labels policies) t)
      ∙ shuffle (ties self policies p) (no_names t.conflicted) (any (ties self policies) ps)
    where
      shuffle : (a b c : Bool) → (not a && b) && not c ≡ b && not (a || c)
      shuffle a b c = ground arith

  verdict_of-ready :
      (valid : Bool) (t : Tally) → is_ready (verdict_of valid t) ≡ valid && no_names t.conflicted
  verdict_of-ready false t = refl
  verdict_of-ready true t = by_list t.conflicted
    where
      by_list :
          (ns : List String)
          → is_ready (elim ns [
            | [] ↦ accepted t.matched_pools
            | n ∷ ms ↦ tied (sort_names t.tied_names) (sort_names t.conflicted)
          ])
            ≡ no_names ns
      by_list [] = refl
      by_list (n ∷ ns) = refl

  -- The Ready condition of a policy is true when and only when its spec resolves and it ties with
  -- no other policy for any pool.
  pub verdict_of-ready_iff :
      ⦃formats : Formats⦄ (target : RotationPolicy) (policies : List RotationPolicy)
      (pools : List PoolView)
      → is_ready (verdict_of (resolves target) (tally target.name policies pools no_pools))
        ≡ resolves target && not (any (ties target.name policies) pools)
  verdict_of-ready_iff target policies pools =
      verdict_of-ready (resolves target) (tally target.name policies pools no_pools)
      ∙ ap (λ b. resolves target && b) (tally-conflicted target.name policies pools no_pools)
