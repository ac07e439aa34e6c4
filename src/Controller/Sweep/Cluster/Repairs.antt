-- ===== src/Controller/Sweep/Cluster/Repairs.antt =====
-- The repair of torn pools by the sweep of internal/controller/sweep.go.
use node_rotation_controller.Base.{
  String, Bool, true, false, ◌||◌, Option, none, some, List, [], ◌∷◌, map, ◌≡◌, refl, sym, ap, ◌∙◌,
  subst, str_eq, str_eq_iff, All, Bool-cases, ◌⊎◌, inl, inr, arith, if◌then◌else◌, Annotations,
}
use node_rotation_controller.Annotations.{active_rotation_state, draining_at, rotation_mode}
use node_rotation_controller.Controller.World.{Attempt, goes_through, fails, lags, lags_gone}
use node_rotation_controller.Controller.Api.{first_attempt, rest_of}
use node_rotation_controller.Controller.Sweep.{anchored_in}
use node_rotation_controller.Controller.Sweep.Cluster.{
  ListedPool, Cluster, next_call, set_key, repair_edit, edit_found, repair_by, repair, is_torn,
  and_then, repair_listed, annotations_of, anchored_claims,
}

-- The value of a key on a pool, where there is the pool.
abbrev pub value_at : String → Option Annotations → Option (Option String)
value_at key none = none
value_at key (some m) = some (m key)

-- One of the three keys that the repair deletes.
abbrev pub is_deleted : String → Bool
is_deleted key =
    str_eq active_rotation_state key || (str_eq draining_at key || str_eq rotation_mode key)

repair_edit-keeps :
    (key : String) (m : Annotations) → is_deleted key ≡ false → repair_edit m key ≡ m key
unfolding repair_edit
repair_edit-keeps key m h =
    kept (str_eq active_rotation_state key) (str_eq draining_at key) (str_eq rotation_mode key)
      (m key) h
  where
    kept :
        (a b c : Bool) (v : Option String)
        → a || (b || c) ≡ false
        → (if c then none else (if b then none else (if a then none else v))) ≡ v
    kept a b c v h = ground arith

module _ (key name : String) (h : is_deleted key ≡ false) where
  edit_found-keeps :
      (other : String) (o : Option Annotations) (k : Cluster)
      → k.pools other ≡ o
      → value_at key ((edit_found other o k).pools name) ≡ value_at key (k.pools name)
  edit_found-keeps other none k e = refl
  edit_found-keeps other (some m) k e = at (Bool-cases (str_eq other name))
    where
      at :
          ((str_eq other name ≡ true) ⊎ (str_eq other name ≡ false))
          → value_at key (set_key other (some (repair_edit m)) k.pools name)
            ≡ value_at key (k.pools name)
      at (inl f) = rw f (
          ap some (repair_edit-keeps key m h)
          ∙ sym (ap (value_at key) (sym (ap k.pools ((str_eq_iff other name).0 f)) ∙ e)))
      at (inr f) = rw f refl

  repair-keeps :
      (other : String) (k : Cluster)
      → value_at key ((repair other k).1.pools name) ≡ value_at key (k.pools name)
  unfolding repair
  repair-keeps other k = by_attempt (first_attempt k.script)
    where
      by_attempt :
          (a : Attempt)
          → value_at key ((repair_by a other (next_call k)).1.pools name)
            ≡ value_at key (k.pools name)
      by_attempt goes_through = edit_found-keeps other (k.pools other) (next_call k) refl
      by_attempt fails = refl
      by_attempt (lags b m) = refl
      by_attempt lags_gone = refl

  -- The repair of the pools changes no annotation but the state, the drain stamp and the mode of a
  -- rotation, on any pool, whatever was listed and whatever calls fail.
  pub repair_listed-keeps :
      (ps : List ListedPool) (k : Cluster)
      → value_at key ((repair_listed ps k).1.pools name) ≡ value_at key (k.pools name)
  unfolding repair_listed
  repair_listed-keeps [] k = refl
  repair_listed-keeps (p ∷ ps) k =
      continued (if is_torn p.annotations then repair p.name k else (true, k))
        (first (is_torn p.annotations)) (repair_listed-keeps ps)
    where
      first :
          (b : Bool)
          → value_at key
              ((if◌then◌else◌ {A = Bool × Cluster} b (repair p.name k) (true, k)).1.pools name)
            ≡ value_at key (k.pools name)
      first true = repair-keeps p.name k
      first false = refl

      continued :
          (r : Bool × Cluster)
          → value_at key (r.1.pools name) ≡ value_at key (k.pools name)
          → ((l : Cluster)
              → value_at key ((repair_listed ps l).1.pools name) ≡ value_at key (l.pools name))
          → value_at key ((and_then r (repair_listed ps)).1.pools name)
            ≡ value_at key (k.pools name)
      continued (false, l) e later = e
      continued (true, l) e later = later l ∙ e

-- The pool is there and not torn, or as it was listed.
abbrev pub IsWhole : Cluster → String → Type 0
IsWhole k name = (m : Annotations) × (k.pools name ≡ some m) × (is_torn m ≡ false)

abbrev pub IsKnown : Cluster → ListedPool → Type 0
IsKnown k p = IsWhole k p.name ⊎ (k.pools p.name ≡ some p.annotations)

-- What a turn of the loop leaves, where calls go through.
record Mended (k l : Cluster) : Type 0 where
  calm : l.script ≡ []
  known : (q : ListedPool) → IsKnown k q → IsKnown l q
  whole : (name : String) → IsWhole k name → IsWhole l name

repair_edit-whole : (m : Annotations) → is_torn (repair_edit m) ≡ false
unfolding repair_edit
repair_edit-whole m = ground arith

abbrev mended : String → Cluster → Annotations → Cluster
mended name k m = record (next_call k) { pools = set_key name (some (repair_edit m)) k.pools }

repair_calm :
    (name : String) (k : Cluster) (m : Annotations)
    → k.script ≡ []
    → k.pools name ≡ some m
    → repair name k ≡ (true, mended name k m)
unfolding repair
repair_calm name k m c h = rw (c, h) refl

mended_at :
    (name other : String) (k : Cluster) (m : Annotations)
    → ((mended name k m).pools other ≡ some (repair_edit m))
      ⊎ ((mended name k m).pools other ≡ k.pools other)
mended_at name other k m = elim (Bool-cases (str_eq name other)) [
  | inl e ↦ inl (rw e refl)
  | inr e ↦ inr (rw e refl)
]

mended-Mended :
    (name : String) (k : Cluster) (m : Annotations) → k.script ≡ [] → Mended k (mended name k m)
mended-Mended name k m c = record {
  calm = ap rest_of c;
  known = λ q h. elim (mended_at name q.name k m) [
    | inl e ↦ inl (repair_edit m, e, repair_edit-whole m)
    | inr e ↦ elim h [ inl (x, f, w) ↦ inl (x, e ∙ f, w) | inr f ↦ inr (e ∙ f) ]
  ];
  whole = λ other h. elim (mended_at name other k m) [
    | inl e ↦ (repair_edit m, e, repair_edit-whole m)
    | inr e ↦ (h.0, e ∙ h.1, h.2)
  ];
}

-- A turn of the loop, on a pool that is known.
abbrev turn : ListedPool → Cluster → Bool × Cluster
turn p k = if is_torn p.annotations then repair p.name k else (true, k)

record Turned (p : ListedPool) (k : Cluster) (r : Bool × Cluster) : Type 0 where
  goes_on : r.0 ≡ true
  is_whole : IsWhole r.1 p.name
  mends : Mended k r.1

repaired-Turned :
    (p : ListedPool) (k : Cluster) (m : Annotations)
    → k.script ≡ []
    → k.pools p.name ≡ some m
    → Turned p k (repair p.name k)
repaired-Turned p k m c h = subst (Turned p k) (sym (repair_calm p.name k m c h)) (record {
  goes_on = refl;
  is_whole = (repair_edit m, rw ((str_eq_iff p.name p.name).1 refl) refl, repair_edit-whole m);
  mends = mended-Mended p.name k m c;
})

turn-Turned : (p : ListedPool) (k : Cluster) → k.script ≡ [] → IsKnown k p → Turned p k (turn p k)
turn-Turned p k c h = elim (Bool-cases (is_torn p.annotations)) [
  | inl e ↦ rw e (elim h [
    | inl (m, f, w) ↦ repaired-Turned p k m c f
    | inr f ↦ repaired-Turned p k p.annotations c f
  ])
  | inr e ↦ rw e (record {
    goes_on = refl;
    is_whole = elim h [ inl w ↦ w | inr f ↦ (p.annotations, f, e) ];
    mends = record { calm = c; known = λ q i. i; whole = λ n i. i };
  })
]

All-IsKnown :
    (qs : List ListedPool) (k l : Cluster) → Mended k l → All (IsKnown k) qs → All (IsKnown l) qs
All-IsKnown [] k l g h = tt
All-IsKnown (q ∷ qs) k l g (h, hs) = (g.known q h, All-IsKnown qs k l g hs)

abbrev AllWhole : List ListedPool → Bool × Cluster → Type 0
AllWhole ps r = (r.0 ≡ true) × All (λ p. IsWhole r.1 p.name) ps

repair_listed-IsWhole :
    (ps : List ListedPool) (k : Cluster)
    → k.script ≡ []
    → All (IsKnown k) ps
    → AllWhole ps (repair_listed ps k)
      × ((name : String) → IsWhole k name → IsWhole (repair_listed ps k).1 name)
unfolding repair_listed
repair_listed-IsWhole [] k c h = ((refl, tt), λ name w. w)
repair_listed-IsWhole (p ∷ ps) k c (h, hs) =
    after (turn p k) (turn-Turned p k c h) (repair_listed-IsWhole ps)
  where
    after :
        (r : Bool × Cluster)
        → Turned p k r
        → ((l : Cluster)
            → l.script ≡ []
            → All (IsKnown l) ps
            → AllWhole ps (repair_listed ps l)
              × ((name : String) → IsWhole l name → IsWhole (repair_listed ps l).1 name))
        → AllWhole (p ∷ ps) (and_then r (repair_listed ps))
          × ((name : String) → IsWhole k name → IsWhole (and_then r (repair_listed ps)).1 name)
    after (false, l) t later = absurd (cc (t.goes_on))
    after (true, l) t later =
        let ((g, ws), keep) = later l t.mends.calm (All-IsKnown ps k l t.mends hs) in
        ((g, (keep p.name t.is_whole, ws)), λ name w. keep name (t.mends.whole name w))

-- Where every call goes through and each pool is as it was listed, the anchors are those of the
-- list, and no pool that was listed is left with the state of a rotation and without an anchor.
pub anchored_claims-repairs :
    (ps : List ListedPool) (k : Cluster)
    → k.script ≡ []
    → All (λ p. k.pools p.name ≡ some p.annotations) ps
    → ((anchored_claims (some ps) k).0 ≡ some (anchored_in (map annotations_of ps)))
      × All (λ p. IsWhole (anchored_claims (some ps) k).1 p.name) ps
unfolding anchored_claims
anchored_claims-repairs ps k c h =
    let (g, ws) = (repair_listed-IsWhole ps k c (listed ps h)).0 in (rw g refl, ws)
  where
    listed :
        (qs : List ListedPool)
        → All (λ p. k.pools p.name ≡ some p.annotations) qs
        → All (IsKnown k) qs
    listed [] h = tt
    listed (q ∷ qs) (h, hs) = (inr h, listed qs hs)
