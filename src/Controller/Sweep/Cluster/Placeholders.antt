-- ===== src/Controller/Sweep/Cluster/Placeholders.antt =====
-- Which placeholders the sweep of internal/controller/sweep.go deletes, and which it leaves.
use node_rotation_controller.Base.{
  String, Bool, true, false, ◌||◌, Option, none, some, List, [], ◌∷◌, ◌≡◌, ◌≢◌, refl, sym, ap, ◌∙◌,
  subst, str_eq, str_eq_iff, All, Bool-cases, ◌⊎◌, inl, inr, if◌then◌else◌,
}
use node_rotation_controller.Controller.World.{Attempt, goes_through, fails, lags, lags_gone}
use node_rotation_controller.Controller.Api.{first_attempt}
use node_rotation_controller.Controller.Sweep.Cluster.{
  StoredPod, ListedPod, Cluster, next_call, set_key, delete_found, is_selected, delete_by,
  delete_selected, Deleted, removed, not_there, is_spared, sweep_listed_pods,
}

-- UIDs tell the Pods apart: a Pod that was listed has one, and where it is the UID of this Pod, it
-- was listed with this Pod's label.
pub record Identifies (s : StoredPod) (p : ListedPod) : Type 0 where
  pub has_uid : p.uid ≢ ""
  pub same_label : p.uid ≡ s.uid → p.claim ≡ s.claim

set_key-none :
    (name other : String) (s : StoredPod) (pods : String → Option StoredPod)
    → pods name ≡ some s
    → str_eq other name ≡ false
    → set_key other none pods name ≡ some s
set_key-none name other s pods h e = rw e h

some_inj : {s t : StoredPod} → some s ≡ some t → s ≡ t
some_inj h = cc

not_selected :
    (anchored : String → Bool) (s : StoredPod) (p : ListedPod)
    → Identifies s p
    → is_spared anchored s.claim ≡ true
    → is_spared anchored p.claim ≡ false
    → ¬ (is_selected p s ≡ true)
not_selected anchored s p i a n j = elim (either (str_eq p.uid "") _ j) [
  | inl e ↦ i.has_uid ((str_eq_iff p.uid "").0 e)
  | inr e ↦
      absurd (cc (n, ap (is_spared anchored) (i.same_label ((str_eq_iff p.uid s.uid).0 e)), a))
]
  where
    either : (a b : Bool) → a || b ≡ true → (a ≡ true) ⊎ (b ≡ true)
    either true b h = inl refl
    either false b h = inr h

module _ (anchored : String → Bool) (name : String) (s : StoredPod) where
  delete_selected-spares :
      (p : ListedPod) (k : Cluster)
      → k.pods name ≡ some s
      → is_spared anchored s.claim ≡ true
      → Identifies s p
      → is_spared anchored p.claim ≡ false
      → (delete_selected p k).1.pods name ≡ some s
  unfolding delete_selected
  delete_selected-spares p k h a i n = by_attempt (first_attempt k.script)
    where
      found :
          (o : Option StoredPod)
          → k.pods p.name ≡ o
          → (delete_found p o (next_call k)).1.pods name ≡ some s
      found none e = h
      found (some t) e =
          taken (is_selected p t) (λ j. set_key-none name p.name s k.pods h (another t e j))
        where
          another :
              (t : StoredPod)
              → k.pods p.name ≡ some t
              → is_selected p t ≡ true
              → str_eq p.name name ≡ false
          another t e j = elim (Bool-cases (str_eq p.name name)) [
            | inr f ↦ f
            | inl f ↦ absurd (
                not_selected anchored s p i a n (
                  subst (λ u. is_selected p u ≡ true)
                    (some_inj (sym e ∙ ap k.pods ((str_eq_iff p.name name).0 f) ∙ h)) j))
          ]

          taken :
              (b : Bool)
              → (b ≡ true → set_key p.name none k.pods name ≡ some s)
              → (if◌then◌else◌ {A = Deleted × Cluster} b
                    (removed, record (next_call k) { pods = set_key p.name none k.pods })
                    (not_there, next_call k)).1.pods
                  name
                ≡ some s
          taken true g = g refl
          taken false g = h

      by_attempt : (b : Attempt) → (delete_by b p (next_call k)).1.pods name ≡ some s
      by_attempt goes_through = found (k.pods p.name) refl
      by_attempt fails = h
      by_attempt (lags b m) = found (k.pods p.name) refl
      by_attempt lags_gone = found (k.pods p.name) refl

  -- A Pod whose label is not set or is that of an anchor stays as it is, whatever calls fail and
  -- whatever Pod was listed under its name, where UIDs tell the Pods apart.
  pub sweep_listed_pods-spares :
      (ps : List ListedPod) (k : Cluster)
      → k.pods name ≡ some s
      → is_spared anchored s.claim ≡ true
      → All (Identifies s) ps
      → (sweep_listed_pods anchored ps k).pods name ≡ some s
  unfolding sweep_listed_pods
  sweep_listed_pods-spares [] k h a i = h
  sweep_listed_pods-spares (p ∷ ps) k h a (i, is) =
      sweep_listed_pods-spares ps _ (kept (Bool-cases (is_spared anchored p.claim))) a is
    where
      kept :
          ((is_spared anchored p.claim ≡ true) ⊎ (is_spared anchored p.claim ≡ false))
          → (if is_spared anchored p.claim then k else (delete_selected p k).1).pods name ≡ some s
      kept (inl e) = rw e h
      kept (inr e) = rw e (delete_selected-spares p k h a i e)

-- The Pod of this name is gone, or is one that the delete of this listed Pod selects.
abbrev pub Matches : Cluster → ListedPod → Type 0
Matches k p =
    (k.pods p.name ≡ none) ⊎ ((s : StoredPod) × (k.pods p.name ≡ some s) × (is_selected p s ≡ true))

-- What a call that goes through leaves.
record IsGone (p : ListedPod) (k l : Cluster) : Type 0 where
  gone_from : (j : String) → l.pods j ≡ set_key p.name none k.pods j
  calm : l.script ≡ []

delete_selected-IsGone :
    (p : ListedPod) (k : Cluster) → k.script ≡ [] → Matches k p → IsGone p k (delete_selected p k).1
unfolding delete_selected
delete_selected-IsGone p k c (inl n) = record {
  gone_from = λ j. rw (c, n) (absent j (Bool-cases (str_eq p.name j)));
  calm = rw (c, n) refl;
}
  where
    absent :
        (j : String)
        → ((str_eq p.name j ≡ true) ⊎ (str_eq p.name j ≡ false))
        → k.pods j ≡ set_key p.name none k.pods j
    absent j (inl e) = rw e (sym (ap k.pods ((str_eq_iff p.name j).0 e)) ∙ n)
    absent j (inr e) = rw e refl
delete_selected-IsGone p k c (inr (s, e, j)) = record {
  gone_from = λ i. rw (c, e, j) refl;
  calm = rw (c, e, j) refl;
}

module _ (anchored : String → Bool) where
  spared_turn :
      (p : ListedPod) (ps : List ListedPod) (k : Cluster)
      → is_spared anchored p.claim ≡ true
      → sweep_listed_pods anchored (p ∷ ps) k ≡ sweep_listed_pods anchored ps k
  unfolding sweep_listed_pods
  spared_turn p ps k e = rw (e, sweep_listed_pods) refl

  orphan_turn :
      (p : ListedPod) (ps : List ListedPod) (k : Cluster)
      → is_spared anchored p.claim ≡ false
      → sweep_listed_pods anchored (p ∷ ps) k
        ≡ sweep_listed_pods anchored ps (delete_selected p k).1
  unfolding sweep_listed_pods
  orphan_turn p ps k e = rw (e, sweep_listed_pods) refl

  turn-Matches : (p q : ListedPod) (k l : Cluster) → IsGone p k l → Matches k q → Matches l q
  turn-Matches p q k l g m = elim (Bool-cases (str_eq p.name q.name)) [
    | inl e ↦ inl (g.gone_from q.name ∙ rw e refl)
    | inr e ↦ elim m [
      | inl n ↦ inl (g.gone_from q.name ∙ rw e n)
      | inr (s, h, j) ↦ inr (s, g.gone_from q.name ∙ rw e h, j)
    ]
  ]

  All-Matches :
      (p : ListedPod) (qs : List ListedPod) (k l : Cluster)
      → IsGone p k l
      → All (Matches k) qs
      → All (Matches l) qs
  All-Matches p [] k l g h = tt
  All-Matches p (q ∷ qs) k l g (h, hs) = (turn-Matches p q k l g h, All-Matches p qs k l g hs)

  absent_stays :
      (ps : List ListedPod) (k : Cluster) (name : String)
      → k.script ≡ []
      → All (Matches k) ps
      → k.pods name ≡ none
      → (sweep_listed_pods anchored ps k).pods name ≡ none
  unfolding sweep_listed_pods
  absent_stays [] k name c m h = h
  absent_stays (p ∷ ps) k name c (m, ms) h = elim (Bool-cases (is_spared anchored p.claim)) [
    | inl e ↦ left (spared_turn p ps k e) (absent_stays ps k name c ms h)
    | inr e ↦
        let g = delete_selected-IsGone p k c m in
        left (orphan_turn p ps k e) (
          absent_stays ps (delete_selected p k).1 name g.calm (All-Matches p ps k _ g ms)
            (g.gone_from name ∙ set_key_none (str_eq p.name name) h))
  ]
    where
      left : {l m : Cluster} → l ≡ m → m.pods name ≡ none → l.pods name ≡ none
      left e h = ap (λ (l : Cluster). l.pods name) e ∙ h

      set_key_none : {o : Option StoredPod} (b : Bool) → o ≡ none → (if b then none else o) ≡ none
      set_key_none true h = refl
      set_key_none false h = h

  -- A label that is not swept, or no Pod under the name.
  abbrev pub Cleared : Cluster → ListedPod → Type 0
  Cleared l p = (is_spared anchored p.claim ≡ true) ⊎ (l.pods p.name ≡ none)

  -- Where every call goes through, and each Pod that was listed is gone or still the one that its
  -- UID selects, no Pod is left under the name of a listed one whose label is set and not that of
  -- an anchor.
  pub sweep_listed_pods-clears :
      (ps : List ListedPod) (k : Cluster)
      → k.script ≡ []
      → All (Matches k) ps
      → All (Cleared (sweep_listed_pods anchored ps k)) ps
  sweep_listed_pods-clears [] k c m = tt
  sweep_listed_pods-clears (p ∷ ps) k c (m, ms) = elim (Bool-cases (is_spared anchored p.claim)) [
    | inl e ↦
        subst (λ l. Cleared l p × All (Cleared l) ps) (sym (spared_turn p ps k e))
          (inl e, sweep_listed_pods-clears ps k c ms)
    | inr e ↦
        let g = delete_selected-IsGone p k c m in
        let ms' = All-Matches p ps k (delete_selected p k).1 g ms in
        subst (λ l. Cleared l p × All (Cleared l) ps) (sym (orphan_turn p ps k e))
          (
            inr (
                absent_stays ps (delete_selected p k).1 p.name g.calm ms'
                  (g.gone_from p.name ∙ rw ((str_eq_iff p.name p.name).1 refl) refl)),
            sweep_listed_pods-clears ps (delete_selected p k).1 g.calm ms',
          )
  ]
