-- ===== src/Surge/Name/Bound.antt =====
-- The length of a placeholder's name.
use node_rotation_controller.Base.{
  ℕ, zero, suc, ◌≤◌, ◌≡◌, inl, inr, Bool-cases, leb, leb→le, [], ◌∷◌, ◌++◌, codes, length,
  length-append, arith,
}
use node_rotation_controller.Surge.Name.{
  Bytes, placeholder_name_prefix, pod_name_max, name_hash_len, take, keep, placeholder_name,
}

take_bound : (n : ℕ) (b : Bytes) → length (take n b) ≤ n
take_bound zero b = omega arith
take_bound (suc n) [] = omega arith
take_bound (suc n) (c ∷ b) = omega (arith, take_bound n b)

short_form :
    (claim h : Bytes)
    → length h ≡ name_hash_len
    → length (placeholder_name_prefix ++ (take keep claim ++ (codes "-" ++ h))) ≤ pod_name_max
short_form claim h e = omega (
  arith,
  length-append placeholder_name_prefix (take keep claim ++ (codes "-" ++ h)),
  length-append (take keep claim) (codes "-" ++ h),
  take_bound keep claim,
  e,
)

-- The name of a placeholder is one that a Pod can have: it has at most 253 bytes, whatever the
-- name of the claim, where the hash of the name has 16.
pub placeholder_name_bound :
    (hash : Bytes → Bytes) (claim : Bytes)
    → length (hash claim) ≡ name_hash_len
    → length (placeholder_name hash claim) ≤ pod_name_max
unfolding placeholder_name
placeholder_name_bound hash claim e =
    elim (Bool-cases (leb (length (placeholder_name_prefix ++ claim)) pod_name_max)) [
      | inl f ↦ rw f (leb→le _ _ f)
      | inr f ↦ rw f (short_form claim (hash claim) e)
    ]
