-- ===== src/Surge/Name.antt =====
-- internal/surge/name.go: the name of a claim's placeholder, as the bytes of Go's texts. The
-- first 16 digits of a name's SHA-256 are a parameter.
pub mod Bound
use node_rotation_controller.Base.{
  ℕ, zero, suc, ◌+◌, ◌-◌, leb, List, [], ◌∷◌, ◌++◌, codes, length, if◌then◌else◌,
}

abbrev pub Bytes : Type 0
Bytes = List ℕ

abbrev pub placeholder_name_prefix : Bytes
placeholder_name_prefix = codes "noderotation-surge-"

abbrev pub pod_name_max : ℕ
pod_name_max = 253

abbrev pub name_hash_len : ℕ
name_hash_len = 16

-- A slice from the start.
abbrev pub take : ℕ → Bytes → Bytes
take zero b = []
take (suc n) [] = []
take (suc n) (c ∷ b) = c ∷ take n b

abbrev pub keep : ℕ
keep = pod_name_max - length placeholder_name_prefix - 1 - name_hash_len

-- PlaceholderName
unfoldable pub placeholder_name : (Bytes → Bytes) → Bytes → Bytes
placeholder_name hash claim =
    let full = placeholder_name_prefix ++ claim in
    if leb (length full) pod_name_max
    then full
    else placeholder_name_prefix ++ (take keep claim ++ (codes "-" ++ hash claim))
