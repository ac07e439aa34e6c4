-- ===== src/Policy/Clock.antt =====
-- internal/policy/policy.go, ParseWeekday and ParseHHMM, on the code points of a text.
pub mod Times
use node_rotation_controller.Base.{
  ℕ, ◌+◌, ◌*◌, String, Bool, ◌&&◌, ◌||◌, Option, none, some, List, [], ◌∷◌, ℤ, pos, pos_part, leb,
  ltb_ℤ, ◌==◌, codes, atoi_codes, length, if◌then◌else◌,
}
use mathlib.Core.List.{reverse}

-- unicode.IsSpace
abbrev is_space : ℕ → Bool
is_space c =
    (leb 9 c && leb c 13)
    || (c == 32)
    || (c == 133)
    || (c == 160)
    || (c == 5760)
    || (leb 8192 c && leb c 8202)
    || (c == 8232)
    || (c == 8233)
    || (c == 8239)
    || (c == 8287)
    || (c == 12288)

abbrev drop_spaces : List ℕ → List ℕ
drop_spaces [] = []
drop_spaces (c ∷ cs) = let rest = drop_spaces cs in if is_space c then rest else c ∷ cs

-- strings.TrimSpace
abbrev trim_space : List ℕ → List ℕ
trim_space s = reverse (drop_spaces (reverse (drop_spaces s)))

-- unicode.ToLower as far as its results are ASCII: U+0130 and U+212A are written to i and k.
abbrev to_lower : ℕ → ℕ
to_lower c =
    if leb b'A' c && leb c b'Z'
    then c + 32
    else if c == 304
    then b'i'
    else if c == 8490
    then b'k'
    else c

-- The three letters of a weekday, as far as they are known; Sunday is 0.
abbrev weekday_of : ℕ → ℕ → ℕ → Option ℕ
weekday_of a b c =
    if (a == b's') && (b == b'u') && (c == b'n')
    then some 0
    else if (a == b'm') && (b == b'o') && (c == b'n')
    then some 1
    else if (a == b't') && (b == b'u') && (c == b'e')
    then some 2
    else if (a == b'w') && (b == b'e') && (c == b'd')
    then some 3
    else if (a == b't') && (b == b'h') && (c == b'u')
    then some 4
    else if (a == b'f') && (b == b'r') && (c == b'i')
    then some 5
    else if (a == b's') && (b == b'a') && (c == b't')
    then some 6
    else none

abbrev weekday_codes : List ℕ → Option ℕ
weekday_codes (a ∷ b ∷ c ∷ []) = weekday_of (to_lower a) (to_lower b) (to_lower c)
weekday_codes _ = none

unfoldable pub parse_weekday : String → Option ℕ
parse_weekday s = weekday_codes (trim_space (codes s))

module _ (sep : ℕ) where
  abbrev push_code : ℕ → List (List ℕ) → List (List ℕ)
  push_code c [] = (c ∷ []) ∷ []
  push_code c (part ∷ parts) = (c ∷ part) ∷ parts

  -- strings.Split by one code point: n separators make n + 1 parts.
  abbrev pub split : List ℕ → List (List ℕ)
  split [] = [] ∷ []
  split (c ∷ cs) = let rest = split cs in if c == sep then [] ∷ rest else push_code c rest

abbrev pub in_range : ℕ → Option ℤ → Option ℕ
in_range top none = none
in_range top (some n) = if ltb_ℤ n (pos 0) || ltb_ℤ (pos top) n then none else some (pos_part n)

abbrev pub minutes_of : Option ℕ → Option ℕ → Option ℕ
minutes_of (some h) (some m) = some (h * 60 + m)
minutes_of _ _ = none

abbrev pub two_parts : List (List ℕ) → Option ℕ
two_parts (h ∷ m ∷ []) =
    if (length h == 2) && (length m == 2)
    then minutes_of (in_range 23 (atoi_codes h)) (in_range 59 (atoi_codes m))
    else none
two_parts _ = none

-- ParseHHMM; a part of two bytes that is not two code points is no number either way.
unfoldable pub parse_hhmm : String → Option ℕ
parse_hhmm s = two_parts (split b':' (codes s))
