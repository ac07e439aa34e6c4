-- ===== src/Examples/Stamps.antt =====
-- Texts for timestamps: as many letters as whole seconds, and one more. It shows that what is
-- assumed of Go's time.Parse and time.Format can hold.
use node_rotation_controller.Base.{
  ℕ, zero, suc, ◌*◌, ◌/◌, ◌<◌, String, ◌≡◌, refl, ap, Option, none, some, pos, negsuc, Time,
  nanos_per_second, codes, length,
}
use node_rotation_controller.Annotations.{TimeText, truncate_second}

abbrev letters : ℕ → String
letters zero = ""
letters (suc n) = String.◌∷◌ "a" (letters n)

length-letters : (n : ℕ) → length (codes (letters n)) ≡ n
length-letters zero = refl
length-letters (suc n) = ap suc (length-letters n)

abbrev read_length : ℕ → Option Time
read_length zero = none
read_length (suc n) = some (pos (n * nanos_per_second))

abbrev read : String → Option Time
read s = read_length (length (codes s))

abbrev write : Time → String
write (pos n) = letters (suc (n / nanos_per_second))
write (negsuc n) = ""

pub read-write :
    (n : ℕ)
    → n < 315_537_897_600_000_000_000
    → read (write (pos n)) ≡ some (pos (truncate_second n))
read-write n h = ap read_length (length-letters (suc (n / nanos_per_second)))

instance abbrev pub stamps : TimeText
stamps = record {
  parse = read;
  format = write;
  parse-format = read-write;
  parse-empty = refl;
  show = λ d. write d;
}

-- The instant n seconds after the zero time, and its text.
abbrev pub at : ℕ → Time
at n = pos (n * nanos_per_second)

abbrev pub stamp : ℕ → String
stamp n = letters (suc n)
