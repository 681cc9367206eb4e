-- ===== src/Texts.antt =====
-- What the routes use of Python's texts: `strip`, and a prefix that is taken off.
use factn_assistant_service.Base.{
  ◌||◌, ◌==◌, ◌&&◌, none, leb, some, false, [], ◌∷◌, if◌then◌else◌, Option, List, ℕ, String, Bool,
}
use Prim.Native.Char.{Char, code}

-- Whether a number is in one of the ranges.
abbrev in_ranges : ℕ → List (ℕ × ℕ) → Bool
in_ranges n [] = false
in_ranges n (r ∷ rs) = (leb r.0 n && leb n r.1) || in_ranges n rs

-- The characters of Python's `isspace`
unfoldable pub is_space : Char → Bool
is_space c = in_ranges (code c) (
    (9, 13)
    ∷ (28, 32)
    ∷ (133, 133)
    ∷ (160, 160)
    ∷ (5_760, 5_760)
    ∷ (8_192, 8_202)
    ∷ (8_232, 8_233)
    ∷ (8_239, 8_239)
    ∷ (8_287, 8_287)
    ∷ (12_288, 12_288)
    ∷ [])

unfoldable pub strip_left : String → String
strip_left String.[] = String.[]
strip_left (String.◌∷◌ c s) = let rest = strip_left s in if is_space c then rest else String.◌∷◌ c s

-- A character before a text that is stripped on the right
unfoldable pub cons_stripped : Char → String → String
cons_stripped c String.[] = if is_space c then String.[] else String.◌∷◌ c String.[]
cons_stripped c (String.◌∷◌ d s) = String.◌∷◌ c (String.◌∷◌ d s)

unfoldable pub strip_right : String → String
strip_right String.[] = String.[]
strip_right (String.◌∷◌ c s) = cons_stripped c (strip_right s)

unfoldable pub strip : String → String
strip s = strip_right (strip_left s)

-- What follows the prefix, where the text starts with it
unfoldable pub after_prefix : String → String → Option String
after_prefix String.[] s = some s
after_prefix (String.◌∷◌ c p) String.[] = none
after_prefix (String.◌∷◌ c p) (String.◌∷◌ d s) =
    let rest = after_prefix p s in if code c == code d then rest else none
