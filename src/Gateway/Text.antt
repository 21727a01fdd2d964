-- ===== src/Gateway/Text.antt =====
-- The string methods that app.py uses, over the characters of a text.
use Prim.Native.Char.{Char, code}
use sovereign_inference.Base.{ℕ, suc, ◌≤◌, String, Bool, true, false, arith, eqb, if◌then◌else◌}

-- `len(s)`
unfoldable pub char_count : String → ℕ
char_count String.[] = 0
char_count (String.◌∷◌ c s) = suc (char_count s)

-- `len(s.split())`, where `is_space` says which characters Python takes for white space, and the
-- flag says whether a word is being read.
unfoldable pub word_count_from : (Char → Bool) → Bool → String → ℕ
word_count_from is_space inside String.[] = 0
word_count_from is_space inside (String.◌∷◌ c s) =
    let rest = word_count_from is_space (if is_space c then false else true) s in
    if is_space c then rest else if inside then rest else suc rest

unfoldable pub word_count : (Char → Bool) → String → ℕ
unfolding word_count_from
word_count is_space s = word_count_from is_space false s

-- `s.partition(sep)[0]` and `s.partition(sep)[2]` for a separator of one character
unfoldable pub before_sep : ℕ → String → String
before_sep sep String.[] = String.[]
before_sep sep (String.◌∷◌ c s) =
    let rest = before_sep sep s in if eqb (code c) sep then String.[] else String.◌∷◌ c rest

unfoldable pub after_sep : ℕ → String → String
after_sep sep String.[] = String.[]
after_sep sep (String.◌∷◌ c s) = let rest = after_sep sep s in if eqb (code c) sep then s else rest

-- `s.rstrip(c)` for one character
unfoldable pub strip_end : ℕ → String → String
strip_end sep String.[] = String.[]
strip_end sep (String.◌∷◌ c s) = elim (strip_end sep s) [
  | String.[] ↦ if eqb (code c) sep then String.[] else String.◌∷◌ c String.[]
  | String.◌∷◌ d rest ↦ String.◌∷◌ c (String.◌∷◌ d rest)
]

word_count_from-le :
    (is_space : Char → Bool) (inside : Bool) (s : String)
    → word_count_from is_space inside s ≤ char_count s
unfolding word_count_from char_count
word_count_from-le is_space inside String.[] = omega arith
word_count_from-le is_space inside (String.◌∷◌ c s) =
    ground (arith, word_count_from-le is_space (if is_space c then false else true) s)

-- A text has no more words than characters.
pub word_count-le : (is_space : Char → Bool) (s : String) → word_count is_space s ≤ char_count s
unfolding word_count
word_count-le is_space s = word_count_from-le is_space false s
