-- ===== src/Json.antt =====
-- The JSON values that the program handles as Python objects, and Python's `dict` over them.
pub mod Laws
use sovereign_inference.Base.{
  ℕ, String, ◌==◌, if◌then◌else◌, Bool, true, false, Option, none, some, List, [], ◌∷◌,
}
use sovereign_inference.Base.{ℤ}

-- A float is its 64-bit pattern. Its arithmetic is Python's, a parameter (`Runtime`).
pub record Float : Type 0 where
  pub bits : ℕ

mutual
  pub data Json : Type 0 where
    null : Json
    bool : Bool → Json
    int : ℤ → Json
    float : Float → Json
    string : String → Json
    array : Array → Json
    object : Dict → Json

  pub data Array : Type 0 where
    nil : Array
    cons : Json → Array → Array

  pub data Dict : Type 0 where
    empty : Dict
    entry : String → Json → Dict → Dict

-- The elements of an array, and an array with given elements.
unfoldable pub elements : Array → List Json
elements nil = []
elements (cons x xs) = x ∷ elements xs

unfoldable pub array_of : List Json → Array
array_of [] = nil
array_of (x ∷ xs) = cons x (array_of xs)

-- A `dict` display: its keys are distinct.
unfoldable pub dict_of : List (String × Json) → Dict
dict_of [] = empty
dict_of ((k, v) ∷ rest) = entry k v (dict_of rest)

-- `d.get(k, default)`
unfoldable pub get_or : Dict → String → Json → Json
get_or empty k default = default
get_or (entry j v d) k default = if j == k then v else get_or d k default

-- `d.get(k)`: a missing key and a null value both give None.
abbrev pub get : Dict → String → Json
get d k = get_or d k null

-- `d[k]`, which raises KeyError on a missing key
unfoldable pub item : Dict → String → Option Json
item empty k = none
item (entry j v d) k = if j == k then some v else item d k

-- `d[k] = v`: an old key keeps its place, a new one goes to the end
unfoldable pub set : Dict → String → Json → Dict
set empty k v = entry k v empty
set (entry j w d) k v = if j == k then entry k v d else entry j w (set d k v)

-- `d[k] = v` for an optional value
unfoldable pub set_some : Dict → String → Option Json → Dict
unfolding set
set_some d k none = d
set_some d k (some v) = set d k v

-- `{j: v for j, v in d.items() if j != k}`
unfoldable pub without : Dict → String → Dict
without empty k = empty
without (entry j v d) k = let rest = without d k in if j == k then rest else entry j v rest

-- `isinstance(v, str)`, `isinstance(v, dict)` and `isinstance(v, list)`, with what they find
abbrev pub as_string : Json → Option String
as_string (string s) = some s
as_string _ = none

abbrev pub as_dict : Json → Option Dict
as_dict (object d) = some d
as_dict _ = none

abbrev pub as_list : Json → Option (List Json)
as_list (array xs) = some (elements xs)
as_list _ = none

-- `v == s` for a string `s`
abbrev pub is_text : Json → String → Bool
is_text (string t) s = t == s
is_text _ s = false

-- `v in [...]` for a list of strings
unfoldable pub in_texts : Json → List String → Bool
in_texts v [] = false
in_texts v (s ∷ ss) = if is_text v s then true else in_texts v ss

-- `s in [...]` for a list of JSON values
unfoldable pub text_in : String → List Json → Bool
text_in s [] = false
text_in s (v ∷ vs) = if is_text v s then true else text_in s vs
