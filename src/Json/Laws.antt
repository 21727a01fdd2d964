-- ===== src/Json/Laws.antt =====
-- The laws of `dict` that the proofs use.
use sovereign_inference.Base.{
  String, ◌==◌, if◌then◌else◌, true, some, List, [], ◌∷◌, ◌≡◌, refl, arith, eq_iff, contains,
}
use sovereign_inference.Json.{
  Json, null, bool, int, float, array, object, as_dict, as_string, is_text, string, Dict, empty,
  entry, elements, array_of, get_or, get, item, set, without, in_texts,
}

pub elements-array_of : (xs : List Json) → elements (array_of xs) ≡ xs
unfolding elements array_of
elements-array_of [] = refl
elements-array_of (x ∷ xs) = ground (arith, elements-array_of xs)

pub get_or-set :
    (d : Dict) (k j : String) (v default : Json)
    → get_or (set d k v) j default ≡ (if k == j then v else get_or d j default)
unfolding get_or set
get_or-set empty k j v default = refl
get_or-set (entry i w d) k j v default =
    ground (arith, eq_iff k j, eq_iff i k, eq_iff i j, get_or-set d k j v default)

pub get_or-without :
    (d : Dict) (k j : String) (default : Json)
    → get_or (without d k) j default ≡ (if k == j then default else get_or d j default)
unfolding get_or without
get_or-without empty k j default = ground arith
get_or-without (entry i w d) k j default =
    ground (arith, eq_iff k j, eq_iff i k, eq_iff i j, get_or-without d k j default)

-- Removing a key twice is removing it once.
pub without-without : (d : Dict) (k : String) → without (without d k) k ≡ without d k
unfolding without
without-without empty k = refl
without-without (entry j v d) k = ground (arith, without-without d k)

-- Setting a key and removing it again leaves the rest.
pub without-set : (d : Dict) (k : String) (v : Json) → without (set d k v) k ≡ without d k
unfolding without set
without-set empty k v = ground (arith, eq_iff k k)
without-set (entry j w d) k v = ground (arith, eq_iff j k, eq_iff k k, without-set d k v)

pub item-get : (d : Dict) (k s : String) → get d k ≡ string s → item d k ≡ some (string s)
unfolding get_or item
item-get empty k s h = cc
item-get (entry j v d) k s h = ground (arith, item-get d k s)

pub in_texts-string : (s : String) (ss : List String) → in_texts (string s) ss ≡ contains ss s
unfolding in_texts contains
in_texts-string s [] = refl
in_texts-string s (t ∷ ss) = ground (arith, eq_iff s t, eq_iff t s, in_texts-string s ss)

-- What the tests of types find
pub as_dict-object : (j : Json) (d : Dict) → as_dict j ≡ some d → j ≡ object d
as_dict-object (object e) d h = ground arith
as_dict-object null d h = cc
as_dict-object (bool b) d h = cc
as_dict-object (int z) d h = cc
as_dict-object (float x) d h = cc
as_dict-object (string s) d h = cc
as_dict-object (array xs) d h = cc

pub as_string-string : (j : Json) (s : String) → as_string j ≡ some s → j ≡ string s
as_string-string (string t) s h = ground arith
as_string-string null s h = cc
as_string-string (bool b) s h = cc
as_string-string (int z) s h = cc
as_string-string (float x) s h = cc
as_string-string (object d) s h = cc
as_string-string (array xs) s h = cc

pub is_text-string : (j : Json) (s : String) → is_text j s ≡ true → j ≡ string s
is_text-string (string t) s h = ground (arith, eq_iff t s)
is_text-string null s h = cc
is_text-string (bool b) s h = cc
is_text-string (int z) s h = cc
is_text-string (float x) s h = cc
is_text-string (object d) s h = cc
is_text-string (array xs) s h = cc
