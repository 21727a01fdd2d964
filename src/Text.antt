-- ===== src/Text.antt =====
-- Python's order on texts: by code points, from the left.
use Prim.Native.Char.{code}
use sovereign_inference.Base.{String, Bool, true, false, ◌≡◌, refl, arith, eqb, ltb, if◌then◌else◌}

-- `s < t`
unfoldable pub text_less : String → String → Bool
text_less s String.[] = false
text_less String.[] (String.◌∷◌ d t) = true
text_less (String.◌∷◌ c s) (String.◌∷◌ d t) =
    let rest = text_less s t in
    if ltb (code c) (code d) then true else if eqb (code c) (code d) then rest else false

pub text_less_irrefl : (s : String) → text_less s s ≡ false
unfolding text_less
text_less_irrefl String.[] = refl
text_less_irrefl (String.◌∷◌ c s) = ground (arith, text_less_irrefl s)

-- What is not above the lower of two texts is not above the higher.
pub text_less_neg_trans :
    (k x y : String) → text_less k x ≡ true → text_less k y ≡ false → text_less x y ≡ false
unfolding text_less
text_less_neg_trans k String.[] y p q = cc
text_less_neg_trans k (String.◌∷◌ c x) String.[] p q = refl
text_less_neg_trans String.[] (String.◌∷◌ c x) (String.◌∷◌ d y) p q = cc
text_less_neg_trans (String.◌∷◌ b k) (String.◌∷◌ c x) (String.◌∷◌ d y) p q =
    ground (arith, text_less_neg_trans k x y)
