-- ===== src/Policy.antt =====
-- packages/policy/src/sip_policy/policy.py: which providers may serve a request. Manifests have
-- passed their schema: a public key, a unit and a privacy mode are strings.
use sovereign_inference.Base.{
  String, Bool, true, false, not, ◌&&◌, Option, none, some, List, [], ◌∷◌, discard, is_empty,
  if◌then◌else◌,
}
use sovereign_inference.Json.{
  Json, Float, Dict, empty, get, item, as_dict, as_list, in_texts, text_in,
}
use sovereign_inference.Result.{Result, ok, raised, ◌>>=◌, type_error, value_error}
use sovereign_inference.Runtime.{Runtime}
use sovereign_inference.Protocol.Manifests.{tee_types, is_attested}

-- Python's `float`: `float(v)`, `0.0`, and `x > y`
pub record Numbers : Type 0 where
  pub float_of : Json → Result Float
  pub zero_float : Float
  pub above : Float → Float → Bool

pub record PolicyDecision : Type 0 where
  pub allowed : Bool  -- the field `ok`
  pub reason : String

pub record Policy : Type 0 where
  pub require_attestation : Bool
  pub accepted_tee_types : List String
  pub accepted_units : List String
  pub max_input_per_1m : Option Float
  pub max_output_per_1m : Option Float
  pub required_privacy_modes : List String
  pub allow_providers : List String
  pub deny_providers : List String
  pub min_reputation : Option Float

-- `except (TypeError, ValueError): return 0.0`
abbrev pub zero_on_no_price : Numbers → Result Float → Result Float
zero_on_no_price N (raised type_error) = ok N.zero_float
zero_on_no_price N (raised value_error) = ok N.zero_float
zero_on_no_price N (raised e) = raised e
zero_on_no_price N (ok x) = ok x

-- `_price`
unfoldable pub price : Numbers → Dict → String → Result Float
price N pricing key = elim (item pricing key) [
  | none ↦ ok N.zero_float
  | some v ↦ zero_on_no_price N (N.float_of v)
]

-- `limit is not None and _price(pricing, key) > limit`
abbrev pub over : Numbers → Dict → String → Option Float → Result Bool
over N pricing key none = ok false
over N pricing key (some limit) = do x ← price N pricing key; ok (N.above x limit)

-- `list(self.accepted_tee_types) or [t for t in TEE_TYPES if t != "none"]`
unfoldable pub accepted_tees : Policy → List String
accepted_tees p =
    if is_empty p.accepted_tee_types then discard "none" tee_types else p.accepted_tee_types

-- `raw_pricing if isinstance(raw_pricing, dict) else {}`
abbrev pub pricing_of : Dict → Dict
pricing_of manifest = elim (as_dict (get manifest "pricing")) [ none ↦ empty | some d ↦ d ]

-- `set(self.required_privacy_modes).issubset(advertised)`
unfoldable pub all_in : List String → List Json → Bool
all_in [] advertised = true
all_in (s ∷ ss) advertised = text_in s advertised && all_in ss advertised

abbrev pub modes_of : Dict → List Json
modes_of manifest = elim (as_list (get manifest "privacy_modes")) [ none ↦ [] | some ms ↦ ms ]

-- `score is None or score < minimum`, when a minimum is set
abbrev pub too_low : Numbers → Option Float → Option Float → Bool
too_low N none score = false
too_low N (some minimum) none = true
too_low N (some minimum) (some score) = N.above minimum score

abbrev pub rejected : String → PolicyDecision
rejected reason = record { allowed = false; reason = reason }

-- What follows the limits on the prices
unfoldable pub permits_mode : Numbers → Policy → Dict → Option Float → PolicyDecision
permits_mode N p manifest score =
    if not (is_empty p.required_privacy_modes)
      && not (all_in p.required_privacy_modes (modes_of manifest))
    then rejected "privacy_mode_unmet"
    else if too_low N p.min_reputation score
    then rejected "reputation_too_low"
    else (record { allowed = true; reason = "" })

-- The limit on the output price, and what follows
unfoldable pub permits_output :
    Numbers → Policy → Dict → Option Float → Bool → Result PolicyDecision
unfolding permits_mode
permits_output N p manifest score true = ok (rejected "input_price_too_high")
permits_output N p manifest score false = do
  output_over ← over N (pricing_of manifest) "output_per_1m" p.max_output_per_1m
  ok (if output_over then rejected "output_price_too_high" else permits_mode N p manifest score)

-- The limits on the prices, and what follows
unfoldable pub permits_price : Numbers → Policy → Dict → Option Float → Result PolicyDecision
unfolding permits_output
permits_price N p manifest score = do
  input_over ← over N (pricing_of manifest) "input_per_1m" p.max_input_per_1m
  permits_output N p manifest score input_over

unfoldable pub permits : Runtime → Numbers → Policy → Dict → Option Float → Result PolicyDecision
unfolding permits_price
permits R N p manifest score =
    if in_texts (get manifest "provider_pubkey") p.deny_providers
    then ok (rejected "provider_denylisted")
    else if not (is_empty p.allow_providers)
        && not (in_texts (get manifest "provider_pubkey") p.allow_providers)
    then ok (rejected "not_allowlisted")
    else if p.require_attestation && not (is_attested R manifest (accepted_tees p) none)
    then ok (rejected "attestation_required")
    else if not (is_empty p.accepted_units)
        && not (in_texts (get (pricing_of manifest) "unit") p.accepted_units)
    then ok (rejected "unit_not_accepted")
    else permits_price N p manifest score

-- `get_score(str(manifest.get("provider_pubkey"))) if get_score is not None else None`
abbrev pub reputation_of : Runtime → Option (String → Option Float) → Dict → Option Float
reputation_of R none manifest = none
reputation_of R (some get_score) manifest = get_score (R.text_of (get manifest "provider_pubkey"))

-- `filter_entries`
unfoldable pub filter_entries {ℓ} :
    {A : Type ℓ}
    → Runtime
    → Numbers
    → Policy
    → (A → Dict)
    → Option (String → Option Float)
    → List A
    → Result (List A)
filter_entries R N p manifest_of get_score [] = ok []
filter_entries R N p manifest_of get_score (e ∷ es) = do
  decision ← permits R N p (manifest_of e) (reputation_of R get_score (manifest_of e))
  rest ← filter_entries R N p manifest_of get_score es
  ok (if decision.allowed then e ∷ rest else rest)
