-- ===== src/Gateway/Pricing.antt =====
-- `_format_amount` and `_price_amount` of app.py. Float arithmetic is Python's, a parameter.
use sovereign_inference.Base.{String, ◌==◌, if◌then◌else◌, ℤ}
use sovereign_inference.Json.{Float}
use sovereign_inference.Result.{Result, ok, ◌>>=◌}
use sovereign_inference.Gateway.Text.{strip_end}

pub record Floats : Type 0 where
  -- `n / 1e6`, `float(s)`, `x * y` and `x + y`; the first two raise on an integer that is too
  -- large and on a string that is no number.
  pub millions : ℤ → Result Float
  pub parse : String → Result Float
  pub times : Float → Float → Float
  pub plus : Float → Float → Float
  -- `f"{round(x, 6):.6f}"`
  pub six_places : Float → String

unfoldable pub format_amount : Floats → Float → String
unfolding strip_end
format_amount F value =
    let text = strip_end b'.' (strip_end b'0' (F.six_places value)) in
    if text == "" then "0" else text

unfoldable pub price_amount : Floats → String → String → ℤ → ℤ → Result String
unfolding format_amount
price_amount F input_per_1m output_per_1m input_tokens output_tokens = do
  input ← F.millions input_tokens
  input_price ← F.parse input_per_1m
  output ← F.millions output_tokens
  output_price ← F.parse output_per_1m
  ok (format_amount F (F.plus (F.times input input_price) (F.times output output_price)))
