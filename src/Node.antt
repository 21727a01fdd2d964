-- ===== src/Node.antt =====
-- packages/sin-node/src/sin_node: models.py and memory.py. The names of machines and models are
-- left out.
pub mod Recommend
use sovereign_inference.Base.{
  ℕ, ◌*◌, String, Bool, true, false, ◌||◌, Option, none, some, List, [], ◌∷◌, eqb, if◌then◌else◌,
}
use sovereign_inference.Json.{Float}
use sovereign_inference.Router.Scoring.{Arithmetic}

-- Python's floats with integers: `float(n)`, `m / n`, `round(x, digits)`, and `str.lower`
pub record NodeNumbers : Type 0 where
  pub F : Arithmetic
  pub of_int : ℕ → Float
  pub ratio : ℕ → ℕ → Float
  pub round : ℕ → Float → Float
  pub lower : String → String

pub data Accelerator : Type 0 where
  cuda : Accelerator
  rocm : Accelerator
  metal : Accelerator
  vulkan : Accelerator
  cpu : Accelerator

-- `HardwareProfile`, as far as its memory is concerned; a GPU is its total memory.
pub record HardwareProfile : Type 0 where
  pub ram_total_gb : Float
  pub ram_available_gb : Float
  pub gpus : List (Option Float)
  pub accelerator : Accelerator
  pub unified_memory : Bool

-- `x or 0.0`
abbrev pub or_zero : NodeNumbers → Option Float → Float
or_zero N none = N.F.literal "0.0"
or_zero N (some x) = if N.F.is_zero x then N.F.literal "0.0" else x

-- `max(gpus, key=...)`: the first of those with the most memory
unfoldable pub most_memory : NodeNumbers → Option Float → List (Option Float) → Option Float
most_memory N best [] = best
most_memory N best (g ∷ gs) =
    most_memory N (if N.F.less (or_zero N best) (or_zero N g) then g else best) gs

-- `primary_gpu`
unfoldable pub primary_gpu : NodeNumbers → HardwareProfile → Option (Option Float)
unfolding most_memory
primary_gpu N p = elim p.gpus [ [] ↦ none | g ∷ gs ↦ some (most_memory N g gs) ]

abbrev pub is_discrete : Accelerator → Bool
is_discrete cuda = true
is_discrete rocm = true
is_discrete _ = false

-- `usable_memory_gb`
unfoldable pub usable_memory_gb : NodeNumbers → HardwareProfile → Float
unfolding primary_gpu
usable_memory_gb N p =
    let free = N.round 1 p.ram_available_gb in
    if p.unified_memory
    then N.round 1 (N.F.times p.ram_total_gb (N.F.literal "0.7"))
    else if is_discrete p.accelerator
    then elim (primary_gpu N p) [
      | none ↦ free
      | some none ↦ free
      | some (some vram) ↦ if N.F.is_zero vram then free else vram
    ]
    else free

pub record MemoryEstimate : Type 0 where
  pub weights_gb : Float
  pub kv_cache_gb : Float
  pub overhead_gb : Float
  pub total_gb : Float

pub record QuantOption : Type 0 where
  pub name : String
  pub bits : Float

pub record CatalogModel : Type 0 where
  pub model_id : String
  pub params_b : Float
  pub quants : List QuantOption
  pub tasks : List String
  pub license : String
  pub recommended_runtimes : List String
  pub default_context : ℕ
  pub n_layers : Option ℕ
  pub hidden_size : Option ℕ
  pub n_heads : Option ℕ
  pub n_kv_heads : Option ℕ
  pub commercial_use : Bool
  pub quality_score : Float

-- `m and n` for two optional integers: both are there and not 0.
abbrev pub both_known : Option ℕ → Option ℕ → Option (ℕ × ℕ)
both_known (some m) (some n) = if eqb m 0 || eqb n 0 then none else some (m, n)
both_known _ _ = none

-- The size of the KV cache in `estimate_memory`
unfoldable pub kv_cache_gb_of : NodeNumbers → CatalogModel → ℕ → Float
kv_cache_gb_of N m context = elim (both_known m.n_layers m.hidden_size) [
  | none ↦ N.F.times (N.F.times m.params_b (N.ratio context 4096)) (N.F.literal "0.25")
  | some (n_layers, hidden_size) ↦
      let gqa : Float = elim (both_known m.n_kv_heads m.n_heads) [
        | none ↦ N.F.literal "1.0"
        | some (n_kv_heads, n_heads) ↦ N.ratio n_kv_heads n_heads
      ] in
      N.F.divide
        (N.F.times
          (N.F.times (N.F.times (N.of_int (2 * n_layers * hidden_size)) gqa) (N.of_int context))
          (N.of_int 2))
        (N.F.literal "1e9")
]

-- `estimate_memory`, as `_estimate_for` calls it
unfoldable pub estimate_for : NodeNumbers → CatalogModel → QuantOption → ℕ → MemoryEstimate
unfolding kv_cache_gb_of
estimate_for N m q context =
    let weights_gb = N.F.divide (N.F.times m.params_b q.bits) (N.F.literal "8.0") in
    let kv_cache_gb = kv_cache_gb_of N m context in
    let overhead_gb = N.F.literal "0.7" in
    record {
      weights_gb = weights_gb;
      kv_cache_gb = kv_cache_gb;
      overhead_gb = overhead_gb;
      total_gb = N.F.plus (N.F.plus weights_gb kv_cache_gb) overhead_gb;
    }
