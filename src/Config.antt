-- ===== src/Config.antt =====
-- include/scicompute_attention/attention_config.hpp and src/api/api_validate.cpp: the configuration of a
-- call and its checks. Texts are left out, and the stream is.
pub mod Laws
pub mod Accepted
mod Examples
use sci_compute_attention.Base.{
  ℕ, suc, zero, ◌-◌, ◌*◌, ◌%◌, ◌+◌, max, Bool, true, false, not, ◌&&◌, ◌||◌, Option, none, some,
  List, [], ◌∷◌, ℤ, pos, negsuc, is_neg, ltb, leb, ◌==◌, if◌then◌else◌, get_or,
}
use sci_compute_attention.Types.{
  AttnLayout, bhsd, bshd, BackendKind, naive, tiled, flash, decode, paged, AttentionShape,
  supported_head_dim_index,
}
use sci_compute_attention.Status.{
  Result, Status, ok, err, attn, shape_mismatch, unsupported_head_dim, unsupported_layout,
  unsupported_feature,
}

-- A float by its class: a number is a sign, a mantissa and an exponent of 2, and no comparison with NaN holds.
pub data Float : Type 0 where
  nan : Float
  inf : (negative : Bool) → Float
  finite : (negative : Bool) → (mantissa : ℕ) → (exponent : ℤ) → Float

-- `x > 0.0f`
abbrev pub is_positive : Float → Bool
is_positive nan = false
is_positive (inf negative) = not negative
is_positive (finite negative mantissa exponent) = not negative && not (mantissa == 0)

-- `x < 0.0f`
abbrev pub is_negative : Float → Bool
is_negative nan = false
is_negative (inf negative) = negative
is_negative (finite negative mantissa exponent) = negative && not (mantissa == 0)

pub record AttentionConfig : Type 0 where
  pub backend : BackendKind
  pub layout : AttnLayout
  pub causal : Bool
  pub return_lse : Bool
  pub scale : Float
  pub softcap : Float
  pub sliding_window : ℤ
  pub num_splits : ℤ
  pub workspace_limit_bytes : ℕ
  pub allow_fallback : Bool
  pub cu_seqlens_q : Option (List ℤ)
  pub cu_seqlens_kv : Option (List ℤ)

unfoldable pub is_reference_only_backend : BackendKind → Bool
is_reference_only_backend naive = true
is_reference_only_backend tiled = true
is_reference_only_backend decode = true
is_reference_only_backend paged = true
is_reference_only_backend _ = false

unfoldable pub layout_supported : AttnLayout → Bool
layout_supported bhsd = true
layout_supported bshd = true

-- `x > 0` for an int64_t.
abbrev pub above_zero : ℤ → Bool
above_zero (pos zero) = false
above_zero (pos (suc n)) = true
above_zero (negsuc n) = false

abbrev pub is_null {ℓ} : {A : Type ℓ} → Option A → Bool
is_null none = true
is_null (some a) = false

-- The square root of the default scale is computed by the C library.
unfoldable pub effective_scale : (ℕ → Float) → AttentionConfig → AttentionShape → Float
effective_scale inverse_sqrt cfg shape =
    if is_positive cfg.scale
    then cfg.scale
    else if shape.head_dim == 0
    then finite false 0 (pos 0)
    else inverse_sqrt shape.head_dim

unfoldable pub validate : AttentionConfig → AttentionShape → Status
unfolding layout_supported is_reference_only_backend
validate cfg shape =
    if not (layout_supported cfg.layout)
    then err (attn unsupported_layout)
    else if ltb shape.batch 1
    then err (attn shape_mismatch)
    else if ltb shape.seq_q 1
    then err (attn shape_mismatch)
    else if ltb shape.seq_kv 1
    then err (attn shape_mismatch)
    else if ltb shape.num_heads 1
    then err (attn shape_mismatch)
    else if ltb shape.num_kv_heads 1
    then err (attn shape_mismatch)
    else if is_neg (supported_head_dim_index shape.head_dim)
    then err (attn unsupported_head_dim)
    else if not (shape.num_heads % shape.num_kv_heads == 0)
    then err (attn shape_mismatch)
    else if cfg.causal && ltb shape.seq_kv shape.seq_q
    then err (attn shape_mismatch)
    else if ltb shape.num_heads shape.num_kv_heads
    then err (attn shape_mismatch)
    else if above_zero cfg.sliding_window
    then err (attn unsupported_feature)
    else if is_negative cfg.softcap
    then err (attn shape_mismatch)
    else if is_positive cfg.softcap && is_reference_only_backend cfg.backend
    then err (attn unsupported_feature)
    else if is_negative cfg.scale
    then err (attn shape_mismatch)
    else if is_neg cfg.num_splits
    then err (attn shape_mismatch)
    else if not (is_null cfg.cu_seqlens_q) && is_null cfg.cu_seqlens_kv
    then err (attn shape_mismatch)
    else ok tt

pub record TileConfig : Type 0 where
  pub block_m : ℕ
  pub block_n : ℕ
  pub warps : ℕ
  pub stages : ℕ
  pub use_tma : Bool

abbrev pub no_tile : TileConfig
no_tile = record { block_m = 0; block_n = 0; warps = 0; stages = 0; use_tma = false }

pub is_empty : TileConfig → Bool
is_empty tile = tile.block_m == 0 || (tile.block_n == 0 || tile.warps == 0)

-- `kFlashTiles` of src/backends/flash/flash_tile_config.hpp.
pub record FlashTile : Type 0 where
  pub block_m : ℕ
  pub block_n : ℕ
  pub warps : ℕ
  pub stages : ℕ
  pub splits_d : ℕ

abbrev flash_tile : ℕ → ℕ → ℕ → ℕ → ℕ → FlashTile
flash_tile m n w s d = record { block_m = m; block_n = n; warps = w; stages = s; splits_d = d }

abbrev pub flash_tiles : List (ℕ × FlashTile)
flash_tiles =
    (32, flash_tile 64 64 4 2 1)
    ∷ (64, flash_tile 64 64 4 2 1)
    ∷ (96, flash_tile 64 64 4 2 1)
    ∷ (128, flash_tile 64 64 4 2 1)
    ∷ (160, flash_tile 64 32 8 2 2)
    ∷ (192, flash_tile 64 32 8 2 2)
    ∷ (256, flash_tile 32 32 4 2 2)
    ∷ []

find_tile_from : List (ℕ × FlashTile) → ℕ → Option FlashTile
find_tile_from [] head_dim = none
find_tile_from ((d, tile) ∷ entries) head_dim =
    if d == head_dim then some tile else find_tile_from entries head_dim

unfoldable pub find_flash_tile : ℕ → Option FlashTile
unfolding find_tile_from
find_flash_tile head_dim = find_tile_from flash_tiles head_dim

pub recommend_tile : AttentionConfig → AttentionShape → TileConfig
recommend_tile cfg shape = elim (find_flash_tile shape.head_dim) [
  | none ↦ no_tile
  | some entry ↦ record {
    block_m = entry.block_m;
    block_n = entry.block_n;
    warps = entry.warps;
    stages = entry.stages;
    use_tma = false;
  }
]

-- `hi <= lo` for int32_t.
abbrev pub at_most : ℤ → ℤ → Bool
at_most (pos hi) (pos lo) = leb hi lo
at_most (pos hi) (negsuc lo) = false
at_most (negsuc hi) (pos lo) = true
at_most (negsuc hi) (negsuc lo) = leb lo hi

-- `hi - lo` where `hi` is the greater one.
abbrev pub gap : ℤ → ℤ → ℕ
gap (pos hi) (pos lo) = hi - lo
gap (pos hi) (negsuc lo) = hi + lo + 1
gap (negsuc hi) (pos lo) = 0
gap (negsuc hi) (negsuc lo) = lo - hi

-- The loop from index `i` on, with `n` turns left.
pub varlen_from : List ℤ → ℕ → ℕ → ℕ → Result ℕ
varlen_from cu_seqlens i zero max_seq = ok max_seq
varlen_from cu_seqlens i (suc n) max_seq =
    let lo = get_or cu_seqlens i (pos 0) in
    let hi = get_or cu_seqlens (suc i) (pos 0) in
    let rest = varlen_from cu_seqlens (suc i) n (max max_seq (gap hi lo)) in
    if at_most hi lo then err (attn shape_mismatch) else rest

abbrev pub starts_at_zero : ℤ → Bool
starts_at_zero (pos n) = n == 0
starts_at_zero (negsuc n) = false

-- The offsets are `batch + 1` numbers; the result is what the code stores in `max_seq_out`.
pub validate_varlen_host : Option (List ℤ) → ℕ → Result ℕ
unfolding varlen_from
validate_varlen_host none batch = err (attn shape_mismatch)
validate_varlen_host (some cu_seqlens) batch =
    if ltb batch 1
    then err (attn shape_mismatch)
    else if not (starts_at_zero (get_or cu_seqlens 0 (pos 0)))
    then err (attn shape_mismatch)
    else varlen_from cu_seqlens 0 batch 0
