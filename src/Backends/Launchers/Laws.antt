-- ===== src/Backends/Launchers/Laws.antt =====
-- Which kernels the launch functions run.
use sci_compute_attention.Base.{
  ℕ, ◌+◌, ◌-◌, ◌*◌, ◌/◌, ◌≤◌, ◌<◌, ◌≡◌, ◌∙◌, ◌≢◌, Bool, true, ◌||◌, some, arith, refl, ap,
}
use sci_compute_attention.Status.{ok}
use sci_compute_attention.Config.{FlashTile, find_flash_tile}
use sci_compute_attention.Backends.{
  Env, Launch, fp32, FwdParams, NaiveFwdParams, DecodeFwdParams, is_set, launch_raw,
}
use sci_compute_attention.Backends.Laws.{IsHealthy, launch_raw_healthy}
use sci_compute_attention.Backends.Launchers.{
  has_tensors, elem_bytes, clamped_blocks, launch_naive_typed, launch_naive_forward,
  tiled_smem_bytes, tile_launch, is_tile, launch_tiled_with_dim, is_tiled_head_dim,
  launch_tiled_forward, flash_tile_smem_bytes, flash_layout_bytes, flash_launch,
  launch_flash_checked, launch_for_head_dim, is_instantiated, launch_flash_fwd,
  launch_decode_for_dim, has_buffers, launch_decode_split_k,
}

-- The launch that the tile table calls for.
abbrev pub table_launch : FwdParams → FlashTile → Launch
table_launch p tile = flash_launch p tile.block_m tile.block_n tile.stages tile.splits_d

-- The tiles of the tiled backend.
abbrev pub is_candidate : ℕ → ℕ → ℕ → Bool
is_candidate m n w = is_tile 64 64 4 m n w || (is_tile 64 32 4 m n w || is_tile 128 32 8 m n w)

table_warps : (d : ℕ) (tile : FlashTile) → find_flash_tile d ≡ some tile → 0 < tile.warps
unfolding find_flash_tile
table_warps d tile found = ground arith

-- What a launch for a tile of the table is.
pub record IsTableLaunch (env : Env) (p : FwdParams) (tile : FlashTile) : Type 0 where
  pub runs : launch_flash_fwd env p ≡ launch_raw env (table_launch p tile)
  pub threads : (table_launch p tile).threads ≡ tile.warps * 32
  pub smem :
      (table_launch p tile).smem_bytes ≡ flash_tile_smem_bytes tile p.head_dim (elem_bytes p.dtype)
  pub block_m : 0 < tile.block_m
  pub head_dim : is_instantiated p.head_dim ≡ true

module _ (env : Env) (p : FwdParams) (tile : FlashTile) where
  typed_launch :
      has_tensors p ≡ true
      → p.dtype ≢ fp32
      → is_instantiated p.head_dim ≡ true
      → launch_flash_fwd env p ≡ launch_for_head_dim env p
  unfolding launch_flash_fwd
  typed_launch tensors narrow known = ground arith

  table_cases :
      find_flash_tile p.head_dim ≡ some tile
      → (is_instantiated p.head_dim ≡ true)
        × (launch_for_head_dim env p ≡ launch_raw env (table_launch p tile))
        × (tile.block_m / 16 * tile.splits_d ≡ tile.warps)
        × (0 < tile.block_m)
  unfolding find_flash_tile is_instantiated launch_for_head_dim launch_flash_checked
  table_cases found = ground arith

  pub launch_flash_fwd_lem :
      has_tensors p ≡ true
      → p.dtype ≢ fp32
      → find_flash_tile p.head_dim ≡ some tile
      → IsTableLaunch env p tile
  unfolding flash_layout_bytes flash_tile_smem_bytes
  launch_flash_fwd_lem tensors narrow found =
      let (known, runs, warps, some_rows) = table_cases found in
      record {
        runs = typed_launch tensors narrow known ∙ runs;
        threads = ap (λ w. w * 32) warps;
        smem = refl;
        block_m = some_rows;
        head_dim = known;
      }

-- Narrower elements take no more room, and every tile takes some.
pub tiled_smem_bytes_mono :
    (d eb eb' m n b : ℕ)
    → eb ≤ eb'
    → tiled_smem_bytes d eb' m n ≡ some b
    → (b' : ℕ) × (tiled_smem_bytes d eb m n ≡ some b') × (0 < b') × (b' ≤ b)
unfolding tiled_smem_bytes
tiled_smem_bytes_mono d eb eb' m n b narrow h =
    let b' = m * (d + 8) * eb + 2 * (n * (d + 8) * eb) + m * (n + 4) * 4 + m * 3 * 4 in
    let rows : m * (d + 8) * eb ≤ m * (d + 8) * eb' = grind arith in
    let columns : n * (d + 8) * eb ≤ n * (d + 8) * eb' = grind arith in
    (b', ground arith, ground arith, ground arith)

-- A grid that covers `n > 0` rows in blocks of `m` is not empty.
blocks_ne_zero : (n m : ℕ) → 0 < n → 0 < m → (n + m - 1) / m ≢ 0
blocks_ne_zero n m hn hm = grind arith

module _ (env : Env) (healthy : IsHealthy env) where
  -- A flash launch for a tile of the table runs, on a machine where nothing fails.
  pub launch_flash_fwd_healthy :
      (p : FwdParams) (tile : FlashTile)
      → has_tensors p ≡ true
      → p.dtype ≢ fp32
      → find_flash_tile p.head_dim ≡ some tile
      → 0 < p.seq_q
      → 0 < p.num_heads
      → 0 < p.batch
      → launch_flash_fwd env p ≡ ok tt
  launch_flash_fwd_healthy p tile tensors narrow found rows heads batch =
      let (known, runs, warps, some_rows) = table_cases env p tile found in
      let some_threads : 0 < tile.warps = table_warps p.head_dim tile found in
      typed_launch env p tile tensors narrow known
      ∙ runs
      ∙ launch_raw_healthy env healthy (table_launch p tile)
          (blocks_ne_zero p.seq_q tile.block_m rows some_rows) (omega arith) (omega arith)
          (rw warps (omega arith))

  pub launch_tiled_healthy :
      (p : FwdParams) (block_m block_n warps : ℕ)
      → has_tensors p ≡ true
      → is_tiled_head_dim p.head_dim ≡ true
      → is_candidate block_m block_n warps ≡ true
      → 0 < p.seq_q
      → 0 < p.num_heads
      → 0 < p.batch
      → launch_tiled_forward env p block_m block_n warps ≡ ok tt
  unfolding launch_tiled_forward launch_tiled_with_dim
  launch_tiled_healthy p block_m block_n warps tensors dim candidate rows heads batch = ground (
    arith,
    launch_raw_healthy env healthy (tile_launch p 64 64 4),
    launch_raw_healthy env healthy (tile_launch p 64 32 4),
    launch_raw_healthy env healthy (tile_launch p 128 32 8),
  )

  pub launch_naive_healthy :
      (p : NaiveFwdParams)
      → has_tensors p.base ≡ true
      → is_set p.scores ≡ true
      → launch_naive_forward env p ≡ ok tt
  unfolding launch_naive_forward launch_naive_typed clamped_blocks
  launch_naive_healthy p tensors scores =
      grind (arith, launch_raw_healthy env healthy, healthy.no_error)

  pub launch_decode_healthy :
      (p : DecodeFwdParams)
      → has_buffers p ≡ true
      → is_instantiated p.head_dim ≡ true
      → 0 < p.num_splits
      → 0 < p.num_heads
      → 0 < p.batch
      → launch_decode_split_k env p ≡ ok tt
  unfolding launch_decode_split_k launch_decode_for_dim
  launch_decode_healthy p buffers dim splits heads batch =
      grind (arith, launch_raw_healthy env healthy, healthy.no_error)
