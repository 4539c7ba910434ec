-- ===== src/Backends/Launchers.antt =====
-- The launch functions of attention_naive.cu, attention_tiled.cu, flash_fwd_launch.cu, decode_splitk.cu and
-- paged_attention.cu of src/backends: the checks of the parameters, the kernels that run, their grids and
-- their shared memory. A narrowing of an extent to `int` is exact for the extents of real tensors.
pub mod Laws
use sci_compute_attention.Base.{
  ℕ, ◌+◌, ◌-◌, ◌*◌, ◌/◌, max, min, Bool, true, false, not, ◌&&◌, ◌||◌, Option, none, some, leb,
  ◌==◌, if◌then◌else◌,
}
use sci_compute_attention.Status.{Status, ok, err, sci, ◌>>=◌, ◌>>◌, invalid_argument}
use sci_compute_attention.Config.{FlashTile, find_flash_tile}
use sci_compute_attention.Backends.{
  Env, Kernel, naive_qk_scale_mask, naive_row_softmax, naive_pv, tiled_attn, flash_fwd,
  decode_partial, decode_reduce, Launch, DtypeId, fp32, fp16, bf16, FwdParams, NaiveFwdParams,
  DecodeFwdParams, is_set, launch_raw,
}

abbrev pub has_tensors : FwdParams → Bool
has_tensors p = is_set p.q && (is_set p.k && (is_set p.v && is_set p.out))

abbrev pub elem_bytes : DtypeId → ℕ
elem_bytes fp32 = 4
elem_bytes fp16 = 2
elem_bytes bf16 = 2

-- A one-dimensional grid of 256 threads, without dynamic shared memory.
abbrev flat_launch : Kernel → ℕ → Launch
flat_launch kernel blocks = record {
  kernel = kernel;
  grid_x = blocks;
  grid_y = 1;
  grid_z = 1;
  threads = 256;
  smem_bytes = 0;
}

-- The blocks of 256 threads for `total` items, at least 1 and at most 2^20.
pub clamped_blocks : ℕ → ℕ
clamped_blocks total = min (max 1 ((total + 255) / 256)) 1_048_576

pub launch_naive_typed : Env → NaiveFwdParams → Status
unfolding clamped_blocks
launch_naive_typed env p =
    let rows = p.base.batch * p.base.num_heads * p.base.seq_q in
    let qk_blocks = clamped_blocks (rows * p.base.seq_kv) in
    let pv_blocks = clamped_blocks (rows * p.base.head_dim) in
    let softmax_blocks = min (max 1 rows) 16_777_216 in
    let softmax = naive_row_softmax p.scores p.base.lse rows p.base.seq_kv p.base.return_lse in
    do
      launch_raw env (flat_launch (naive_qk_scale_mask p) qk_blocks)
      launch_raw env (flat_launch softmax softmax_blocks)
      launch_raw env (flat_launch (naive_pv p) pv_blocks)
      env.last_error

pub launch_naive_forward : Env → NaiveFwdParams → Status
unfolding launch_naive_typed
launch_naive_forward env p =
    if not (has_tensors p.base && is_set p.scores)
    then err (sci invalid_argument)
    else launch_naive_typed env p

-- The footprint of a tile; the code's -1 for an invalid one is `none`.
unfoldable pub tiled_smem_bytes : ℕ → ℕ → ℕ → ℕ → Option ℕ
tiled_smem_bytes head_dim elem_bytes block_m block_n =
    if head_dim == 0 || (block_m == 0 || block_n == 0)
    then none
    else some (
        block_m * (head_dim + 8) * elem_bytes
        + 2 * (block_n * (head_dim + 8) * elem_bytes)
        + block_m * (block_n + 4) * 4
        + block_m * 3 * 4)

-- The code casts the footprint of an instantiated tile, which is never -1, to `size_t`.
abbrev pub or_zero : Option ℕ → ℕ
or_zero none = 0
or_zero (some n) = n

abbrev pub tile_launch : FwdParams → ℕ → ℕ → ℕ → Launch
tile_launch p block_m block_n warps = record {
  kernel = tiled_attn block_m block_n warps p;
  grid_x = (p.seq_q + block_m - 1) / block_m;
  grid_y = p.num_heads;
  grid_z = p.batch;
  threads = warps * 32;
  smem_bytes = or_zero (tiled_smem_bytes p.head_dim (elem_bytes p.dtype) block_m block_n);
}

-- The tiles that are instantiated.
abbrev pub is_tile : ℕ → ℕ → ℕ → ℕ → ℕ → ℕ → Bool
is_tile m n w block_m block_n warps = block_m == m && (block_n == n && warps == w)

pub launch_tiled_with_dim : Env → FwdParams → ℕ → ℕ → ℕ → Status
launch_tiled_with_dim env p block_m block_n warps =
    if is_tile 64 64 4 block_m block_n warps
    then launch_raw env (tile_launch p 64 64 4)
    else if is_tile 64 32 4 block_m block_n warps
    then launch_raw env (tile_launch p 64 32 4)
    else if is_tile 128 32 8 block_m block_n warps
    then launch_raw env (tile_launch p 128 32 8)
    else err (sci invalid_argument)

-- The head dimensions of the `switch` in `LaunchTyped`.
unfoldable pub is_tiled_head_dim : ℕ → Bool
is_tiled_head_dim d = d == 32 || (d == 64 || (d == 96 || d == 128))

pub launch_tiled_forward : Env → FwdParams → ℕ → ℕ → ℕ → Status
unfolding launch_tiled_with_dim is_tiled_head_dim
launch_tiled_forward env p block_m block_n warps =
    if not (has_tensors p)
    then err (sci invalid_argument)
    else if is_tiled_head_dim p.head_dim
    then launch_tiled_with_dim env p block_m block_n warps
    else err (sci invalid_argument)

-- `kRowPadElems` is 8.
unfoldable pub flash_tile_smem_bytes : FlashTile → ℕ → ℕ → ℕ
flash_tile_smem_bytes tile head_dim elem_bytes =
    tile.block_m * (head_dim + 8) * elem_bytes
    + 2 * (tile.block_n * (head_dim + 8) * elem_bytes * tile.stages)

-- The footprint of the instantiated layout, `FlashTileSmemBytesConst`.
unfoldable pub flash_layout_bytes : ℕ → ℕ → ℕ → ℕ → ℕ → ℕ
flash_layout_bytes head_dim elem_bytes block_m block_n stages =
    let row_stride = head_dim + 8 in
    block_m * row_stride * elem_bytes + 2 * (block_n * row_stride * elem_bytes * stages)

-- `LaunchTyped`, `LaunchChecked` and the tile that `LaunchForHeadDim` instantiates.
abbrev pub flash_launch : FwdParams → ℕ → ℕ → ℕ → ℕ → Launch
flash_launch p block_m block_n stages splits_d = record {
  kernel = flash_fwd block_m block_n stages splits_d p.causal p;
  grid_x = (p.seq_q + block_m - 1) / block_m;
  grid_y = p.num_heads;
  grid_z = p.batch;
  threads = block_m / 16 * splits_d * 32;
  smem_bytes = flash_layout_bytes p.head_dim (elem_bytes p.dtype) block_m block_n stages;
}

pub launch_flash_checked : Env → FwdParams → FlashTile → ℕ → ℕ → ℕ → ℕ → Status
launch_flash_checked env p tile block_m block_n stages splits_d =
    if not (
      tile.block_m == block_m
      && (tile.block_n == block_n && (tile.stages == stages && tile.splits_d == splits_d)))
    then err (sci invalid_argument)
    else launch_raw env (flash_launch p block_m block_n stages splits_d)

pub launch_for_head_dim : Env → FwdParams → Status
unfolding launch_flash_checked
launch_for_head_dim env p = elim (find_flash_tile p.head_dim) [
  | none ↦ err (sci invalid_argument)
  | some tile ↦
      if leb p.head_dim 128
      then launch_flash_checked env p tile 64 64 2 1
      else if leb p.head_dim 192
      then launch_flash_checked env p tile 64 32 2 2
      else launch_flash_checked env p tile 32 32 2 2
]

-- The head dimensions of the flash and the decode kernels, for every dtype alike.
unfoldable pub is_instantiated : ℕ → Bool
is_instantiated d =
    d == 32 || (d == 64 || (d == 96 || (d == 128 || (d == 160 || (d == 192 || d == 256)))))

-- The dtype id 0 of FP32 is refused.
unfoldable pub launch_flash_fwd : Env → FwdParams → Status
unfolding launch_for_head_dim is_instantiated
launch_flash_fwd env p =
    let typed =
      if is_instantiated p.head_dim
      then launch_for_head_dim env p
      else err (sci invalid_argument) in
    if not (has_tensors p)
    then err (sci invalid_argument)
    else elim p.dtype [ fp32 ↦ err (sci invalid_argument) | fp16 ↦ typed | bf16 ↦ typed ]

-- Four warps to a block, one request to a warp.
abbrev warp_launch : Kernel → ℕ → Launch
warp_launch kernel requests = record {
  kernel = kernel;
  grid_x = (requests + 3) / 4;
  grid_y = 1;
  grid_z = 1;
  threads = 128;
  smem_bytes = 0;
}

pub launch_decode_for_dim : Env → DecodeFwdParams → Status
launch_decode_for_dim env p =
    let reduce_requests = p.batch * p.num_heads in
    do
      launch_raw env (warp_launch (decode_partial p) (reduce_requests * p.num_splits))
      launch_raw env (warp_launch (decode_reduce p) reduce_requests)
      env.last_error

abbrev pub has_buffers : DecodeFwdParams → Bool
has_buffers p =
    is_set p.q
    && (is_set p.k
        && (is_set p.v
            && (is_set p.out
                && (is_set p.partial_m && (is_set p.partial_l && is_set p.partial_o)))))

pub launch_decode_split_k : Env → DecodeFwdParams → Status
unfolding launch_decode_for_dim
launch_decode_split_k env p =
    if not (has_buffers p)
    then err (sci invalid_argument)
    else if p.num_splits == 0
    then err (sci invalid_argument)
    else if is_instantiated p.head_dim
    then launch_decode_for_dim env p
    else err (sci invalid_argument)

unfoldable pub launch_decode_split_k_paged : Env → DecodeFwdParams → Status
unfolding launch_decode_split_k
launch_decode_split_k_paged env p =
    if not (is_set p.page_table)
    then err (sci invalid_argument)
    else if p.block_size == 0 || (p.max_blocks_per_seq == 0 || p.num_kv_blocks == 0)
    then err (sci invalid_argument)
    else launch_decode_split_k env p
