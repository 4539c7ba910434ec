-- ===== src/Backends/Tiled/Tiles.antt =====
-- The tiles of src/backends/tiled/tiled_backend.cpp, and the shared memory that they take.
use sci_compute_attention.Base.{
  ℕ, ◌+◌, ◌*◌, ◌⊎◌, subst, ◌≤◌, ◌≡◌, Bool, true, some, arith, inl, inr, Option-cases,
}
use sci_compute_attention.Types.{DType, float16, dtype_size}
use sci_compute_attention.Backends.{DtypeId, dtype_id_for}
use sci_compute_attention.Backends.Launchers.{tiled_smem_bytes}
use sci_compute_attention.Backends.Launchers.Laws.{is_candidate, tiled_smem_bytes_mono}
use sci_compute_attention.Backends.Tiled.{TileCandidate, fits, first_fit, select_tile}

abbrev pub is_candidate_tile : TileCandidate → Bool
is_candidate_tile c = is_candidate c.block_m c.block_n c.warps

-- A chosen tile is of the table, and fits.
pub select_tile-fits :
    (dtype : DType) (head_dim limit : ℕ) (tile : TileCandidate)
    → select_tile dtype head_dim limit ≡ some tile
    → (fits head_dim (dtype_size dtype) limit tile ≡ true) × (is_candidate_tile tile ≡ true)
unfolding select_tile first_fit
select_tile-fits dtype head_dim limit tile h = ground (arith, h)

-- What fits with wide elements fits with those of two bytes.
pub fits_narrower :
    (head_dim eb limit : ℕ) (c : TileCandidate)
    → 2 ≤ eb
    → fits head_dim eb limit c ≡ true
    → fits head_dim 2 limit c ≡ true
fits_narrower head_dim eb limit c wide h =
    elim (Option-cases (tiled_smem_bytes head_dim eb c.block_m c.block_n)) [
      | inl e ↦ ground (arith, e)
      | inr (b, e) ↦
          let (b', e', some_room, less) =
            tiled_smem_bytes_mono head_dim 2 eb c.block_m c.block_n b wide e in
          ground (arith, e, e')
    ]

-- The tiles of two-byte types are chosen alike.
pub select_tile_narrow :
    (dtype : DType) (head_dim limit : ℕ)
    → dtype_size dtype ≡ 2
    → select_tile dtype head_dim limit ≡ select_tile float16 head_dim limit
unfolding select_tile
select_tile_narrow dtype head_dim limit narrow = ground arith

-- A tile for any dtype that the code computes with leaves one for FP16.
pub select_tile-float16 :
    (dtype : DType) (id : DtypeId) (head_dim limit : ℕ) (tile : TileCandidate)
    → dtype_id_for dtype ≡ some id
    → select_tile dtype head_dim limit ≡ some tile
    → (t : TileCandidate) × (select_tile float16 head_dim limit ≡ some t)
unfolding select_tile first_fit
select_tile-float16 dtype id head_dim limit tile known h =
    let wide : 2 ≤ dtype_size dtype = ground (arith, known) in
    let c =
      fits_narrower head_dim (dtype_size dtype) limit tile wide
        (select_tile-fits dtype head_dim limit tile h).0 in
    elim (Option-cases (select_tile float16 head_dim limit)) [
      | inr found ↦ found
      | inl e ↦ absurd (ground (arith, e, h, c))
    ]

-- The shared memory of the tiled kernel: the padded rows of a tile of Q, and of one of K and V each, the padded
-- scores, and three numbers for each row.
abbrev pub tile_bytes : ℕ → ℕ → ℕ → ℕ → ℕ
tile_bytes head_dim elem_bytes m n =
    (m + 2 * n) * (head_dim + 8) * elem_bytes + (m * (n + 4) + 3 * m) * 4

-- The tiles that the kernel is instantiated for.
pub data IsTile : TileCandidate → Type 0 where
  square : IsTile (record { block_m = 64; block_n = 64; warps = 4 })
  tall : IsTile (record { block_m = 64; block_n = 32; warps = 4 })
  taller : IsTile (record { block_m = 128; block_n = 32; warps = 8 })

pub is_candidate-IsTile : (tile : TileCandidate) → is_candidate_tile tile ≡ true → IsTile tile
is_candidate-IsTile tile h =
    let cases : ((64 ≡ tile.block_m) × (64 ≡ tile.block_n) × (4 ≡ tile.warps))
        ⊎ (((64 ≡ tile.block_m) × (32 ≡ tile.block_n) × (4 ≡ tile.warps))
            ⊎ ((128 ≡ tile.block_m) × (32 ≡ tile.block_n) × (8 ≡ tile.warps))) =
      ground (arith, h) in
    elim cases [
      | inl (m, n, w) ↦ subst IsTile (same_tile m n w) square
      | inr (inl (m, n, w)) ↦ subst IsTile (same_tile m n w) tall
      | inr (inr (m, n, w)) ↦ subst IsTile (same_tile m n w) taller
    ]
  where
    same_tile :
        {m n w : ℕ}
        → {t : TileCandidate} → m ≡ t.block_m
        → n ≡ t.block_n
        → w ≡ t.warps
        → record { block_m = m; block_n = n; warps = w } ≡ t
    same_tile a b c = λ i. record { block_m = a i; block_n = b i; warps = c i }

tiled_smem_bytes_lem :
    (d eb m n b : ℕ) → tiled_smem_bytes d eb m n ≡ some b → b ≡ tile_bytes d eb m n
unfolding tiled_smem_bytes
tiled_smem_bytes_lem d eb m n b h =
    let sum : m * (d + 8) * eb + 2 * (n * (d + 8) * eb) + m * (n + 4) * 4 + m * 3 * 4
        ≡ tile_bytes d eb m n =
      grind arith in
    ground (arith, h, sum)

pub select_tile-tile_bytes :
    (dtype : DType) (head_dim limit : ℕ) (tile : TileCandidate)
    → select_tile dtype head_dim limit ≡ some tile
    → tile_bytes head_dim (dtype_size dtype) tile.block_m tile.block_n ≤ limit
select_tile-tile_bytes dtype head_dim limit tile h =
    let fitting = (select_tile-fits dtype head_dim limit tile h).0 in
    elim (Option-cases (tiled_smem_bytes head_dim (dtype_size dtype) tile.block_m tile.block_n)) [
      | inl e ↦ absurd (ground (arith, e, fitting))
      | inr (b, e) ↦
          let same =
            tiled_smem_bytes_lem head_dim (dtype_size dtype) tile.block_m tile.block_n b e in
          rw (← same) (ground (arith, e, fitting))
    ]
