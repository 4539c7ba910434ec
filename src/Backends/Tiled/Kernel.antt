-- ===== src/Backends/Tiled/Kernel.antt =====
-- The kernel of src/backends/tiled/attention_tiled.cu, for one row of a block of queries: the tiles of keys
-- in ascending order, an update of the row by the online softmax for each, and the normalised output. The
-- tiles in shared memory are read from the tensors, and the lanes of a warp are one thread. The log-sum-exp
-- of a row is left out, and so are the rows past the last query, which are not stored.
pub mod Laws
pub mod Exact
mod Examples
use sci_compute_attention.Base.{
  ℕ, zero, suc, ◌+◌, ◌-◌, ◌*◌, ◌/◌, Bool, ◌&&◌, ◌||◌, ltb, leb, if◌then◌else◌,
}
use sci_compute_attention.Backends.{FwdParams}
use sci_compute_attention.Backends.Decode.Softmax.{Arithmetic}
use sci_compute_attention.Backends.Decode.Kernel.{Memory, Partial, start, sum}
use sci_compute_attention.Backends.Naive.Kernel.{exceeds, max_of, dot_scaled, naive_value}

module _ {F : Type 0} (r : Arithmetic F) where
  -- The products of a row of probabilities with a column of V; a probability 0 is skipped.
  pub skip_sum : ℕ → (ℕ → F) → (ℕ → F) → F
  skip_sum zero w x = r.nought
  skip_sum (suc n) w x =
      let rest = skip_sum n w x in
      if r.is_nought (w n) then rest else r.plus rest (r.times (w n) (x n))

  -- The update for a tile of `n` scores.
  pub update_row : ℕ → (ℕ → F) → (ℕ → ℕ → F) → Partial r → Partial r
  unfolding skip_sum
  update_row n cell v st =
      let m_new = r.larger st.m (max_of r n cell) in
      let alpha =
        if r.is_neg_inf st.m || r.is_neg_inf m_new then r.nought else r.weight st.m m_new in
      let prob = λ (col : ℕ). if r.is_neg_inf m_new then r.nought else r.weight (cell col) m_new in
      record {
        m = m_new;
        l = r.plus (r.times alpha st.l) (sum r n prob);
        o = λ d. r.plus (r.times alpha (st.o d)) (skip_sum n prob (λ col. v col d));
      }

  module _ (p : FwdParams) (mem : Memory F) (block_m block_n batch head i0 row : ℕ) where
    abbrev pub is_masked : ℕ → Bool
    is_masked j = leb p.seq_kv j || (p.causal && exceeds j (i0 + row) p.diagonal)

    abbrev pub tile_score : ℕ → F
    tile_score j = if is_masked j then r.neg_inf else dot_scaled r p mem batch head (i0 + row) j

    abbrev pub tile_value : ℕ → ℕ → F
    tile_value j d = if ltb j p.seq_kv then naive_value r p mem batch head j d else r.nought

    -- A tile that the mask hides from the whole block ends the loop.
    abbrev pub is_past : ℕ → Bool
    is_past j_base = p.causal && exceeds j_base (i0 + block_m - 1) p.diagonal

    -- The loop over the tiles from `j0` on, with `n` left.
    pub tile_loop : ℕ → ℕ → Partial r → Partial r
    unfolding update_row
    tile_loop zero j0 st = st
    tile_loop (suc n) j0 st =
        let j_base = j0 * block_n in
        let next =
          update_row block_n (λ col. tile_score (j_base + col)) (λ col. tile_value (j_base + col))
            st in
        let rest = tile_loop n (suc j0) next in if is_past j_base then st else rest

    -- The element `d` of the output of the row.
    pub tiled_attn_kernel : ℕ → F
    unfolding tile_loop
    tiled_attn_kernel d =
        let st = tile_loop ((p.seq_kv + block_n - 1) / block_n) 0 (start r) in
        r.times (st.o d) (r.recip st.l)
