-- ===== src/Backends/Decode/Kernel.antt =====
-- The two kernels of src/backends/decode/decode_splitk.cu: a warp takes the tokens of a split by the online
-- softmax, and a second kernel merges the splits. The 32 lanes of a warp are one thread that owns the whole
-- head dimension: the butterfly of `WarpReduceDot` is the sum over the lanes, and every lane has the same
-- maximum and sum. The floats and their operations are a parameter, and so are the contents of the
-- buffers, by index and converted to floats.
pub mod Laws
pub mod Merge
pub mod Exact
mod Examples
use sci_compute_attention.Base.{
  ℕ, zero, suc, ◌+◌, ◌-◌, ◌*◌, ◌/◌, ◌%◌, Bool, Option, none, some, List, ℤ, pos, negsuc,
  if◌then◌else◌, get_or,
}
use sci_compute_attention.PagedCache.PageTable.{page_table_row}
use sci_compute_attention.Backends.{DecodeFwdParams}
use sci_compute_attention.Backends.Decode.Splits.{
  split_begin, split_end, split_of, head_of, batch_of,
}
use sci_compute_attention.Backends.Decode.Softmax.{Arithmetic, rescale}

pub record Memory (F : Type 0) : Type 0 where
  pub q : ℕ → F
  pub k : ℕ → F
  pub v : ℕ → F
  pub scale : F

-- The row of a token; `none` is the null pointer of an unmapped one.
unfoldable pub kv_row : DecodeFwdParams → ℕ → ℕ → Option ℕ
kv_row p seq_id j = elim p.page_table [
  | none ↦ some j
  | some table ↦
      elim (page_table_row table seq_id j p.block_size p.max_blocks_per_seq p.num_kv_blocks) [
        | pos row ↦ some row
        | negsuc n ↦ none
      ]
]

abbrev pub seq_len_of : DecodeFwdParams → ℕ → ℕ
seq_len_of p batch = elim p.seq_lens [ none ↦ p.seq_kv | some lens ↦ get_or lens batch 0 ]

-- The head of K and V that a query head shares.
abbrev pub kv_head : DecodeFwdParams → ℕ → ℕ
kv_head p head = head / (p.num_heads / p.num_kv_heads)

module _ {F : Type 0} (r : Arithmetic F) where
  unfoldable pub sum : ℕ → (ℕ → F) → F
  sum zero f = r.nought
  sum (suc n) f = r.plus (sum n f) (f n)

  -- The running maximum, the running sum and the output of a warp.
  pub record Partial : Type 0 where
    pub m : F
    pub l : F
    pub o : ℕ → F

  abbrev pub start : Partial
  start = record { m = r.neg_inf; l = r.nought; o = λ d. r.nought }

  -- The update for a token with its score and its row of V.
  pub absorb : Partial → F → (ℕ → F) → Partial
  absorb st dot v_row =
      let m_new = r.larger st.m dot in
      let alpha = rescale r st.m m_new in
      let p_j = r.weight dot m_new in
      record {
        m = m_new;
        l = r.plus (r.times alpha st.l) p_j;
        o = λ d. r.plus (r.times alpha (st.o d)) (r.times p_j (v_row d));
      }

  module _ (p : DecodeFwdParams) (mem : Memory F) where
    -- The scaled dot product of the query with a row of K, lane by lane.
    unfoldable pub score : ℕ → ℕ → ℕ → F
    unfolding sum
    score batch head row =
        let lane_elems = p.head_dim / 32 in
        let q_row = batch * p.q_stride.s_b + head * p.q_stride.s_h in
        let k_row =
          batch * p.k_stride.s_b + kv_head p head * p.k_stride.s_h + row * p.k_stride.s_s in
        r.times
          (sum 32 λ lane. sum lane_elems λ i.
            r.times (mem.q (q_row + (lane * lane_elems + i)))
              (mem.k (k_row + (lane * lane_elems + i))))
          mem.scale

    unfoldable pub value : ℕ → ℕ → ℕ → ℕ → F
    value batch head row d =
        mem.v (batch * p.v_stride.s_b + kv_head p head * p.v_stride.s_h + row * p.v_stride.s_s + d)

    -- An unmapped token contributes nothing.
    pub take_token : ℕ → ℕ → ℕ → Partial → Partial
    unfolding absorb
    take_token batch head j st = elim (kv_row p batch j) [
      | none ↦ st
      | some row ↦ absorb st (score batch head row) (value batch head row)
    ]

    -- The loop over the tokens from `j` on, with `n` left.
    pub partial_loop : ℕ → ℕ → ℕ → ℕ → Partial → Partial
    partial_loop batch head zero j st = st
    partial_loop batch head (suc n) j st =
        partial_loop batch head n (suc j) (take_token batch head j st)

    -- What the warp `flat` of `decode_partial_kernel` stores.
    pub decode_partial_kernel : ℕ → Partial
    unfolding partial_loop take_token
    decode_partial_kernel flat =
        let split = split_of p.num_splits flat in
        let head = head_of p.num_splits p.num_heads flat in
        let batch = batch_of p.num_splits p.num_heads flat in
        let seq_len = seq_len_of p batch in
        let j_begin = split_begin seq_len p.num_splits split in
        let j_end = split_end seq_len p.num_splits split in
        partial_loop batch head (j_end - j_begin) j_begin start

  -- The loops of the second kernel over the splits from `s` on, with `n` left. They read the partial results
  -- at the indices from `base` on.
  pub max_loop : (ℕ → F) → ℕ → ℕ → ℕ → F → F
  max_loop partial_m base zero s m_all = m_all
  max_loop partial_m base (suc n) s m_all =
      max_loop partial_m base n (suc s) (r.larger m_all (partial_m (base + s)))

  pub sum_loop : (ℕ → F) → (ℕ → F) → F → ℕ → ℕ → ℕ → F → F
  sum_loop partial_m part m_all base zero s total = total
  sum_loop partial_m part m_all base (suc n) s total =
      let m_s = partial_m (base + s) in
      sum_loop partial_m part m_all base n (suc s) (
        if r.is_neg_inf m_s
        then total
        else r.plus total (r.times (part (base + s)) (r.weight m_s m_all)))

  -- The element `d` of the row that the warp `flat` of `decode_reduce_kernel` stores.
  pub decode_reduce_kernel : DecodeFwdParams → (ℕ → F) → (ℕ → F) → (ℕ → F) → ℕ → ℕ → F
  unfolding max_loop sum_loop
  decode_reduce_kernel p partial_m partial_l partial_o flat d =
      let base = flat * p.num_splits in
      let m_all = max_loop partial_m base p.num_splits 0 r.neg_inf in
      let l_all = sum_loop partial_m partial_l m_all base p.num_splits 0 r.nought in
      let total =
        sum_loop partial_m (λ i. partial_o (i * p.head_dim + d)) m_all base p.num_splits 0
          r.nought in
      r.times total (r.recip l_all)

  -- The kernels of `LaunchForDim` one after the other.
  pub decode_split_k : DecodeFwdParams → Memory F → ℕ → ℕ → F
  unfolding decode_reduce_kernel decode_partial_kernel
  decode_split_k p mem flat d =
      decode_reduce_kernel p (λ i. (decode_partial_kernel p mem i).m)
        (λ i. (decode_partial_kernel p mem i).l)
        (λ i. (decode_partial_kernel p mem (i / p.head_dim)).o (i % p.head_dim)) flat d
