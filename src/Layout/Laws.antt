-- ===== src/Layout/Laws.antt =====
-- The offsets of include/scicompute_attention/detail/layout_traits.hpp.
use sci_compute_attention.Base.{ℕ, ◌+◌, ◌*◌, ◌<◌, ◌≡◌, arith}
use sci_compute_attention.Types.{bhsd, bshd, AttentionShape}
use sci_compute_attention.Rows.Laws.{row_index_unique}
use sci_compute_attention.Layout.{strides_for, offset, offset_bhsd, offset_bshd, query_elements}

-- The strides of a layout give the offset that the layout's own formula gives, in both layouts.
pub offset-strides_for :
    (b h t d seq heads head_dim : ℕ)
    → (offset (strides_for bhsd seq heads head_dim) b h t d
        ≡ offset_bhsd b h t d seq heads head_dim)
      × (offset (strides_for bshd seq heads head_dim) b h t d
          ≡ offset_bshd b t h d seq heads head_dim)
unfolding offset strides_for offset_bhsd offset_bshd
offset-strides_for b h t d seq heads head_dim = (grind arith, grind arith)

-- In the layout [B, H, S, D], elements whose coordinates are in range have the same offset only if
-- head, position and dimension agree, and the batch too.
pub offset_bhsd_unique :
    (b b' h h' t t' d d' seq heads head_dim : ℕ)
    → h < heads
    → h' < heads
    → t < seq
    → t' < seq
    → d < head_dim
    → d' < head_dim
    → offset_bhsd b h t d seq heads head_dim ≡ offset_bhsd b' h' t' d' seq heads head_dim
    → (b ≡ b') × (h ≡ h') × (t ≡ t') × (d ≡ d')
unfolding offset_bhsd
offset_bhsd_unique b b' h h' t t' d d' seq heads head_dim hh hh' ht ht' hd hd' e =
    let (row, dims) = row_index_unique _ _ d d' head_dim hd hd' e in
    let (head, positions) = row_index_unique _ _ t t' seq ht ht' row in
    let (batch, heads_same) = row_index_unique b b' h h' heads hh hh' head in
    (batch, heads_same, positions, dims)

-- In a query tensor of the layout [B, H, S, D] every element whose coordinates are in range lies
-- below `QueryElements`.
pub offset_bhsd-query_elements :
    (shape : AttentionShape) (b h t d : ℕ)
    → b < shape.batch
    → h < shape.num_heads
    → t < shape.seq_q
    → d < shape.head_dim
    → offset_bhsd b h t d shape.seq_q shape.num_heads shape.head_dim < query_elements shape
unfolding offset_bhsd query_elements
offset_bhsd-query_elements shape b h t d hb hh ht hd =
    let x = below b h shape.batch shape.num_heads hb hh in
    let y = below _ t (shape.batch * shape.num_heads) shape.seq_q x ht in
    let z = below _ d (shape.batch * shape.num_heads * shape.seq_q) shape.head_dim y hd in
    let same : shape.batch * shape.num_heads * shape.seq_q * shape.head_dim
        ≡ shape.batch * shape.seq_q * shape.num_heads * shape.head_dim =
      grind arith in
    omega (arith, z, same)
  where
    below : (a r n w : ℕ) → a < n → r < w → a * w + r < n * w
    below a r n w ha hr = grind arith
