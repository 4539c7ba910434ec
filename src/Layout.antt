-- ===== src/Layout.antt =====
-- include/scicompute_attention/detail/layout_traits.hpp and the counters of `AttentionShape`: where an
-- element of a tensor lies. The int64_t arithmetic is exact where the tensor fits in memory.
pub mod Laws
use sci_compute_attention.Base.{ℕ, ◌+◌, ◌*◌, ◌/◌, ltb, if◌then◌else◌}
use sci_compute_attention.Types.{AttnLayout, bhsd, bshd, AttentionShape}

pub record Strides : Type 0 where
  pub s_b : ℕ
  pub s_h : ℕ
  pub s_s : ℕ
  pub s_d : ℕ

unfoldable pub strides_for : AttnLayout → ℕ → ℕ → ℕ → Strides
strides_for bhsd seq heads head_dim = record {
  s_b = heads * (seq * head_dim);
  s_h = seq * head_dim;
  s_s = head_dim;
  s_d = 1;
}
strides_for bshd seq heads head_dim = record {
  s_b = seq * (heads * head_dim);
  s_h = head_dim;
  s_s = heads * head_dim;
  s_d = 1;
}

pub offset : Strides → ℕ → ℕ → ℕ → ℕ → ℕ
offset s b h t d = b * s.s_b + h * s.s_h + t * s.s_s + d * s.s_d

pub offset_bhsd : ℕ → ℕ → ℕ → ℕ → ℕ → ℕ → ℕ → ℕ
offset_bhsd b h t d seq heads head_dim = ((b * heads + h) * seq + t) * head_dim + d

pub offset_bshd : ℕ → ℕ → ℕ → ℕ → ℕ → ℕ → ℕ → ℕ
offset_bshd b t h d seq heads head_dim = ((b * seq + t) * heads + h) * head_dim + d

pub query_elements : AttentionShape → ℕ
query_elements shape = shape.batch * shape.seq_q * shape.num_heads * shape.head_dim

pub kv_elements : AttentionShape → ℕ
kv_elements shape = shape.batch * shape.seq_kv * shape.num_kv_heads * shape.head_dim

pub group_size : AttentionShape → ℕ
group_size shape = if ltb 0 shape.num_kv_heads then shape.num_heads / shape.num_kv_heads else 0
