-- ===== src/Dispatcher/Infer.antt =====
-- `InferShape` of src/runtime/dispatcher.cpp: which tensors have a shape, in terms of their dimensions.
use sci_compute_attention.Base.{
  ℕ, ◌≡◌, ◌⊎◌, ◌↔◌, refl, Bool, true, false, not, arith, if◌then◌else◌,
}
use sci_compute_attention.Types.{
  DType, float32, float16, bfloat16, AttnLayout, bhsd, bshd, AttentionShape, same_dtype,
}
use sci_compute_attention.Tensor.{Tensor, cuda, ndims, dim}
use sci_compute_attention.Status.{
  Result, Error, ok, err, attn, bind-ok, ok_inj, ◌>>◌, shape_mismatch, unsupported_dtype,
  unsupported_layout,
}
use sci_compute_attention.Config.{layout_supported}
use sci_compute_attention.Dispatcher.{
  is_cuda, shape_of, wrong_values, wrong_batch, mixed_dtypes, infer_shape, check_tensor,
}

-- A tensor that the kernels take.
pub record IsInput (t : Tensor) : Type 0 where
  pub rank : ndims t ≡ 4
  pub contiguous : t.is_contiguous ≡ true
  pub dtype : (t.dtype ≡ float32) ⊎ ((t.dtype ≡ float16) ⊎ (t.dtype ≡ bfloat16))
  pub device : t.device_type ≡ cuda

-- The axes of a layout.
abbrev pub head_axis : AttnLayout → ℕ
head_axis bhsd = 1
head_axis bshd = 2

abbrev pub token_axis : AttnLayout → ℕ
token_axis bhsd = 2
token_axis bshd = 1

-- The tensors of a shape. The last dimension of k is free.
pub record HasShape (q k v : Tensor) (layout : AttnLayout) (shape : AttentionShape) : Type 0 where
  pub query : IsInput q
  pub key : IsInput k
  pub value : IsInput v
  pub key_dtype : k.dtype ≡ q.dtype
  pub value_dtype : v.dtype ≡ q.dtype
  pub query_batch : dim q 0 ≡ shape.batch
  pub key_batch : dim k 0 ≡ shape.batch
  pub value_batch : dim v 0 ≡ shape.batch
  pub query_heads : dim q (head_axis layout) ≡ shape.num_heads
  pub key_heads : dim k (head_axis layout) ≡ shape.num_kv_heads
  pub value_heads : dim v (head_axis layout) ≡ shape.num_kv_heads
  pub query_tokens : dim q (token_axis layout) ≡ shape.seq_q
  pub key_tokens : dim k (token_axis layout) ≡ shape.seq_kv
  pub value_tokens : dim v (token_axis layout) ≡ shape.seq_kv
  pub query_dim : dim q 3 ≡ shape.head_dim
  pub value_dim : dim v 3 ≡ shape.head_dim

check_tensor-IsInput : (t : Tensor) → check_tensor t ≡ ok tt → IsInput t
unfolding check_tensor is_cuda
check_tensor-IsInput t h = record {
  rank = ground (arith, h);
  contiguous = ground (arith, h);
  dtype = ground (arith, h);
  device = ground (arith, h);
}

check_tensor_accepts : (t : Tensor) → IsInput t → check_tensor t ≡ ok tt
unfolding check_tensor is_cuda
check_tensor_accepts t i = ground (arith, i.rank, i.contiguous, i.dtype, i.device)

same_dtype_lem : (a b : DType) → same_dtype a b ≡ true → b ≡ a
same_dtype_lem a b h = ground (arith, h)

same_dtype_self : (a : DType) → same_dtype a a ≡ true
same_dtype_self a = ground arith

passed :
    (test : Bool) (e : Error) (rest : Result AttentionShape) (out : AttentionShape)
    → ((if test then err e else ok tt) >> rest) ≡ ok out
    → (test ≡ false) × (rest ≡ ok out)
passed true e rest out g = ground arith
passed false e rest out g = (refl, g)

module _ (q k v : Tensor) where
  has_shape :
      (layout : AttnLayout)
      → IsInput q
      → IsInput k
      → IsInput v
      → mixed_dtypes q k v ≡ false
      → wrong_values layout (shape_of layout q k) v ≡ false
      → wrong_batch (shape_of layout q k) k v ≡ false
      → HasShape q k v layout (shape_of layout q k)
  has_shape bhsd query key value dtypes values batches = record {
    query = query;
    key = key;
    value = value;
    key_dtype = same_dtype_lem q.dtype k.dtype (ground (arith, dtypes));
    value_dtype = same_dtype_lem q.dtype v.dtype (ground (arith, dtypes));
    query_batch = refl;
    key_batch = ground (arith, batches);
    value_batch = ground (arith, batches);
    query_heads = refl;
    key_heads = refl;
    value_heads = ground (arith, values);
    query_tokens = refl;
    key_tokens = refl;
    value_tokens = ground (arith, values);
    query_dim = refl;
    value_dim = ground (arith, values);
  }
  has_shape bshd query key value dtypes values batches = record {
    query = query;
    key = key;
    value = value;
    key_dtype = same_dtype_lem q.dtype k.dtype (ground (arith, dtypes));
    value_dtype = same_dtype_lem q.dtype v.dtype (ground (arith, dtypes));
    query_batch = refl;
    key_batch = ground (arith, batches);
    value_batch = ground (arith, batches);
    query_heads = refl;
    key_heads = refl;
    value_heads = ground (arith, values);
    query_tokens = refl;
    key_tokens = refl;
    value_tokens = ground (arith, values);
    query_dim = refl;
    value_dim = ground (arith, values);
  }

  infer_sound :
      (layout : AttnLayout) (shape : AttentionShape)
      → infer_shape q k v layout ≡ ok shape
      → HasShape q k v layout shape
  unfolding infer_shape
  infer_sound layout shape h =
      let (a, _, h1) =
        bind-ok (if not (layout_supported layout) then err (attn unsupported_layout) else ok tt) _
          shape h in
      let (b, query, h2) = bind-ok (check_tensor q) _ shape h1 in
      let (c, key, h3) = bind-ok (check_tensor k) _ shape h2 in
      let (d, value, h4) = bind-ok (check_tensor v) _ shape h3 in
      let (dtypes, h5) = passed (mixed_dtypes q k v) (attn unsupported_dtype) _ shape h4 in
      let (values, h6) =
        passed (wrong_values layout (shape_of layout q k) v) (attn shape_mismatch) _ shape h5 in
      let (batches, h7) =
        passed (wrong_batch (shape_of layout q k) k v) (attn shape_mismatch) _ shape h6 in
      rw (← ok_inj (shape_of layout q k) shape h7) (
        has_shape layout (check_tensor-IsInput q query) (check_tensor-IsInput k key)
          (check_tensor-IsInput v value) dtypes values batches)

  shape_of_lem :
      (layout : AttnLayout) (shape : AttentionShape)
      → HasShape q k v layout shape
      → (shape_of layout q k ≡ shape)
        × (wrong_values layout shape v ≡ false)
        × (wrong_batch shape k v ≡ false)
  shape_of_lem bhsd shape s = (
    λ i. record {
      batch = s.query_batch i;
      seq_q = s.query_tokens i;
      seq_kv = s.key_tokens i;
      num_heads = s.query_heads i;
      num_kv_heads = s.key_heads i;
      head_dim = s.query_dim i;
    },
    ground (arith, s.value_heads, s.value_tokens, s.value_dim),
    ground (arith, s.key_batch, s.value_batch),
  )
  shape_of_lem bshd shape s = (
    λ i. record {
      batch = s.query_batch i;
      seq_q = s.query_tokens i;
      seq_kv = s.key_tokens i;
      num_heads = s.query_heads i;
      num_kv_heads = s.key_heads i;
      head_dim = s.query_dim i;
    },
    ground (arith, s.value_heads, s.value_tokens, s.value_dim),
    ground (arith, s.key_batch, s.value_batch),
  )

  infer_complete :
      (layout : AttnLayout) (shape : AttentionShape)
      → HasShape q k v layout shape
      → infer_shape q k v layout ≡ ok shape
  unfolding infer_shape layout_supported
  infer_complete layout shape s =
      let (same, values, batches) = shape_of_lem layout shape s in
      let known : (not (layout_supported layout)) ≡ false = ground arith in
      let dtypes : mixed_dtypes q k v ≡ false =
        rw (s.key_dtype, s.value_dtype) (ground (arith, same_dtype_self q.dtype)) in
      rw
        (
          known,
          check_tensor_accepts q s.query,
          check_tensor_accepts k s.key,
          check_tensor_accepts v s.value,
          dtypes,
          same,
          values,
          batches,
        )
        refl

  -- `InferShape` returns a shape exactly if q, k and v are contiguous CUDA tensors of four dimensions and of
  -- the same type, FP32, FP16 or BF16, with the batch, heads, lengths and head dimension of the shape on the
  -- axes of the layout; the head dimension of k is not compared.
  pub infer_shape_iff :
      (layout : AttnLayout) (shape : AttentionShape)
      → (infer_shape q k v layout ≡ ok shape) ↔ HasShape q k v layout shape
  infer_shape_iff layout shape = (infer_sound layout shape, infer_complete layout shape)
