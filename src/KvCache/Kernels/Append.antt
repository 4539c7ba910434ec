-- ===== src/KvCache/Kernels/Append.antt =====
-- `kv_append_kernel`: where each row of the new tokens ends up, and what stays.
use native.Mathlib.Nat.{div-add-mod, mod-lt, mul_comm, mul_assoc, add-zero}
use sci_compute_attention.Base.{
  ℕ, zero, suc, ◌+◌, ◌*◌, ◌/◌, ◌%◌, ◌≤◌, ◌<◌, ◌≡◌, ◌≢◌, inl, inr, refl, sym, ap, ap₂, ◌∙◌, Option,
  none, some, List, arith, ℤ, pos, negsuc, minus_one, leb, if◌then◌else◌, length, get_or,
  Bool-cases, lt→leb_false, ◌==◌, ==→eq, ==→ne,
}
use sci_compute_attention.Bytes.{read, copy, length-copy, read-copy, read-copy_other}
use sci_compute_attention.Rows.Laws.{row_bounds, row_fits, row_index_unique, row_parts, div_lt}
use sci_compute_attention.KvCache.{KvCacheShape, kv_offset, kv_layer_elements}
use sci_compute_attention.KvCache.Kernels.{store_row, append_row, append_rows, kv_append_kernel}

-- A layer is a sequence of rows of `head_dim` elements; slot `s` and head `h` have the row
-- `s * num_kv_heads + h`.
abbrev pub row_bytes : KvCacheShape → ℕ → ℕ
row_bytes shape elem_bytes = shape.head_dim * elem_bytes

abbrev pub layer_row : KvCacheShape → ℕ → List ℕ → ℕ → List ℕ
layer_row shape elem_bytes layer r =
    read layer (r * row_bytes shape elem_bytes) (row_bytes shape elem_bytes)

-- The row of the layer that a slot and a head name, if the slot is stored at all.
abbrev slot_row : KvCacheShape → ℕ → ℤ → Option ℕ
slot_row shape head (negsuc n) = none
slot_row shape head (pos slot) =
    if leb shape.num_blocks (slot / shape.block_size)
    then none
    else some (slot * shape.num_kv_heads + head)

abbrev dest : KvCacheShape → List ℤ → ℕ → Option ℕ
dest shape slots row =
    slot_row shape (row % shape.num_kv_heads) (get_or slots (row / shape.num_kv_heads) minus_one)

abbrev move_row : KvCacheShape → ℕ → List ℕ → ℕ → Option ℕ → List ℕ → List ℕ
move_row shape eb src row none layer = layer
move_row shape eb src row (some r) layer =
    copy src (row * row_bytes shape eb) layer (r * row_bytes shape eb) (row_bytes shape eb)

kv_offset_row :
    (shape : KvCacheShape) (slot head eb : ℕ)
    → kv_offset shape (slot / shape.block_size) (slot % shape.block_size) head 0 * eb
      ≡ (slot * shape.num_kv_heads + head) * row_bytes shape eb
unfolding kv_offset
kv_offset_row shape slot head eb =
    rw
      (
        mul_comm (slot / shape.block_size) shape.block_size,
        div-add-mod slot shape.block_size,
        add-zero,
      )
      (mul_assoc _ _ _)

store_row_lem :
    (shape : KvCacheShape) (eb : ℕ) (src : List ℕ) (token head row : ℕ) (slot : ℤ) (layer : List ℕ)
    → token * shape.num_kv_heads + head ≡ row
    → store_row shape eb src token head slot layer
      ≡ move_row shape eb src row (slot_row shape head slot) layer
unfolding store_row
store_row_lem shape eb src token head row (negsuc n) layer e = refl
store_row_lem shape eb src token head row (pos slot) layer e =
    elim (Bool-cases (leb shape.num_blocks (slot / shape.block_size))) [
      | inl out ↦ rw out
      | inr within ↦ rw (within, e, kv_offset_row shape slot head eb)
    ]

append_row_lem :
    (shape : KvCacheShape) (eb : ℕ) (slots : List ℤ) (src : List ℕ) (row : ℕ) (layer : List ℕ)
    → append_row shape eb slots src row layer
      ≡ move_row shape eb src row (dest shape slots row) layer
unfolding append_row
append_row_lem shape eb slots src row layer =
    store_row_lem shape eb src (row / shape.num_kv_heads) (row % shape.num_kv_heads) row _ layer (
      rw (mul_comm (row / shape.num_kv_heads) shape.num_kv_heads)
        (div-add-mod row shape.num_kv_heads))

module _ (shape : KvCacheShape) (eb : ℕ) (src : List ℕ) where
  length-move_row :
      (row : ℕ) (d : Option ℕ) (layer : List ℕ)
      → length (move_row shape eb src row d layer) ≡ length layer
  length-move_row row none layer = refl
  length-move_row row (some r) layer =
      length-copy src (row * row_bytes shape eb) layer (r * row_bytes shape eb) (row_bytes shape eb)

  move_row_other :
      (row r : ℕ) (d : Option ℕ) (layer : List ℕ)
      → d ≢ some r
      → layer_row shape eb (move_row shape eb src row d layer) r ≡ layer_row shape eb layer r
  move_row_other row r none layer ne = refl
  move_row_other row r (some t) layer ne =
      read-copy_other src _ layer _ _ _ _
        (elim (row_bounds r t (row_bytes shape eb) (λ e. ne (ap some (sym e)))) [
          | inl p ↦ inl p
          | inr p ↦ inr p
        ])

  move_row_self :
      (row r : ℕ) (d : Option ℕ) (layer : List ℕ)
      → d ≡ some r
      → r * row_bytes shape eb + row_bytes shape eb ≤ length layer
      → layer_row shape eb (move_row shape eb src row d layer) r ≡ layer_row shape eb src row
  move_row_self row r none layer e h = absurd (cc)
  move_row_self row r (some t) layer e h =
      let same : t ≡ r = cc in
      rw same (
        read-copy src (row * row_bytes shape eb) layer (r * row_bytes shape eb) (row_bytes shape eb)
          h)

module _ (shape : KvCacheShape) (eb : ℕ) (slots : List ℤ) (src : List ℕ) where
  length-append_rows :
      (row n : ℕ) (layer : List ℕ)
      → length (append_rows shape eb slots src row n layer) ≡ length layer
  unfolding append_rows
  length-append_rows row zero layer = refl
  length-append_rows row (suc n) layer =
      length-append_rows (suc row) n _
      ∙ ap length (append_row_lem shape eb slots src row layer)
      ∙ length-move_row shape eb src row (dest shape slots row) layer

  append_rows_other :
      (row n r : ℕ) (layer : List ℕ)
      → ((k : ℕ) → row ≤ k → k < row + n → dest shape slots k ≢ some r)
      → layer_row shape eb (append_rows shape eb slots src row n layer) r
        ≡ layer_row shape eb layer r
  unfolding append_rows
  append_rows_other row zero r layer h = refl
  append_rows_other row (suc n) r layer h =
      append_rows_other (suc row) n r _ (λ k a b. h k (omega arith) (omega arith))
      ∙ ap (λ l. layer_row shape eb l r) (append_row_lem shape eb slots src row layer)
      ∙ move_row_other shape eb src row r (dest shape slots row) layer
          (h row (omega arith) (omega arith))

  append_rows_self :
      (row n k r : ℕ) (layer : List ℕ)
      → row ≤ k
      → k < row + n
      → dest shape slots k ≡ some r
      → ((k' : ℕ) → row ≤ k' → k' < row + n → dest shape slots k' ≡ some r → k' ≡ k)
      → r * row_bytes shape eb + row_bytes shape eb ≤ length layer
      → layer_row shape eb (append_rows shape eb slots src row n layer) r ≡ layer_row shape eb src k
  unfolding append_rows
  append_rows_self row zero k r layer a b e only fits = absurd (omega arith)
  append_rows_self row (suc n) k r layer a b e only fits = elim (Bool-cases (row == k)) [
    | inl same ↦
        let p = ==→eq row k same in
        append_rows_other (suc row) n r _
          (λ k' c d e'. omega (arith, only k' (omega arith) (omega arith) e'))
        ∙ ap (λ l. layer_row shape eb l r) (append_row_lem shape eb slots src row layer)
        ∙ move_row_self shape eb src row r (dest shape slots row) layer (rw p e) fits
        ∙ ap (layer_row shape eb src) p
    | inr other ↦
        let q = ==→ne row k other in
        append_rows_self (suc row) n k r _ (omega arith) (omega arith) e
          (λ k' c d e'. only k' (omega arith) (omega arith) e')
          (omega (
            arith,
            ap length (append_row_lem shape eb slots src row layer),
            length-move_row shape eb src row (dest shape slots row) layer,
          ))
  ]

-- The rows of a layer that can be stored.
row_of_slot_fits :
    (shape : KvCacheShape) (eb s head : ℕ)
    → s < shape.num_blocks * shape.block_size
    → head < shape.num_kv_heads
    → (s * shape.num_kv_heads + head) * row_bytes shape eb + row_bytes shape eb
      ≤ kv_layer_elements shape * eb
unfolding kv_layer_elements
row_of_slot_fits shape eb s head h k =
    let last : s * shape.num_kv_heads + head
        < shape.num_blocks * shape.block_size * shape.num_kv_heads =
      omega (arith, row_fits s (shape.num_blocks * shape.block_size) shape.num_kv_heads h) in
    omega (
      arith,
      row_fits (s * shape.num_kv_heads + head) _ (row_bytes shape eb) last,
      mul_assoc (shape.num_blocks * shape.block_size * shape.num_kv_heads) shape.head_dim eb,
    )

slot_row_eq :
    (shape : KvCacheShape) (h head s : ℕ) (slot : ℤ)
    → h < shape.num_kv_heads
    → head < shape.num_kv_heads
    → slot_row shape h slot ≡ some (s * shape.num_kv_heads + head)
    → (slot ≡ pos s) × (h ≡ head)
slot_row_eq shape h head s (negsuc n) hh hd e = absurd (cc)
slot_row_eq shape h head s (pos t) hh hd e =
    elim (Bool-cases (leb shape.num_blocks (t / shape.block_size))) [
      | inl out ↦ absurd (ground arith)
      | inr within ↦
          let parts = row_index_unique t s h head shape.num_kv_heads hh hd (ground arith) in
          (ap pos parts.0, parts.1)
    ]

module _ (shape : KvCacheShape) (eb : ℕ) (slots : List ℤ) (src : List ℕ) (num_tokens : ℕ)
    (layer : List ℕ) (sized : length layer ≡ kv_layer_elements shape * eb) where
  stored :
      (token head s : ℕ)
      → token < num_tokens
      → head < shape.num_kv_heads
      → s < shape.num_blocks * shape.block_size
      → get_or slots token minus_one ≡ pos s
      → dest shape slots (token * shape.num_kv_heads + head) ≡ some (s * shape.num_kv_heads + head)
  stored token head s ht hh hs e =
      let parts = row_parts token head shape.num_kv_heads hh in
      rw (parts.0, parts.1, e, lt→leb_false _ _ (div_lt s shape.block_size shape.num_blocks hs))

  -- After `kv_append_kernel` on a layer of the right size, the row of a token's slot and a head is
  -- the token's row for that head, if the slot lies in the storage and no other token has it.
  pub kv_append_stores :
      (token head s : ℕ)
      → token < num_tokens
      → head < shape.num_kv_heads
      → s < shape.num_blocks * shape.block_size
      → get_or slots token minus_one ≡ pos s
      → ((t : ℕ) → t < num_tokens → get_or slots t minus_one ≡ pos s → t ≡ token)
      → layer_row shape eb
          (kv_append_kernel shape eb slots src num_tokens layer)
          (s * shape.num_kv_heads + head)
        ≡ layer_row shape eb src (token * shape.num_kv_heads + head)
  unfolding kv_append_kernel
  kv_append_stores token head s ht hh hs e only =
      append_rows_self shape eb slots src 0 (num_tokens * shape.num_kv_heads)
        (token * shape.num_kv_heads + head) (s * shape.num_kv_heads + head) layer (omega arith)
        (omega (arith, row_fits token num_tokens shape.num_kv_heads ht))
        (stored token head s ht hh hs e)
        (λ k _ below e'.
          let parts =
            slot_row_eq shape (k % shape.num_kv_heads) head s _ (mod-lt k (omega arith)) hh e' in
          let t =
            only (k / shape.num_kv_heads) (div_lt k shape.num_kv_heads num_tokens (omega arith))
              parts.0 in
          sym (div-add-mod k shape.num_kv_heads)
          ∙ ap₂ (λ a b. shape.num_kv_heads * a + b) t parts.1
          ∙ ap (λ a. a + head) (mul_comm shape.num_kv_heads token))
        (omega (arith, row_of_slot_fits shape eb s head hs hh))

module _ (shape : KvCacheShape) (eb : ℕ) (slots : List ℤ) (src : List ℕ) (num_tokens : ℕ)
    (layer : List ℕ) where
  -- `kv_append_kernel` leaves the rows of a slot that no token names as they were.
  pub kv_append_keeps :
      (head s : ℕ)
      → head < shape.num_kv_heads
      → ((t : ℕ) → t < num_tokens → get_or slots t minus_one ≢ pos s)
      → layer_row shape eb
          (kv_append_kernel shape eb slots src num_tokens layer)
          (s * shape.num_kv_heads + head)
        ≡ layer_row shape eb layer (s * shape.num_kv_heads + head)
  unfolding kv_append_kernel
  kv_append_keeps head s hh unnamed =
      append_rows_other shape eb slots src 0 (num_tokens * shape.num_kv_heads)
        (s * shape.num_kv_heads + head) layer
        (λ k _ below e'.
          unnamed (k / shape.num_kv_heads) (div_lt k shape.num_kv_heads num_tokens (omega arith))
            (slot_row_eq shape (k % shape.num_kv_heads) head s _ (mod-lt k (omega arith)) hh e').0)

pub length-kv_append_kernel :
    (shape : KvCacheShape) (eb : ℕ) (slots : List ℤ) (src : List ℕ) (n : ℕ) (layer : List ℕ)
    → length (kv_append_kernel shape eb slots src n layer) ≡ length layer
unfolding kv_append_kernel
length-kv_append_kernel shape eb slots src n layer =
    length-append_rows shape eb slots src 0 (n * shape.num_kv_heads) layer
