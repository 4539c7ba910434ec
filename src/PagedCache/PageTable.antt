-- ===== src/PagedCache/PageTable.antt =====
-- The lookups of the paged kernels: src/backends/paged/page_table.cuh. An entry is read from the flat
-- table at the index that the code computes.
use sci_compute_attention.Base.{
  ℕ, ◌+◌, ◌*◌, ◌/◌, ◌<◌, ◌≡◌, refl, lt→leb_false, ◌%◌, List, ℤ, pos, negsuc, minus_one, leb,
  if◌then◌else◌, get_or,
}

pub page_table_lookup : List ℤ → ℕ → ℕ → ℕ → ℕ → ℤ
page_table_lookup page_table seq_id token_index block_size max_blocks_per_seq =
    let logical_block = token_index / block_size in
    if leb max_blocks_per_seq logical_block
    then minus_one
    else get_or page_table (seq_id * max_blocks_per_seq + logical_block) minus_one

-- The row of a token whose block the lookup gave.
row_in_block : ℤ → ℕ → ℕ → ℕ → ℤ
row_in_block (negsuc n) token_index block_size num_kv_blocks = minus_one
row_in_block (pos physical) token_index block_size num_kv_blocks =
    if leb num_kv_blocks physical
    then minus_one
    else pos (physical * block_size + token_index % block_size)

pub page_table_row : List ℤ → ℕ → ℕ → ℕ → ℕ → ℕ → ℤ
unfolding row_in_block
page_table_row page_table seq_id token_index block_size max_blocks_per_seq num_kv_blocks =
    row_in_block (page_table_lookup page_table seq_id token_index block_size max_blocks_per_seq)
      token_index block_size num_kv_blocks

-- A token whose block stands in the table is found.
pub page_table_row_lem :
    (page_table : List ℤ) (s token block_size width num_blocks block : ℕ)
    → token / block_size < width
    → get_or page_table (s * width + token / block_size) minus_one ≡ pos block
    → block < num_blocks
    → page_table_row page_table s token block_size width num_blocks
      ≡ pos (block * block_size + token % block_size)
unfolding page_table_row page_table_lookup row_in_block
page_table_row_lem page_table s token block_size width num_blocks block logical entry below =
    rw
      (
        lt→leb_false (token / block_size) width logical,
        entry,
        row_in_block,
        lt→leb_false block num_blocks below,
      )
      refl
