-- ===== src/Lib.antt =====
-- SciCompute-Attention: an attention runtime with a paged KV cache.
--
-- A call goes through `Validate` (src/api/api_validate.cpp) and `AttentionDispatcher`
-- (src/runtime/dispatcher.cpp), which picks one of five backends (src/backends). A backend checks the call
-- again, takes scratch memory from a pool (src/runtime/scratch_pool.cpp), allocates the output and launches
-- its kernels. Callers cut memory of their own from a `Workspace` (src/runtime/workspace.cpp).
--
-- A request's keys and values live in fixed-size blocks. `BlockManager` (src/kv_cache/block_manager.cpp)
-- hands blocks out and keeps a table of the blocks of each sequence; `KVCache` (src/kv_cache/kv_cache.cpp,
-- with the kernels of kv_cache_kernels.cu and the layout of kv_cache_layout.cuh) stores the bytes;
-- `PagedKVCache` (src/kv_cache/paged_kv_cache.cpp) drives both for many sequences, and the paged kernels
-- find a token again by the lookup of src/backends/paged/page_table.cuh.
--
-- Files:
--   Base, Base/*          shared names, tests, lists and a sentinel integer
--   Types, Tensor, Status the data of include/scicompute_attention and of the tensor library, and results
--   Bytes, Rows           copies in a byte buffer; the rows of a flat page table
--   BlockManager, */      Create, Allocate, Free, AppendToTable, ResetSeq, SyncTableToDevice
--   KvCache               configuration, sizes, ComputeSlotMapping
--   KvCache/Kernels, */   kv_append_kernel, kv_reset_kernel, kv_gather_kernel
--   KvCache/Storage, */   KVCache: Create, Append, Gather, Reset
--   PagedCache, */        PagedKVCache: Create, AppendTokens, ResetSeq, syncs, Stats; PageTable: the lookup
--   Config, */            AttentionConfig, EffectiveScale, Validate, RecommendTile, ValidateVarlenHost
--   Dispatcher, */        GetBackend, InferShape, Select, Forward over the interface IAttentionBackend, and
--                         the entry points of src/api/attention_api.cpp
--   Workspace, */         Create, Slice, Reset
--   Layout, */            strides and offsets of include/scicompute_attention/detail/layout_traits.hpp
--   ScratchPool, */       src/runtime/scratch_pool.cpp
--   Capability, */        src/runtime/capability.cpp
--   Backends              what the backends of src/backends share, a kernel launch (src/runtime/launcher.cu)
--                         and the result of a call
--   Backends/Launchers, */  the launch functions of the naive, tiled, flash, decode and paged kernels
--   Backends/Naive, Tiled, Flash, Decode, Paged, */  Supports, WorkspaceBytes, Forward and the entry points
--   Backends/Varlen, */   ForwardVarlen of the flash backend
--   Backends/Dispatch, */ the backends as the dispatcher sees them
--   Backends/Decode/Splits, Softmax, Kernel, */  decode_partial_kernel and decode_reduce_kernel
--   Backends/Naive/Kernel, */  the three kernels of attention_naive.cu
--   Backends/Tiled/Kernel, */  the kernel of attention_tiled.cu, for a row
-- Functions keep their names in snake case; a function that returns a status and changes its object
-- returns the pair of both.
--
-- Conventions. Extents, sizes and counts are natural numbers: negative ones are outside the model, and a
-- guard `<= 0` is a test for 0. Ids, slots and offsets of packed sequences, where a sentinel or a sign
-- test exists, are integers. A pointer that may be null is an Option, a vector a list; the back of the
-- free list is the head. What the device answers (allocations, how a launch ends, free memory, fresh
-- buffer contents) is an argument of the call. Copies are taken as completed, and streams are left out.
-- A grid-stride kernel visits every index once, and the model does so in ascending order on one buffer.
-- Products that make sizes of storage and of scratch buffers wrap (mul64), those of strides and indices
-- are taken without overflow; a revision counter wraps (next_revision), an address of a packed sequence
-- wraps, and a slot and a block id are cast to 32 bits (to_int32, push_blocks). The factor 0.8 of the
-- free memory is exact. All loops are structural recursion on the number of turns left, so no fuel is
-- used.
--
-- A float is its class and parts, since the host only tests signs. The backends behind the interface are
-- a parameter of the dispatcher, which Backends/Dispatch fills in. What the machine answers in one call
-- (allocations, addresses, launches, the limits of the device) is the record Env. In the decode,
-- naive and tiled kernels the floats are a parameter with the operations that the kernels use, and the laws
-- of real arithmetic with -inf are the hypotheses of the record IsExact; rounding is outside the model.
--
-- Not modelled: texts of messages; the kernels of the flash backend, whose tensor-core fragments and
-- shared-memory pipelines have no counterpart here; the log-sum-exp of the naive and tiled kernels; the
-- cache of kernel attributes; tests, benchmarks, bindings and tools.
pub mod Base
pub mod Types
pub mod Tensor
pub mod Status
pub mod Bytes
pub mod Rows
pub mod BlockManager
pub mod KvCache
pub mod PagedCache
pub mod Workspace
pub mod Config
pub mod Dispatcher
pub mod Layout
pub mod ScratchPool
pub mod Capability
pub mod Backends
