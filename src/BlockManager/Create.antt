-- ===== src/BlockManager/Create.antt =====
-- `BlockManager::Create`: the state that it returns.
use sci_compute_attention.Base.{
  ℕ, zero, suc, ◌+◌, ◌*◌, ◌<◌, ◌≤◌, ◌%◌, ◌^◌, ◌≡◌, refl, ap₂, true, false, List, [], ◌∷◌, arith,
  minus_one, ltb, if◌then◌else◌, length, get_elem?, replicate, count, length-replicate,
  get_or-replicate, some,
}
use sci_compute_attention.Rows.{row_of}
use sci_compute_attention.Rows.Laws.{padded}
use sci_compute_attention.Status.{ok}
use sci_compute_attention.BlockManager.{BlockManager, create, push_blocks, num_free_blocks}
use sci_compute_attention.BlockManager.Invariant.{IsValid, free_weight, num_marked}
use sci_compute_attention.BlockManager.Table.{Holds}
use sci_compute_attention.BlockManager.Mirror.{IsMirrored}

count-push_blocks :
    (b n : ℕ) (fs : List ℕ)
    → n ≤ 2 ^ 31
    → count b (push_blocks n fs) ≡ (if ltb b n then 1 else 0) + count b fs
unfolding push_blocks
count-push_blocks b zero fs small = ground arith
count-push_blocks b (suc n) fs small =
    let same : n % 2 ^ 32 ≡ n = omega arith in
    rw same (ground (arith, count-push_blocks b n (n ∷ fs) (omega arith)))

length-push_blocks : (n : ℕ) (fs : List ℕ) → length (push_blocks n fs) ≡ n + length fs
unfolding push_blocks
length-push_blocks zero fs = omega arith
length-push_blocks (suc n) fs = omega (arith, length-push_blocks n (n % 2 ^ 32 ∷ fs))

weight-replicate :
    (n b : ℕ) → free_weight (get_elem? (replicate n false) b) ≡ (if ltb b n then 1 else 0)
weight-replicate zero b = ground arith
weight-replicate (suc n) zero = ground arith
weight-replicate (suc n) (suc b) = ground (arith, weight-replicate n b)

num_marked-replicate : (n : ℕ) → num_marked (replicate n false) ≡ 0
num_marked-replicate zero = refl
num_marked-replicate (suc n) = num_marked-replicate n

pub row_of-replicate : (k start n : ℕ) → row_of (replicate k minus_one) start n ≡ padded n []
unfolding row_of
row_of-replicate k start zero = refl
row_of-replicate k start (suc n) =
    ap₂ ◌∷◌ (get_or-replicate k start minus_one) (row_of-replicate k (suc start) n)

-- A fresh manager: valid, all blocks free, every sequence without blocks, the mirror in step.
pub record IsFresh (num_blocks max_num_seqs max_blocks_per_seq : ℕ) (m : BlockManager)
    : Type 0 where
  pub valid : IsValid m
  pub holds : Holds m.table (λ s. [])
  pub mirrored : IsMirrored m.table
  pub all_free : num_free_blocks m ≡ num_blocks
  pub total : m.num_blocks ≡ num_blocks
  pub unmarked : m.in_use ≡ replicate num_blocks false
  pub seqs : m.table.max_num_seqs ≡ max_num_seqs
  pub width : m.table.max_blocks_per_seq ≡ max_blocks_per_seq

-- `Create` with positive sizes, at most 2^31 blocks and a page table that could be allocated returns a fresh manager.
pub create-IsFresh :
    (n seqs width : ℕ)
    → 0 < n
    → n ≤ 2 ^ 31
    → 0 < seqs
    → 0 < width
    → (m : BlockManager) × (create n seqs width true ≡ ok m) × IsFresh n seqs width m
unfolding create num_free_blocks
create-IsFresh n seqs width hn small hs hw =
    let table = replicate (seqs * width) minus_one in
    (
      record {
        num_blocks = n;
        free_list = push_blocks n [];
        in_use = replicate n false;
        table = record {
          host = table;
          device = some table;
          revision = 0;
          synced_revision = 0;
          max_num_seqs = seqs;
          max_blocks_per_seq = width;
        };
        allocation_failures = 0;
        double_free_events = 0;
      },
      ground arith,
      record {
        valid = record {
          sized = length-replicate n false;
          matches = λ b. omega (arith, count-push_blocks b n [] small, weight-replicate n b);
          all_counted = omega (arith, length-push_blocks n [], num_marked-replicate n);
        };
        holds = record {
          sized = length-replicate (seqs * width) minus_one;
          rows = λ s h. record {
            fits = omega arith;
            row = row_of-replicate (seqs * width) (s * width) width;
          };
        };
        mirrored = record { behind = omega arith; current = λ e. refl };
        all_free = omega (arith, length-push_blocks n []);
        total = refl;
        unmarked = refl;
        seqs = refl;
        width = refl;
      },
    )

-- Without a page table there is no manager.
pub create_unallocated :
    (n seqs width : ℕ) (m : BlockManager) (P : Type 0) → create n seqs width false ≡ ok m → P
unfolding create
create_unallocated n seqs width m P h = ground arith
