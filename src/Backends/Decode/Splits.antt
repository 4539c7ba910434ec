-- ===== src/Backends/Decode/Splits.antt =====
-- The index arithmetic of src/backends/decode/decode_splitk.cu: the request that a warp works on, and the
-- range of tokens of a split.
use native.Mathlib.Nat.{div-div-eq-div-mul}
use sci_compute_attention.Base.{
  ℕ, ◌+◌, ◌-◌, ◌*◌, ◌/◌, ◌%◌, ◌≤◌, ◌<◌, ◌≡◌, ◌∙◌, min, sym, ap, refl, arith, ltb, if◌then◌else◌,
}

pub chunk : ℕ → ℕ → ℕ
chunk seq_len splits = (seq_len + splits - 1) / splits

pub split_begin : ℕ → ℕ → ℕ → ℕ
unfolding chunk
split_begin seq_len splits s = s * chunk seq_len splits

pub split_end : ℕ → ℕ → ℕ → ℕ
unfolding chunk split_begin
split_end seq_len splits s =
    let j_begin = split_begin seq_len splits s in
    if ltb (j_begin + chunk seq_len splits) seq_len then j_begin + chunk seq_len splits else seq_len

-- The split, the head and the batch of a warp.
pub split_of : ℕ → ℕ → ℕ
split_of splits flat = flat % splits

pub head_of : ℕ → ℕ → ℕ → ℕ
head_of splits heads flat = flat / splits % heads

pub batch_of : ℕ → ℕ → ℕ → ℕ
batch_of splits heads flat = flat / (splits * heads)

pub div_lem : (x n s : ℕ) → s < n → (x * n + s) / n ≡ x
div_lem x n s h = grind arith

pub mod_lem : (x n s : ℕ) → s < n → (x * n + s) % n ≡ s
mod_lem x n s h = grind arith

-- The warp of a request.
abbrev pub warp_of : ℕ → ℕ → ℕ → ℕ → ℕ → ℕ
warp_of splits heads b h s = (b * heads + h) * splits + s

-- Every warp below batch * heads * splits works on the request that its number encodes.
pub warp_of_lem :
    (splits heads b h s : ℕ)
    → s < splits
    → h < heads
    → (split_of splits (warp_of splits heads b h s) ≡ s)
      × (head_of splits heads (warp_of splits heads b h s) ≡ h)
      × (batch_of splits heads (warp_of splits heads b h s) ≡ b)
unfolding split_of head_of batch_of
warp_of_lem splits heads b h s hs hh =
    let whole = div_lem (b * heads + h) splits s hs in
    (
      mod_lem (b * heads + h) splits s hs,
      ap (λ x. x % heads) whole ∙ mod_lem b heads h hh,
      sym (div-div-eq-div-mul (warp_of splits heads b h s) splits heads)
          ∙ ap (λ x. x / heads) whole
          ∙ div_lem b heads h hh,
    )

pub chunk_covers : (n splits : ℕ) → 0 < splits → n ≤ splits * chunk n splits
unfolding chunk
chunk_covers n splits some = grind arith

-- The splits partition the tokens: a token lies in the range of exactly one split.
pub split_unique :
    (n splits j : ℕ)
    → 0 < splits
    → j < n
    → (s : ℕ) × (s < splits)
      × (split_begin n splits s ≤ j)
      × (j < split_end n splits s)
      × ((t : ℕ) → split_begin n splits t ≤ j → j < split_end n splits t → t ≡ s)
unfolding split_begin split_end
split_unique n splits j some below =
    let c = chunk n splits in
    let covers = chunk_covers n splits some in
    let wide : 0 < c = grind arith in
    let s = j / c in
    let low : s * c ≤ j = grind arith in
    let high : j < s * c + c = grind arith in
    (
      s,
      grind arith,
      low,
      ground (arith, high, below),
      λ t from to. let upto : j < t * c + c = ground (arith, to) in grind arith,
    )

-- Where the range of a split starts, and how many tokens it has.
pub split_range :
    (n splits s : ℕ)
    → (split_begin n splits s ≡ s * chunk n splits)
      × (split_end n splits s - split_begin n splits s
          ≡ min (chunk n splits) (n - s * chunk n splits))
unfolding split_begin split_end
split_range n splits s = (refl, ground arith)
