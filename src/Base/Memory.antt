-- ===== src/Base/Memory.antt =====
-- Blocks of memory as lists of bytes: `memcpy` into and out of a block, and where two such copies
-- do not meet.
use Prim.Native.Nat.{ℕ, zero, suc, ◌+◌, ◌≤◌}
use mathlib.Core.Path.{◌≡◌, refl, ap}
use mathlib.Core.List.{List, [], ◌∷◌}
use native.Mathlib.Omega.{arith}
use hq_platform.Base.Lists.{length, take, drop, get_elem?}

module _ {ℓ} {A : Type ℓ} where
  -- `memcpy (dst + off, src, length src)`: what would fall outside the block is dropped.
  unfoldable pub blit : List A → ℕ → List A → List A
  blit [] off src = []
  blit (d ∷ dst) (suc off) src = d ∷ blit dst off src
  blit (d ∷ dst) zero [] = d ∷ dst
  blit (d ∷ dst) zero (s ∷ src) = s ∷ blit dst zero src

  -- The `n` bytes from `src + off`.
  unfoldable pub slice : List A → ℕ → ℕ → List A
  slice src off n = take n (drop off src)

  pub length-blit : (dst : List A) (off : ℕ) (src : List A) → length (blit dst off src) ≡ length dst
  unfolding blit
  length-blit [] off src = refl
  length-blit (d ∷ dst) (suc off) src = ap suc (length-blit dst off src)
  length-blit (d ∷ dst) zero [] = refl
  length-blit (d ∷ dst) zero (s ∷ src) = ap suc (length-blit dst zero src)

  -- What was copied in is read back.
  pub slice-blit_self :
      (dst : List A) (off : ℕ) (src : List A)
      → off + length src ≤ length dst
      → slice (blit dst off src) off (length src) ≡ src
  unfolding blit slice
  slice-blit_self [] zero [] h = refl
  slice-blit_self [] zero (s ∷ src) h = absurd (omega arith)
  slice-blit_self [] (suc off) src h = absurd (omega arith)
  slice-blit_self (d ∷ dst) (suc off) src h = slice-blit_self dst off src (omega arith)
  slice-blit_self (d ∷ dst) zero [] h = refl
  slice-blit_self (d ∷ dst) zero (s ∷ src) h =
      ap (◌∷◌ s) (slice-blit_self dst zero src (omega arith))

  -- A copy leaves the bytes before it alone.
  pub slice-blit_before :
      (dst : List A) (off : ℕ) (src : List A) (from n : ℕ)
      → from + n ≤ off
      → slice (blit dst off src) from n ≡ slice dst from n
  unfolding blit slice
  slice-blit_before [] off src from n h = refl
  slice-blit_before (d ∷ dst) zero src zero zero h = refl
  slice-blit_before (d ∷ dst) zero src zero (suc n) h = absurd (omega arith)
  slice-blit_before (d ∷ dst) zero src (suc from) n h = absurd (omega arith)
  slice-blit_before (d ∷ dst) (suc off) src zero zero h = refl
  slice-blit_before (d ∷ dst) (suc off) src zero (suc n) h =
      ap (◌∷◌ d) (slice-blit_before dst off src zero n (omega arith))
  slice-blit_before (d ∷ dst) (suc off) src (suc from) n h =
      slice-blit_before dst off src from n (omega arith)

  -- And those behind it.
  pub slice-blit_behind :
      (dst : List A) (off : ℕ) (src : List A) (from n : ℕ)
      → off + length src ≤ from
      → slice (blit dst off src) from n ≡ slice dst from n
  unfolding blit slice
  slice-blit_behind [] off src from n h = refl
  slice-blit_behind (d ∷ dst) (suc off) src zero n h = absurd (omega arith)
  slice-blit_behind (d ∷ dst) (suc off) src (suc from) n h =
      slice-blit_behind dst off src from n (omega arith)
  slice-blit_behind (d ∷ dst) zero [] from n h = refl
  slice-blit_behind (d ∷ dst) zero (s ∷ src) zero n h = absurd (omega arith)
  slice-blit_behind (d ∷ dst) zero (s ∷ src) (suc from) n h =
      slice-blit_behind dst zero src from n (omega arith)

  pub get_elem?-blit_behind :
      (dst : List A) (off : ℕ) (src : List A) (i : ℕ)
      → off + length src ≤ i
      → get_elem? (blit dst off src) i ≡ get_elem? dst i
  unfolding blit
  get_elem?-blit_behind [] off src i h = refl
  get_elem?-blit_behind (d ∷ dst) (suc off) src zero h = absurd (omega arith)
  get_elem?-blit_behind (d ∷ dst) (suc off) src (suc i) h =
      get_elem?-blit_behind dst off src i (omega arith)
  get_elem?-blit_behind (d ∷ dst) zero [] i h = refl
  get_elem?-blit_behind (d ∷ dst) zero (s ∷ src) zero h = absurd (omega arith)
  get_elem?-blit_behind (d ∷ dst) zero (s ∷ src) (suc i) h =
      get_elem?-blit_behind dst zero src i (omega arith)
