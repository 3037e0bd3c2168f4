-- ===== src/Osal/Esp/Timer/Placement.antt =====
-- Where src/osal/esp/osal_timer_impl.c puts its part of a timer.
use hq_platform.Base.{
  ℕ, ◌+◌, ◌%◌, ◌^◌, ◌≤◌, ◌<◌, ◌≡◌, refl, ◌⊎◌, inl, inr, false, leb, Option, none, some, arith,
  Bool-cases,
}
use hq_platform.Osal.Esp.Timer.{Sizes, meta_create, behind}

-- In a block of the caller that is large enough for the timer of FreeRTOS and does not reach the
-- end of the memory, the structure of the ESP timer lies behind that timer, at a multiple of 4 and
-- within the block; or the block has less than 3 bytes more than the two need, and the structure
-- comes from the heap.
pub meta_create-within :
    (sizes : Sizes) (block : Option ℕ) (base stack_size : ℕ)
    → sizes.static_timer ≤ stack_size
    → base + stack_size + sizes.meta + 3 < 2 ^ 32
    → ((meta_create sizes block (some base) stack_size ≡ some (behind sizes base, false))
        × (base + sizes.static_timer ≤ behind sizes base)
        × (behind sizes base + sizes.meta ≤ base + stack_size)
        × (behind sizes base % 4 ≡ 0))
      ⊎ ((meta_create sizes block (some base) stack_size ≡ meta_create sizes block none stack_size)
          × (stack_size < sizes.static_timer + sizes.meta + 3))
unfolding meta_create
meta_create-within sizes block base stack_size large h =
    let at = behind sizes base in
    let low : base + sizes.static_timer ≤ at = omega arith in
    let round : at % 4 ≡ 0 = omega arith in
    let high : at ≤ base + sizes.static_timer + 3 = omega arith in
    let end : (at + sizes.meta) % 2 ^ 32 ≡ at + sizes.meta = omega arith in
    let top : (base + stack_size) % 2 ^ 32 ≡ base + stack_size = omega arith in
    elim (Bool-cases (leb ((at + sizes.meta) % 2 ^ 32) ((base + stack_size) % 2 ^ 32))) [
      | inl fits ↦ inl (rw fits refl, low, ground arith, round)
      | inr beyond ↦ inr (rw beyond refl, ground arith)
    ]
