-- ===== src/Osal/Queue/Items.antt =====
-- The items that a queue holds, read off its block of bytes from the head on, and what the two
-- copies do to them.
use native.Mathlib.Nat.{mod-add-mod, mod-eq_of_lt, mod-eq-sub-mod, add-zero}
use native.Mathlib.Decide.{dec_lt}
use hq_platform.Base.{
  ℕ, zero, suc, ◌+◌, ◌-◌, ◌*◌, ◌%◌, ◌^◌, ◌≤◌, ◌<◌, ◌≡◌, ◌≢◌, refl, sym, ap, ap₂, subst, ◌∙◌, List,
  [], ◌∷◌, ◌++◌, arith, length, take, take_all, blit, slice, slice-blit_self, slice-blit_before,
  slice-blit_behind,
}
use hq_platform.Osal.Queue.{Queue, Item, enqueue, dequeue, mul_size, add_u32, dec_u32}
use hq_platform.Osal.Queue.Inv.{IsValid, offset-eq, tail_in, slot_in, slots_apart, next_index}

module _ (buffer : List ℕ) (size n : ℕ) where
  -- the `k` items from index `h` on, going round at `n`
  abbrev pub window : ℕ → ℕ → List Item
  window h zero = []
  window h (suc k) = slice buffer (h * size) size ∷ window ((h + 1) % n) k

  pub length-window : (h k : ℕ) → length (window h k) ≡ k
  length-window h zero = refl
  length-window h (suc k) = ap suc (length-window ((h + 1) % n) k)

  pub window_of_ne_zero :
      (h k : ℕ) → k ≢ 0 → window h k ≡ slice buffer (h * size) size ∷ window ((h + 1) % n) (k - 1)
  window_of_ne_zero h zero p = absurd (p refl)
  window_of_ne_zero h (suc k) p = ap (λ m. window h (suc m)) (omega arith)

abbrev pub contents : Queue → List Item
contents q = window q.buffer q.item_size q.max_items q.head q.count

pub length-contents : (q : Queue) → length (contents q) ≡ q.count
length-contents q = length-window q.buffer q.item_size q.max_items q.head q.count

-- Fewer than `n` steps round the ring do not come back to the start.
around : {n h k : ℕ} → h < n → suc k < n → (h + suc k) % n ≢ h
around {n} {h} {k} hh hk = elim (dec_lt (h + suc k) n) [
  | yes p ↦ omega (arith, mod-eq_of_lt p)
  | no p ↦ omega (
    arith,
    mod-eq-sub-mod {n = h + suc k} {m = n} (omega arith),
    mod-eq_of_lt {n = h + suc k - n} {m = n} (omega arith),
  )
]

slot_kept :
    (b : List ℕ) (i j : ℕ) (x : Item)
    → i ≢ j
    → slice (blit b (i * length x) x) (j * length x) (length x) ≡ slice b (j * length x) (length x)
slot_kept b i j x h = elim (dec_lt i j) [
  | yes p ↦
      slice-blit_behind b (i * length x) x (j * length x) (length x) (slots_apart i j (length x) p)
  | no p ↦
      slice-blit_before b (i * length x) x (j * length x) (length x)
        (slots_apart j i (length x) (omega arith))
]

-- A copy into the slot behind a window extends the window by that item.
window-blit :
    (b : List ℕ) (n : ℕ) (x : Item) (k h i : ℕ)
    → n * length x ≤ length b
    → h < n
    → k < n
    → i ≡ (h + k) % n
    → window (blit b (i * length x) x) (length x) n h (suc k) ≡ window b (length x) n h k ++ x ∷ []
window-blit b n x zero h i hs hh hk e = rw (
  e,
  add-zero,
  mod-eq_of_lt hh,
  slice-blit_self b (h * length x) x (omega (arith, slot_in h n (length x) hh)),
)
window-blit b n x (suc k) h i hs hh hk e =
    ap₂ ◌∷◌ (slot_kept b i h x (rw e (around hh hk)))
      (window-blit b n x k ((h + 1) % n) i hs (omega arith) (omega arith) (e ∙ shift))
  where
    shift : (h + suc k) % n ≡ ((h + 1) % n + k) % n
    shift = rw mod-add-mod (ap (λ m. m % n) (omega arith))

-- The same with the arithmetic of the code.
store :
    (b : List ℕ) (n size : ℕ) (x : Item) (k h i : ℕ)
    → size ≡ length x
    → mul_size i size ≡ i * size
    → n * size ≤ length b
    → n < 2 ^ 32
    → h < n
    → k < n
    → i ≡ (h + k) % n
    → window (blit b (mul_size i size) (take size x)) size n h (add_u32 k 1)
      ≡ window b size n h k ++ x ∷ []
store b n size x k h i e off hs small hh hk at =
    let next : add_u32 k 1 ≡ suc k = omega arith in
    let written : blit b (mul_size i size) (take size x) ≡ blit b (i * size) x =
      rw (off, take_all size x (omega arith)) in
    ap (window (blit b (mul_size i size) (take size x)) size n h) next
    ∙ ap (λ d. window d size n h (suc k)) written
    ∙ subst (λ z. window (blit b (i * z) x) z n h (suc k) ≡ window b z n h k ++ x ∷ []) (sym e)
        (window-blit b n x k h i (rw (← e) hs) hh hk at)

pub contents-empty : (q : Queue) → q.count ≡ 0 → contents q ≡ []
contents-empty q e = ap (window q.buffer q.item_size q.max_items q.head) e

-- A send appends its item.
pub contents-enqueue :
    {q : Queue} (item : Item)
    → IsValid q
    → length item ≡ q.item_size
    → q.count ≢ q.max_items
    → contents (enqueue q item) ≡ contents q ++ item ∷ []
unfolding enqueue
contents-enqueue {q} item v e room =
    store q.buffer q.max_items q.item_size item q.count q.head q.tail (sym e)
      (offset-eq q.tail v (tail_in v)) (omega (arith, v.storage)) v.few_items v.head_in
      (omega arith) v.tail_at

-- A receive copies out the oldest item and leaves the others.
pub contents-dequeue :
    {q : Queue} → IsValid q → q.count ≢ 0 → contents q ≡ (dequeue q).0 ∷ contents (dequeue q).1
unfolding dequeue
contents-dequeue {q} v some_left =
    let left : dec_u32 q.count ≡ q.count - 1 = omega (arith, v.count_in, v.few_items) in
    rw (offset-eq q.head v v.head_in, next_index q.head q.max_items v.head_in v.few_items, left)
      (window_of_ne_zero q.buffer q.item_size q.max_items q.head q.count some_left)
