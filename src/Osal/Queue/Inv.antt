-- ===== src/Osal/Queue/Inv.antt =====
-- The representation invariant of `struct osal_queue_internal`.
use native.Mathlib.Nat.{mod-add-mod, mod-lt, mod-eq_of_lt}
use hq_platform.Base.{
  ℕ, ◌+◌, ◌-◌, ◌*◌, ◌%◌, ◌^◌, ◌≤◌, ◌<◌, ◌≡◌, ◌≢◌, ap, ◌∙◌, List, [], ◌∷◌, arith, length,
  length-blit, Bool-cases, inl, inr,
}
use hq_platform.Osal.Queue.{
  Queue, Item, Op, put, get, enqueue, dequeue, apply, apply_all, add_u32, dec_u32, mul_size,
  is_full, is_empty,
}

pub record IsValid (q : Queue) : Type 0 where
  pub some_item : 0 < q.max_items
  pub some_size : 0 < q.item_size
  pub few_items : q.max_items < 2 ^ 32
  pub storage : length q.buffer ≡ q.max_items * q.item_size
  pub small : q.max_items * q.item_size < 2 ^ 64
  pub head_in : q.head < q.max_items
  pub count_in : q.count ≤ q.max_items
  pub tail_at : q.tail ≡ (q.head + q.count) % q.max_items

pub tail_in : {q : Queue} → IsValid q → q.tail < q.max_items
tail_in {q} v = grind (arith, v.tail_at, mod-lt)

-- The slot with index `i` lies in the block.
pub slot_in : (i n size : ℕ) → i < n → i * size + size ≤ n * size
slot_in i n size h = grind arith

pub slots_apart : (i j size : ℕ) → i < j → i * size + size ≤ j * size
slots_apart i j size h = grind arith

-- No `size_t` offset wraps.
pub offset-eq :
    {q : Queue} (i : ℕ) → IsValid q → i < q.max_items → mul_size i q.item_size ≡ i * q.item_size
offset-eq {q} i v h =
    mod-eq_of_lt (omega (arith, slot_in i q.max_items q.item_size h, v.small, v.some_size))

-- On a valid queue the slots used by the next send and the next receive lie inside the block, with
-- the products computed in `size_t`.
pub in_bounds :
    {q : Queue}
    → IsValid q
    → (mul_size q.tail q.item_size + q.item_size ≤ length q.buffer)
      × (mul_size q.head q.item_size + q.item_size ≤ length q.buffer)
in_bounds {q} v = (
  omega (
    arith,
    offset-eq q.tail v (tail_in v),
    slot_in q.tail q.max_items q.item_size (tail_in v),
    v.storage,
  ),
  omega (
    arith,
    offset-eq q.head v v.head_in,
    slot_in q.head q.max_items q.item_size v.head_in,
    v.storage,
  ),
)

pub next_index : (i n : ℕ) → i < n → n < 2 ^ 32 → add_u32 i 1 % n ≡ (i + 1) % n
next_index i n h k = ap (λ m. m % n) (omega arith)

tail_step : (h c n : ℕ) → ((h + c) % n + 1) % n ≡ (h + (c + 1)) % n
tail_step h c n = rw mod-add-mod (ap (λ m. m % n) (omega arith))

dequeue_step : (h c n : ℕ) → c ≢ 0 → (h + c) % n ≡ ((h + 1) % n + (c - 1)) % n
dequeue_step h c n k = rw mod-add-mod (ap (λ m. m % n) (omega arith))

tail_next :
    (t h c n : ℕ)
    → t ≡ (h + c) % n
    → t < n
    → c < n
    → n < 2 ^ 32
    → add_u32 t 1 % n ≡ (h + add_u32 c 1) % n
tail_next t h c n e lt room small =
    let below : add_u32 c 1 ≡ c + 1 = omega arith in
    rw (next_index t n lt small, below, e) (tail_step h c n)

tail_kept :
    (h c n : ℕ)
    → h < n
    → c ≢ 0
    → c ≤ n
    → n < 2 ^ 32
    → (h + c) % n ≡ (add_u32 h 1 % n + dec_u32 c) % n
tail_kept h c n lt some_left le small =
    let below : dec_u32 c ≡ c - 1 = omega arith in
    rw (next_index h n lt small, below) (dequeue_step h c n some_left)

-- A send keeps the invariant.
pub enqueue-IsValid :
    {q : Queue} (item : Item) → IsValid q → q.count ≢ q.max_items → IsValid (enqueue q item)
unfolding enqueue
enqueue-IsValid {q} item v h = record {
  some_item = v.some_item;
  some_size = v.some_size;
  few_items = v.few_items;
  storage = length-blit q.buffer _ _ ∙ v.storage;
  small = v.small;
  head_in = v.head_in;
  count_in = omega arith;
  tail_at =
      tail_next q.tail q.head q.count q.max_items v.tail_at (tail_in v) (omega arith) v.few_items;
}

-- So does a receive.
pub dequeue-IsValid : {q : Queue} → IsValid q → q.count ≢ 0 → IsValid (dequeue q).1
unfolding dequeue
dequeue-IsValid {q} v h = record {
  some_item = v.some_item;
  some_size = v.some_size;
  few_items = v.few_items;
  storage = v.storage;
  small = v.small;
  head_in = mod-lt _ v.some_item;
  count_in = omega arith;
  tail_at = v.tail_at ∙ tail_kept q.head q.count q.max_items v.head_in h v.count_in v.few_items;
}

pub apply-IsValid : {q : Queue} (op : Op) → IsValid q → IsValid (apply q op)
unfolding apply
apply-IsValid {q} (put item) v = elim (Bool-cases (is_full q)) [
  | inl full ↦ rw full v
  | inr room ↦ rw room (enqueue-IsValid item v (ground arith))
]
apply-IsValid {q} get v = elim (Bool-cases (is_empty q)) [
  | inl none ↦ rw none v
  | inr some ↦ rw some (dequeue-IsValid v (ground arith))
]

-- Every sequence of puts and gets by other threads leaves a valid queue valid.
pub apply_all-IsValid : (ops : List Op) {q : Queue} → IsValid q → IsValid (apply_all q ops)
unfolding apply_all
apply_all-IsValid [] v = v
apply_all-IsValid (op ∷ ops) v = apply_all-IsValid ops (apply-IsValid op v)
