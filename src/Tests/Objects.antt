-- ===== src/Tests/Objects.antt =====
-- Calls of `osal_queue_create`.
use hq_platform.Base.{ℕ, ◌≡◌, refl, true, List, [], ◌∷◌, Option, none, some, arith, ap, sym, length}
use hq_platform.Base.Text.{codes}
use hq_platform.Osal.Status.{success}
use hq_platform.Osal.Queue.{Queue}
use hq_platform.Osal.Queue.Inv.{IsValid}
use hq_platform.Osal.Queue.Items.{contents}
use hq_platform.Osal.Queue.Create
use hq_platform.Osal.Queue.Create.{create-failed, create-delete, create-IsValid}

abbrev all_ok : Create.CreateEnv
all_ok = record {
  block_ok = true;
  storage_bytes = some (0 ∷ 0 ∷ 0 ∷ 0 ∷ []);
  mutex_ok = true;
  not_empty_ok = true;
  not_full_ok = true;
}

abbrev of_some : Option (List ℕ) → List ℕ
of_some none = []
of_some (some bytes) = bytes

abbrev made : Queue
made = record {
  buffer = 0 ∷ 0 ∷ 0 ∷ 0 ∷ [];
  item_size = 2;
  max_items = 2;
  head = 0;
  tail = 0;
  count = 0;
  name = codes "log";
}

create-IsValid_example :
    IsValid made
    × (contents made ≡ [])
    × (made.max_items ≡ 2)
    × (made.item_size ≡ 2)
    × ((Create.create all_ok true (some (codes "log")) 2 2).status ≡ success)
unfolding Create.create
create-IsValid_example =
    create-IsValid all_ok true (some (codes "log")) 2 2 made (omega arith)
      (λ bytes e. ap length (sym (ap of_some e))) refl
