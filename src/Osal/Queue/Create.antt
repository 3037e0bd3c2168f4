-- ===== src/Osal/Queue/Create.antt =====
-- `osal_queue_create` and `osal_queue_delete`: the checks of the arguments, and what each call takes
-- from the system and gives back.
use native.Mathlib.Nat.{mod-eq_of_lt, le-div_iff_mul-le}
use hq_platform.Base.{
  ℕ, ◌*◌, ◌/◌, ◌<◌, ◌≤◌, ◌^◌, ◌≡◌, refl, sym, ◌∙◌, inl, inr, Option-cases, Bool, true, false, List,
  [], ◌∷◌, Option, none, some, arith, length, take, ltb, if◌then◌else◌,
}
use hq_platform.Base.Text.{CString, terminated_within}
use hq_platform.Osal.Status.{
  Status, success, error, invalid_pointer, err_name_too_long, queue_invalid_size, err_invalid_id,
}
use hq_platform.Osal.Resources.{
  Resource, Event, acquire, release, block, storage, mutex, not_empty, not_full, acquired, released,
}
use hq_platform.Osal.Queue.{Queue, max_name_len, mul_size, size_max}
use hq_platform.Osal.Queue.Inv.{IsValid}
use hq_platform.Osal.Queue.Items.{contents}

-- What `malloc` and the `init` calls answer; the second block comes with the bytes it happens to hold.
pub record CreateEnv : Type 0 where
  pub block_ok : Bool
  pub storage_bytes : Option (List ℕ)
  pub mutex_ok : Bool
  pub not_empty_ok : Bool
  pub not_full_ok : Bool

pub record Created : Type 0 where
  pub status : Status
  pub queue : Option Queue
  pub trace : List Event

abbrev refuse : Status → List Event → Created
refuse st es = record { status = st; queue = none; trace = es }

abbrev name_fits : Option CString → Bool
name_fits none = true
name_fits (some name) = terminated_within name max_name_len

-- `memset` to 0, then `strncpy` of all but the last byte
abbrev stored_name : Option CString → CString
stored_name none = []
stored_name (some name) = take 31 name

abbrev fresh : List ℕ → Option CString → ℕ → ℕ → Queue
fresh bytes name max_items item_size = record {
  buffer = bytes;
  item_size = item_size;
  max_items = max_items;
  head = 0;
  tail = 0;
  count = 0;
  name = stored_name name;
}

init_conditions : CreateEnv → Queue → Created
init_conditions env q =
    if env.mutex_ok
    then (if env.not_empty_ok
        then (if env.not_full_ok
            then (record {
              status = success;
              queue = some q;
              trace =
                  acquire block
                  ∷ acquire storage
                  ∷ acquire mutex
                  ∷ acquire not_empty
                  ∷ acquire not_full
                  ∷ [];
            })
            else refuse error (
                acquire block
                ∷ acquire storage
                ∷ acquire mutex
                ∷ acquire not_empty
                ∷ release not_empty
                ∷ release mutex
                ∷ release storage
                ∷ release block
                ∷ []))
        else refuse error (
            acquire block
            ∷ acquire storage
            ∷ acquire mutex
            ∷ release mutex
            ∷ release storage
            ∷ release block
            ∷ []))
    else refuse error (acquire block ∷ acquire storage ∷ release storage ∷ release block ∷ [])

allocate : CreateEnv → Option CString → ℕ → ℕ → Created
unfolding init_conditions
allocate env name max_items item_size =
    if env.block_ok
    then (elim env.storage_bytes [
      | none ↦ refuse error (acquire block ∷ release block ∷ [])
      | some bytes ↦ init_conditions env (fresh bytes name max_items item_size)
    ])
    else refuse error []

-- `osal_queue_create`; the flag is `queue_id != NULL`.
unfoldable pub create : CreateEnv → Bool → Option CString → ℕ → ℕ → Created
unfolding allocate
create env false name max_items item_size = refuse invalid_pointer []
create env true name max_items item_size =
    if name_fits name
    then (if ltb 0 max_items
        then (if ltb 0 item_size
            then (if ltb (size_max / item_size) max_items
                then refuse queue_invalid_size []
                else allocate env name max_items item_size)
            else refuse queue_invalid_size [])
        else refuse queue_invalid_size [])
    else refuse err_name_too_long []

-- Whether each `destroy` call succeeds.
pub record DeleteEnv : Type 0 where
  pub not_empty_ok : Bool
  pub not_full_ok : Bool
  pub mutex_ok : Bool

-- `osal_queue_delete`; the flag is `queue_id != NULL`.
unfoldable pub delete : DeleteEnv → Bool → Status × List Event
delete env false = (invalid_pointer, [])
delete env true =
    if env.not_empty_ok
    then (if env.not_full_ok
        then (if env.mutex_ok
            then (
              success,
              release not_empty
                  ∷ release not_full
                  ∷ release mutex
                  ∷ release storage
                  ∷ release block
                  ∷ [],
            )
            else (err_invalid_id, release not_empty ∷ release not_full ∷ []))
        else (err_invalid_id, release not_empty ∷ []))
    else (err_invalid_id, [])

-- A call of `osal_queue_create` that fails has given back all that it took.
pub create-failed :
    (env : CreateEnv) (id : Bool) (name : Option CString) (max_items item_size : ℕ) (r : Resource)
    → (create env id name max_items item_size).queue ≡ none
    → acquired r (create env id name max_items item_size).trace
      ≡ released r (create env id name max_items item_size).trace
unfolding create
create-failed env false name max_items item_size r h = refl
create-failed env true none max_items item_size r h = ground arith
create-failed env true (some name) max_items item_size r h = ground arith

created_trace :
    (env : CreateEnv) (id : Bool) (name : Option CString) (max_items item_size : ℕ)
    → (create env id name max_items item_size).status ≡ success
    → (create env id name max_items item_size).trace
      ≡ acquire block ∷ acquire storage ∷ acquire mutex ∷ acquire not_empty ∷ acquire not_full ∷ []
unfolding create
created_trace env false name max_items item_size h = ground arith
created_trace env true none max_items item_size h = ground arith
created_trace env true (some name) max_items item_size h = ground arith

deleted_trace :
    (env : DeleteEnv)
    → (delete env true).0 ≡ success
    → (delete env true).1
      ≡ release not_empty ∷ release not_full ∷ release mutex ∷ release storage ∷ release block ∷ []
unfolding delete
deleted_trace env h = ground arith

-- What a call of `osal_queue_create` that succeeds took, a successful `osal_queue_delete` gives
-- back.
pub create-delete :
    (env : CreateEnv) (id : Bool) (name : Option CString) (max_items item_size : ℕ) (r : Resource)
    (denv : DeleteEnv)
    → (create env id name max_items item_size).status ≡ success
    → (delete denv true).0 ≡ success
    → acquired r (create env id name max_items item_size).trace ≡ released r (delete denv true).1
create-delete env id name max_items item_size r denv h k =
    rw (created_trace env id name max_items item_size h, deleted_trace denv k) (same r)
  where
    same :
        (s : Resource)
        → acquired s (
            acquire block
            ∷ acquire storage
            ∷ acquire mutex
            ∷ acquire not_empty
            ∷ acquire not_full
            ∷ [])
          ≡ released s (
              release not_empty
              ∷ release not_full
              ∷ release mutex
              ∷ release storage
              ∷ release block
              ∷ [])
    same block = refl
    same _ = refl

created_queue :
    (env : CreateEnv) (id : Bool) (name : Option CString) (max_items item_size : ℕ) (q : Queue)
    (bytes : List ℕ)
    → env.storage_bytes ≡ some bytes
    → (create env id name max_items item_size).queue ≡ some q
    → (q ≡ fresh bytes name max_items item_size)
      × (0 < max_items)
      × (0 < item_size)
      × (max_items ≤ size_max / item_size)
      × ((create env id name max_items item_size).status ≡ success)
unfolding create
created_queue env false name max_items item_size q bytes e h = ground arith
created_queue env true none max_items item_size q bytes e h = ground arith
created_queue env true (some name) max_items item_size q bytes e h = ground arith

not_created :
    (env : CreateEnv) (id : Bool) (name : Option CString) (max_items item_size : ℕ)
    → env.storage_bytes ≡ none
    → (create env id name max_items item_size).queue ≡ none
unfolding create
not_created env false name max_items item_size e = refl
not_created env true none max_items item_size e = ground arith
not_created env true (some name) max_items item_size e = ground arith

fresh-IsValid :
    (bytes : List ℕ) (name : Option CString) (max_items item_size : ℕ)
    → max_items < 2 ^ 32
    → 0 < max_items
    → 0 < item_size
    → max_items ≤ size_max / item_size
    → length bytes ≡ mul_size max_items item_size
    → IsValid (fresh bytes name max_items item_size)
fresh-IsValid bytes name max_items item_size small h k le room =
    let fits : max_items * item_size < 2 ^ 64 = omega (arith, (le-div_iff_mul-le k).0 le) in
    record {
      some_item = h;
      some_size = k;
      few_items = small;
      storage = room ∙ mod-eq_of_lt fits;
      small = fits;
      head_in = h;
      count_in = omega arith;
      tail_at = sym (mod-eq_of_lt h);
    }

-- A queue that `osal_queue_create` makes is valid and empty and has the capacity and the item size
-- that were asked for, and the status is then OSAL_SUCCESS, provided the numbers are `uint32_t` and
-- `malloc` gives a block of the length asked for.
pub create-IsValid :
    (env : CreateEnv) (id : Bool) (name : Option CString) (max_items item_size : ℕ) (q : Queue)
    → max_items < 2 ^ 32
    → ((bytes : List ℕ)
        → env.storage_bytes ≡ some bytes
        → length bytes ≡ mul_size max_items item_size)
    → (create env id name max_items item_size).queue ≡ some q
    → IsValid q
      × (contents q ≡ [])
      × (q.max_items ≡ max_items)
      × (q.item_size ≡ item_size)
      × ((create env id name max_items item_size).status ≡ success)
create-IsValid env id name max_items item_size q small room h =
    elim (Option-cases env.storage_bytes) [
      | inl e ↦ cc (not_created env id name max_items item_size e)
      | inr (bytes, e) ↦
          let (at, some_item, some_size, le, st) =
            created_queue env id name max_items item_size q bytes e h in
          rw at (
            fresh-IsValid bytes name max_items item_size small some_item some_size le
                (room bytes e),
            refl,
            refl,
            refl,
            st,
          )
    ]
