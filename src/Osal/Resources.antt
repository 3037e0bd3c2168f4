-- ===== src/Osal/Resources.antt =====
-- What the create and delete functions take from the system and give back: `malloc` and `free`, the
-- `pthread_*_init` and `sem_init` calls that succeed and their `destroy`, in the order of the calls.
use hq_platform.Base.{ℕ, ◌+◌, ◌≡◌, List, [], ◌∷◌, ◌++◌, arith, ◌==◌, if◌then◌else◌}

-- A control block, a block for items, a mutex, the conditions of one object, a semaphore, a thread,
-- the embedded CLI of the console, and the attributes of a thread.
pub data Resource : Type 0 where
  block storage mutex not_empty not_full cond semaphore thread cli attributes : Resource

pub data Event : Type 0 where
  acquire : Resource → Event
  release : Resource → Event

abbrev pub index : Resource → ℕ
index block = 0
index storage = 1
index mutex = 2
index not_empty = 3
index not_full = 4
index cond = 5
index semaphore = 6
index thread = 7
index cli = 8
index attributes = 9

abbrev pub acquired : Resource → List Event → ℕ
acquired r [] = 0
acquired r (acquire s ∷ es) = (if index r == index s then 1 else 0) + acquired r es
acquired r (release s ∷ es) = acquired r es

abbrev pub released : Resource → List Event → ℕ
released r [] = 0
released r (acquire s ∷ es) = released r es
released r (release s ∷ es) = (if index r == index s then 1 else 0) + released r es

pub acquired-append :
    (r : Resource) (xs ys : List Event) → acquired r (xs ++ ys) ≡ acquired r xs + acquired r ys
acquired-append r [] ys = omega arith
acquired-append r (acquire s ∷ xs) ys = omega (arith, acquired-append r xs ys)
acquired-append r (release s ∷ xs) ys = acquired-append r xs ys

pub released-append :
    (r : Resource) (xs ys : List Event) → released r (xs ++ ys) ≡ released r xs + released r ys
released-append r [] ys = omega arith
released-append r (acquire s ∷ xs) ys = released-append r xs ys
released-append r (release s ∷ xs) ys = omega (arith, released-append r xs ys)
