-- ===== src/Osal/Timer/Create.antt =====
-- `osal_timer_create`: the checks, and what the call takes from the system and gives back.
use hq_platform.Base.{
  ℕ, ◌≡◌, refl, Bool, true, false, List, [], ◌∷◌, ◌++◌, Option, none, some, arith, take, ltb, leb,
  if◌then◌else◌, Bool-cases, inl, inr,
}
use hq_platform.Base.Text.{CString, terminated_within}
use hq_platform.Osal.Resources.{
  Resource, Event, acquire, release, block, mutex, cond, thread, acquired, released,
}
use hq_platform.Osal.Status.{
  Status, success, error, invalid_pointer, err_name_too_long, timer_err_invalid_args,
  err_invalid_size,
}
use hq_platform.Osal.Timer.{Timer, dispose}

-- What the system answers, and `sizeof (struct osal_timer_internal)`.
pub record CreateEnv : Type 0 where
  pub sizeof_timer : ℕ
  pub block_ok : Bool
  pub mutex_ok : Bool
  pub cond_ok : Bool
  pub thread_ok : Bool

pub record Created : Type 0 where
  pub status : Status
  pub timer : Option Timer
  pub trace : List Event

abbrev refuse : Status → List Event → Created
refuse st es = record { status = st; timer = none; trace = es }

-- `free (timer)` where the block was allocated here
abbrev free_block : Bool → List Event
free_block static = if static then [] else release block ∷ []

abbrev take_block : Bool → List Event
take_block static = if static then [] else acquire block ∷ []

-- From `osal_timer_init` on; which clock the condition uses does not show.
unfoldable pub init_and_run : CreateEnv → Timer → Created
init_and_run env t =
    let static = t.use_static in
    if env.mutex_ok
    then (if env.cond_ok
        then (if env.thread_ok
            then (record {
              status = success;
              timer = some t;
              trace = take_block static ++ (acquire mutex ∷ acquire cond ∷ acquire thread ∷ []);
            })
            else refuse error (
                take_block static
                ++ (acquire mutex
                    ∷ acquire cond
                    ∷ release cond
                    ∷ release mutex
                    ∷ free_block static)))
        else refuse error
            (take_block static ++ (acquire mutex ∷ release mutex ∷ free_block static)))
    else refuse error (take_block static ++ free_block static)

abbrev name_fits : Option CString → Bool
name_fits none = true
name_fits (some name) = terminated_within name 32

abbrev stored_name : Option CString → CString
stored_name none = []
stored_name (some name) = take 31 name

abbrev pub fresh : Option CString → ℕ → Bool → ℕ → Option ℕ → Bool → Timer
fresh name period_ms auto_reload callback callback_arg static = record {
  period_ms = period_ms;
  auto_reload = auto_reload;
  active = false;
  stop_requested = false;
  use_static = static;
  callback = callback;
  context = callback_arg;
  name = stored_name name;
}

-- The block of the caller, or a new one.
unfoldable pub allocate : CreateEnv → Bool → ℕ → Timer → Created
allocate env true stack_size t =
    if leb env.sizeof_timer stack_size then init_and_run env t else refuse err_invalid_size []
allocate env false stack_size t = if env.block_ok then init_and_run env t else refuse error []

-- `osal_timer_create`; the flags are `timer_id != NULL` and `stack_pointer != NULL`.
unfoldable pub create :
    CreateEnv → Bool → Option CString → ℕ → Bool → Option ℕ → Option ℕ → Bool → ℕ → Created
create env false name period_ms auto_reload callback arg static stack_size =
    refuse invalid_pointer []
create env true name period_ms auto_reload none arg static stack_size = refuse invalid_pointer []
create env true name period_ms auto_reload (some callback) arg static stack_size =
    if name_fits name
    then (if ltb 0 period_ms
        then allocate env static stack_size (fresh name period_ms auto_reload callback arg static)
        else refuse timer_err_invalid_args [])
    else refuse err_name_too_long []

-- A failed call has given back what it took; a timer takes what its disposal gives back.
abbrev pub Settled : Resource → Created → Type 0
Settled r c =
    (c.timer ≡ none → acquired r c.trace ≡ released r c.trace)
    × ((t : Timer) → c.timer ≡ some t → acquired r c.trace ≡ released r (dispose true t).1)

init_and_run-Settled : (env : CreateEnv) (t : Timer) (r : Resource) → Settled r (init_and_run env t)
unfolding init_and_run dispose
init_and_run-Settled env t r = elim (Bool-cases t.use_static) [
  | inl static ↦ simp static (λ h. ground arith, λ u h. ground arith)
  | inr dynamic ↦ simp dynamic (λ h. ground arith, λ u h. ground arith)
]

allocate-Settled :
    (env : CreateEnv) (static : Bool) (stack_size : ℕ) (t : Timer) (r : Resource)
    → Settled r (allocate env static stack_size t)
unfolding allocate
allocate-Settled env true stack_size t r = elim (Bool-cases (leb env.sizeof_timer stack_size)) [
  | inl fits ↦ rw fits (init_and_run-Settled env t r)
  | inr small ↦ rw small (λ h. refl, λ u h. cc)
]
allocate-Settled env false stack_size t r = elim (Bool-cases env.block_ok) [
  | inl got ↦ simp got (init_and_run-Settled env t r)
  | inr out ↦ simp out (λ h. refl, λ u h. cc)
]

-- Every call of `osal_timer_create` that fails gives back what it took, and one that succeeds takes
-- what the end of a successful `osal_timer_delete` of that timer gives back, the caller's own block
-- excepted.
pub create-Settled :
    (env : CreateEnv) (id : Bool) (name : Option CString) (period_ms : ℕ) (auto_reload : Bool)
    (callback arg : Option ℕ) (static : Bool) (stack_size : ℕ) (r : Resource)
    → Settled r (create env id name period_ms auto_reload callback arg static stack_size)
unfolding create
create-Settled env false name period_ms auto_reload callback arg static stack_size r =
    (λ h. refl, λ t h. cc)
create-Settled env true name period_ms auto_reload none arg static stack_size r =
    (λ h. refl, λ t h. cc)
create-Settled env true name period_ms auto_reload (some callback) arg static stack_size r =
    elim (Bool-cases (name_fits name)) [
      | inl short ↦ elim (Bool-cases (ltb 0 period_ms)) [
        | inl positive ↦ rw (short, positive) (allocate-Settled env static stack_size _ r)
        | inr zero_period ↦ rw (short, zero_period) (λ h. refl, λ t h. cc)
      ]
      | inr long ↦ rw long (λ h. refl, λ t h. cc)
    ]
