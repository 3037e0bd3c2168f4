-- ===== src/Osal/Status/Names.antt =====
-- What `osal_get_status_name` answers on each `int`.
use Prim.Native.String.{String}
use Prim.Native.Nat.{◌<◌}
use text.Mathlib.Text.{◌==◌ as text_eq}
use hq_platform.Base.{
  ℕ, zero, suc, ◌≡◌, ◌≢◌, ◌↔◌, refl, ap, Bool, true, false, ◌&&◌, not, List, [], ◌∷◌, none, arith,
  ltb, if◌then◌else◌, Bool-cases, inl, inr,
}
use hq_platform.Base.Int.{ℤ, pos, negsuc, eqb-eq}
use hq_platform.Osal.Status.{Status, code, switch_cases, find_case, answer, get_status_name}

-- The enumerators as they are spelled in the header.
abbrev pub ident : Status → String
ident Status.success = "OSAL_SUCCESS"
ident Status.error = "OSAL_ERROR"
ident Status.invalid_pointer = "OSAL_INVALID_POINTER"
ident Status.error_address_misaligned = "OSAL_ERROR_ADDRESS_MISALIGNED"
ident Status.error_timeout = "OSAL_ERROR_TIMEOUT"
ident Status.invalid_int_num = "OSAL_INVALID_INT_NUM"
ident Status.sem_failure = "OSAL_SEM_FAILURE"
ident Status.sem_timeout = "OSAL_SEM_TIMEOUT"
ident Status.queue_empty = "OSAL_QUEUE_EMPTY"
ident Status.queue_full = "OSAL_QUEUE_FULL"
ident Status.queue_timeout = "OSAL_QUEUE_TIMEOUT"
ident Status.queue_invalid_size = "OSAL_QUEUE_INVALID_SIZE"
ident Status.queue_id_error = "OSAL_QUEUE_ID_ERROR"
ident Status.err_name_too_long = "OSAL_ERR_NAME_TOO_LONG"
ident Status.err_no_free_ids = "OSAL_ERR_NO_FREE_IDS"
ident Status.err_name_taken = "OSAL_ERR_NAME_TAKEN"
ident Status.err_invalid_id = "OSAL_ERR_INVALID_ID"
ident Status.err_name_not_found = "OSAL_ERR_NAME_NOT_FOUND"
ident Status.err_sem_not_full = "OSAL_ERR_SEM_NOT_FULL"
ident Status.err_invalid_priority = "OSAL_ERR_INVALID_PRIORITY"
ident Status.invalid_sem_value = "OSAL_INVALID_SEM_VALUE"
ident Status.err_file = "OSAL_ERR_FILE"
ident Status.err_not_implemented = "OSAL_ERR_NOT_IMPLEMENTED"
ident Status.timer_err_invalid_args = "OSAL_TIMER_ERR_INVALID_ARGS"
ident Status.timer_err_timer_id = "OSAL_TIMER_ERR_TIMER_ID"
ident Status.timer_err_unavailable = "OSAL_TIMER_ERR_UNAVAILABLE"
ident Status.timer_err_internal = "OSAL_TIMER_ERR_INTERNAL"
ident Status.err_object_in_use = "OSAL_ERR_OBJECT_IN_USE"
ident Status.err_bad_address = "OSAL_ERR_BAD_ADDRESS"
ident Status.err_incorrect_obj_state = "OSAL_ERR_INCORRECT_OBJ_STATE"
ident Status.err_incorrect_obj_type = "OSAL_ERR_INCORRECT_OBJ_TYPE"
ident Status.err_stream_disconnected = "OSAL_ERR_STREAM_DISCONNECTED"
ident Status.err_operation_not_supported = "OSAL_ERR_OPERATION_NOT_SUPPORTED"
ident Status.err_invalid_size = "OSAL_ERR_INVALID_SIZE"
ident Status.err_output_too_large = "OSAL_ERR_OUTPUT_TOO_LARGE"
ident Status.err_invalid_argument = "OSAL_ERR_INVALID_ARGUMENT"
ident Status.err_try_again = "OSAL_ERR_TRY_AGAIN"
ident Status.err_empty_set = "OSAL_ERR_EMPTY_SET"
ident Status.fs_err_name_too_long = "OSAL_FS_ERR_NAME_TOO_LONG"
ident Status.fs_err_path_invalid = "OSAL_FS_ERR_PATH_INVALID"
ident Status.fs_err_path_too_long = "OSAL_FS_ERR_PATH_TOO_LONG"

-- The codes of src/osal/include/osal_error.h that stand for file paths and names.
abbrev pub is_path_code : Status → Bool
is_path_code Status.fs_err_name_too_long = true
is_path_code Status.fs_err_path_invalid = true
is_path_code Status.fs_err_path_too_long = true
is_path_code _ = false

-- The name of every code but the three path codes is its enumerator as the header spells it; the
-- three path codes are called "unknown error".
pub get_status_name-code :
    (s : Status) → get_status_name (code s) ≡ (if is_path_code s then "unknown error" else ident s)
unfolding get_status_name find_case answer code
get_status_name-code Status.success = refl
get_status_name-code _ = refl

-- From -44 to 0.
abbrev pub in_range : ℤ → Bool
in_range (pos zero) = true
in_range (pos (suc n)) = false
in_range (negsuc n) = ltb n 44

all_in_range : List (Status × String) → Bool
unfolding code
all_in_range [] = true
all_in_range ((s, name) ∷ cases) = in_range (code s) && all_in_range cases

find_case_miss :
    (x : ℤ) (cases : List (Status × String))
    → all_in_range cases ≡ true
    → in_range x ≡ false
    → find_case x cases ≡ none
unfolding find_case all_in_range
find_case_miss x [] h out = refl
find_case_miss x ((s, name) ∷ cases) h out =
    ground (arith, eqb-eq x (code s), find_case_miss x cases)

is_unknown : ℕ → Bool
unfolding get_status_name find_case answer
is_unknown n = text_eq (get_status_name (negsuc n)) "unknown error"

none_unknown : ℕ → Bool
none_unknown zero = true
none_unknown (suc n) = not (is_unknown n) && none_unknown n

none_unknown-table : none_unknown 44 ≡ true
unfolding none_unknown is_unknown
none_unknown-table = refl

none_unknown_sound : (k n : ℕ) → none_unknown k ≡ true → n < k → is_unknown n ≡ false
unfolding none_unknown
none_unknown_sound zero n h lt = elim lt [ ]
none_unknown_sound (suc k) n h lt = ground (arith, none_unknown_sound k n)

cases_in_range : all_in_range switch_cases ≡ true
unfolding all_in_range
cases_in_range = refl

outside_unknown : (x : ℤ) → in_range x ≡ false → get_status_name x ≡ "unknown error"
unfolding get_status_name answer
outside_unknown (pos zero) h = ground arith
outside_unknown (pos (suc n)) h = rw (find_case_miss (pos (suc n)) switch_cases cases_in_range h)
outside_unknown (negsuc n) h =
    rw (find_case_miss (negsuc n) switch_cases cases_in_range h) (ground arith)

inside_known : (x : ℤ) → in_range x ≡ true → get_status_name x ≢ "unknown error"
unfolding is_unknown get_status_name find_case answer
inside_known (pos zero) h e = cc (ap (λ s. text_eq s "unknown error") e)
inside_known (pos (suc n)) h e = cc
inside_known (negsuc n) h e = cc (
  none_unknown_sound 44 n none_unknown-table (ground arith),
  ap (λ s. text_eq s "unknown error") e,
)

-- `osal_get_status_name` answers "unknown error" exactly outside the range from -44 to 0.
pub get_status_name-unknown : (x : ℤ) → (get_status_name x ≡ "unknown error") ↔ (in_range x ≡ false)
get_status_name-unknown x = (
  λ e. elim (Bool-cases (in_range x)) [ inl h ↦ absurd (inside_known x h e) | inr h ↦ h ],
  outside_unknown x,
)
