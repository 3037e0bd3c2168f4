-- ===== src/Osal/Status.antt =====
-- The status codes of the abstraction layer (src/osal/include/osal_error.h) and their names
-- (src/osal/common/osal_error.c).
pub mod Names
use Prim.Native.String.{String}
use hq_platform.Base.{
  Bool, true, false, ◌&&◌, ◌||◌, leb, ◌==◌, if◌then◌else◌, List, [], ◌∷◌, Option, none, some,
}
use hq_platform.Base.Int.{ℤ, pos, negsuc, eqb}

-- `osal_status_t`
pub data Status : Type 0 where
  success error invalid_pointer error_address_misaligned error_timeout invalid_int_num : Status
  sem_failure sem_timeout queue_empty queue_full queue_timeout queue_invalid_size : Status
  queue_id_error err_name_too_long err_no_free_ids err_name_taken err_invalid_id : Status
  err_name_not_found err_sem_not_full err_invalid_priority invalid_sem_value err_file : Status
  err_not_implemented timer_err_invalid_args timer_err_timer_id timer_err_unavailable : Status
  timer_err_internal err_object_in_use err_bad_address err_incorrect_obj_state : Status
  err_incorrect_obj_type err_stream_disconnected err_operation_not_supported : Status
  err_invalid_size err_output_too_large err_invalid_argument err_try_again err_empty_set : Status
  fs_err_name_too_long fs_err_path_invalid fs_err_path_too_long : Status

-- The value that the enumeration gives each constant; `negsuc n` is -(n + 1).
unfoldable pub code : Status → ℤ
code success = pos 0
code error = negsuc 0
code invalid_pointer = negsuc 1
code error_address_misaligned = negsuc 2
code error_timeout = negsuc 3
code invalid_int_num = negsuc 4
code sem_failure = negsuc 5
code sem_timeout = negsuc 6
code queue_empty = negsuc 7
code queue_full = negsuc 8
code queue_timeout = negsuc 9
code queue_invalid_size = negsuc 10
code queue_id_error = negsuc 11
code err_name_too_long = negsuc 12
code err_no_free_ids = negsuc 13
code err_name_taken = negsuc 14
code err_invalid_id = negsuc 15
code err_name_not_found = negsuc 16
code err_sem_not_full = negsuc 17
code err_invalid_priority = negsuc 18
code invalid_sem_value = negsuc 19
code err_file = negsuc 26
code err_not_implemented = negsuc 27
code timer_err_invalid_args = negsuc 28
code timer_err_timer_id = negsuc 29
code timer_err_unavailable = negsuc 30
code timer_err_internal = negsuc 31
code err_object_in_use = negsuc 32
code err_bad_address = negsuc 33
code err_incorrect_obj_state = negsuc 34
code err_incorrect_obj_type = negsuc 35
code err_stream_disconnected = negsuc 36
code err_operation_not_supported = negsuc 37
code err_invalid_size = negsuc 39
code err_output_too_large = negsuc 40
code err_invalid_argument = negsuc 41
code err_try_again = negsuc 42
code err_empty_set = negsuc 43
code fs_err_name_too_long = negsuc 44
code fs_err_path_invalid = negsuc 45
code fs_err_path_too_long = negsuc 46

-- The cases of the `switch` in `osal_get_status_name`, in order.
abbrev pub switch_cases : List (Status × String)
switch_cases =
    (success, "OSAL_SUCCESS")
    ∷ (error, "OSAL_ERROR")
    ∷ (invalid_pointer, "OSAL_INVALID_POINTER")
    ∷ (error_address_misaligned, "OSAL_ERROR_ADDRESS_MISALIGNED")
    ∷ (error_timeout, "OSAL_ERROR_TIMEOUT")
    ∷ (invalid_int_num, "OSAL_INVALID_INT_NUM")
    ∷ (sem_failure, "OSAL_SEM_FAILURE")
    ∷ (sem_timeout, "OSAL_SEM_TIMEOUT")
    ∷ (queue_empty, "OSAL_QUEUE_EMPTY")
    ∷ (queue_full, "OSAL_QUEUE_FULL")
    ∷ (queue_timeout, "OSAL_QUEUE_TIMEOUT")
    ∷ (queue_invalid_size, "OSAL_QUEUE_INVALID_SIZE")
    ∷ (queue_id_error, "OSAL_QUEUE_ID_ERROR")
    ∷ (err_name_too_long, "OSAL_ERR_NAME_TOO_LONG")
    ∷ (err_no_free_ids, "OSAL_ERR_NO_FREE_IDS")
    ∷ (err_name_taken, "OSAL_ERR_NAME_TAKEN")
    ∷ (err_invalid_id, "OSAL_ERR_INVALID_ID")
    ∷ (err_name_not_found, "OSAL_ERR_NAME_NOT_FOUND")
    ∷ (err_sem_not_full, "OSAL_ERR_SEM_NOT_FULL")
    ∷ (err_invalid_priority, "OSAL_ERR_INVALID_PRIORITY")
    ∷ (invalid_sem_value, "OSAL_INVALID_SEM_VALUE")
    ∷ (err_file, "OSAL_ERR_FILE")
    ∷ (err_not_implemented, "OSAL_ERR_NOT_IMPLEMENTED")
    ∷ (timer_err_invalid_args, "OSAL_TIMER_ERR_INVALID_ARGS")
    ∷ (timer_err_timer_id, "OSAL_TIMER_ERR_TIMER_ID")
    ∷ (timer_err_unavailable, "OSAL_TIMER_ERR_UNAVAILABLE")
    ∷ (timer_err_internal, "OSAL_TIMER_ERR_INTERNAL")
    ∷ (err_object_in_use, "OSAL_ERR_OBJECT_IN_USE")
    ∷ (err_bad_address, "OSAL_ERR_BAD_ADDRESS")
    ∷ (err_incorrect_obj_state, "OSAL_ERR_INCORRECT_OBJ_STATE")
    ∷ (err_incorrect_obj_type, "OSAL_ERR_INCORRECT_OBJ_TYPE")
    ∷ (err_stream_disconnected, "OSAL_ERR_STREAM_DISCONNECTED")
    ∷ (err_operation_not_supported, "OSAL_ERR_OPERATION_NOT_SUPPORTED")
    ∷ (err_invalid_size, "OSAL_ERR_INVALID_SIZE")
    ∷ (err_output_too_large, "OSAL_ERR_OUTPUT_TOO_LARGE")
    ∷ (err_invalid_argument, "OSAL_ERR_INVALID_ARGUMENT")
    ∷ (err_try_again, "OSAL_ERR_TRY_AGAIN")
    ∷ (err_empty_set, "OSAL_ERR_EMPTY_SET")
    ∷ []

pub find_case : ℤ → List (Status × String) → Option String
unfolding code
find_case status [] = none
find_case status ((label, name) ∷ cases) =
    if eqb status (code label) then some name else find_case status cases

-- `(status >= -26 && status <= -21) || status == -39`
abbrev pub is_reserved : ℤ → Bool
is_reserved (pos n) = false
is_reserved (negsuc n) = (leb n 25 && leb 20 n) || n == 38

-- What stands behind the `switch`.
pub answer : Option String → ℤ → String
answer (some name) status = name
answer none status = if is_reserved status then "OSAL_ERR_RESERVED" else "unknown error"

-- `osal_get_status_name`
unfoldable pub get_status_name : ℤ → String
get_status_name status = answer (find_case status switch_cases) status
