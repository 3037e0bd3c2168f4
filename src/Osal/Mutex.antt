-- ===== src/Osal/Mutex.antt =====
-- The mutexes of src/osal/posix/osal_mutex_impl.c. What the calls of pthreads and `malloc` answer are
-- arguments; the lock itself is theirs.
use hq_platform.Base.{
  ◌≡◌, ◌≢◌, ◌⊎◌, ◌++◌, Bool, true, List, [], ◌∷◌, Option, none, some, arith, not, if◌then◌else◌,
}
use hq_platform.Base.Text.{CString, terminated_within}
use hq_platform.Osal.Resources.{Resource, Event, acquire, release, block, mutex, acquired, released}
use hq_platform.Osal.Status.{
  Status, success, error, invalid_pointer, err_name_too_long, err_invalid_id, sem_failure,
}

abbrev name_fits : Option CString → Bool
name_fits none = true
name_fits (some name) = terminated_within name 32

-- `osal_mutex_create`; the flags are `mutex_id != NULL`, and that `malloc` and `pthread_mutex_init`
-- succeed.
unfoldable pub create : Bool → Option CString → Bool → Bool → Status × List Event
create mutex_id name block_ok mutex_ok =
    if not mutex_id
    then (invalid_pointer, [])
    else if not (name_fits name)
    then (err_name_too_long, [])
    else if not block_ok
    then (error, [])
    else if mutex_ok
    then (success, acquire block ∷ acquire mutex ∷ [])
    else (error, acquire block ∷ release block ∷ [])

-- `osal_mutex_delete`; the flags are `mutex_id != NULL`, and that `pthread_mutex_destroy` succeeds.
unfoldable pub delete : Bool → Bool → Status × List Event
delete mutex_id destroyed =
    if not mutex_id
    then (invalid_pointer, [])
    else if destroyed
    then (success, release mutex ∷ release block ∷ [])
    else (err_invalid_id, [])

-- `osal_mutex_take` and `osal_mutex_give`; the second flag is that the call of pthreads succeeds.
unfoldable pub take : Bool → Bool → Status
take mutex_id locked =
    if not mutex_id then invalid_pointer else if locked then success else sem_failure

unfoldable pub give : Bool → Bool → Status
give mutex_id unlocked =
    if not mutex_id then invalid_pointer else if unlocked then success else sem_failure

-- A creation that fails has given back what it took, and a deletion gives back what one that
-- succeeds took.
pub mutex_create-delete :
    (mutex_id : Bool) (name : Option CString) (block_ok mutex_ok : Bool) (r : Resource)
    → let (status, trace) = create mutex_id name block_ok mutex_ok in
      ((status ≡ success) × (acquired r trace ≡ released r (trace ++ (delete true true).1)))
      ⊎ ((status ≢ success) × (acquired r trace ≡ released r trace))
unfolding create delete
mutex_create-delete mutex_id none block_ok mutex_ok r = ground arith
mutex_create-delete mutex_id (some name) block_ok mutex_ok r = ground arith
