-- ===== src/Tests/Task.antt =====
-- A task that cannot be made, and a clock that goes round.
use hq_platform.Base.{◌≡◌, ◌≢◌, ◌⊎◌, ◌++◌, true, false, none, some}
use hq_platform.Base.Int.{pos}
use hq_platform.Base.Text.{codes}
use hq_platform.Osal.Resources.{block, acquired, released}
use hq_platform.Osal.Status.{success}
use hq_platform.Osal.Task.{CreateEnv, create, delete, entry, task_create-delete}

abbrev small_stack : CreateEnv
small_stack = record {
  min_pri = pos 1;
  max_pri = pos 99;
  cpu_count = pos 4;
  block_ok = true;
  attr_ok = true;
  stack_ok = false;
  thread_ok = true;
}

task_create-delete_example :
    let (status, trace) = create small_stack true true (some (codes "cmd_input")) 16 5 none in
    ((status ≡ success)
      × (acquired block trace ≡ released block (trace ++ entry ++ (delete true true).1)))
    ⊎ ((status ≢ success) × (acquired block trace ≡ released block trace))
task_create-delete_example =
    task_create-delete small_stack true true (some (codes "cmd_input")) 16 5 none block
