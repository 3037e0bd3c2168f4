-- ===== src/Tests/EspTask.antt =====
-- A task on a stack of its caller, on the ESP port.
use hq_platform.Base.{true, [], none, some}
use hq_platform.Base.Text.{codes}
use hq_platform.Osal.Esp.Task.{Registry, CreateEnv, create, delete}
use hq_platform.Osal.Esp.Task.Blocks.{Balanced, here, creates, deletes, Reach-Balanced}

abbrev no_tasks : Registry
no_tasks = record { entries = []; trace = [] }

abbrev answers : CreateEnv
answers = record {
  max_priorities = 25;
  sizeof_stack = 4;
  processors = 2;
  entry_ok = true;
  tcb_ok = true;
  handle = some 7;
}

abbrev one_task : Registry
one_task = (create answers no_tasks true true (some (codes "log")) true 2048 5 none).2

-- Task 3 makes task 7 and deletes it.
Reach-Balanced_example : Balanced (delete 3 one_task (some 7)).1
Reach-Balanced_example =
    Reach-Balanced
      (deletes 3 (some 7) (creates answers true true (some (codes "log")) true 2048 5 none here))
