-- ===== src/Cmd.antt =====
-- The console of src/cmd/hq_cmd_core.c, with its input task, and the command of
-- src/cmd/commands/hq_cmd_hello.c. The embedded CLI library and `sem_t` are interfaces.
pub mod Lifecycle
pub mod Shutdown
use hq_platform.Base.{
  ℕ, ◌+◌, ◌%◌, ◌^◌, ◌==◌, Bool, true, false, List, [], ◌∷◌, ◌++◌, Option, none, some, if◌then◌else◌,
}
use hq_platform.Base.Int.{ℤ, pos, negsuc}
use hq_platform.Base.Text.{CString, codes}
use hq_platform.Osal.Resources.{Event, acquire, release, thread, cli}
use hq_platform.Osal.Semaphore
use hq_platform.Osal.Semaphore.{PosixSem, bin_create, Created}
use hq_platform.Osal.Status.{Status, success}
use hq_platform.Osal.Time.{Timespec}

-- `hq_cmd_binding_t`; the context and the handler are numbers.
pub record Binding : Type 0 where
  pub name : CString
  pub help : CString
  pub tokenize_args : Bool
  pub context : ℕ
  pub handler : ℕ

-- The fields of `EmbeddedCliConfig` that are set; the values come from the build.
pub record Config : Type 0 where
  pub rx_buffer_size : ℕ
  pub cmd_buffer_size : ℕ
  pub history_buffer_size : ℕ
  pub max_binding_count : ℕ
  pub enable_auto_complete : ℕ
  pub invitation : CString

-- What is used of the embedded CLI; a call of a handler is part of `process`.
pub record EmbeddedCli : Type 1 where
  pub State : Type 0
  pub new : Config → Option State
  pub add_binding : State → Binding → Bool × State
  pub process : State → State
  pub receive_char : State → ℕ → State
  pub print : State → CString → State
  pub get_token_count : CString → ℕ
  pub get_token : CString → ℕ → Option CString

-- Where the input task is: not made, at its poll, behind the loop, or at its end.
pub data Task : Type 0 where
  absent polling stopping finished : Task

-- The sizes are cast to `uint16_t`.
abbrev pub cli_config : Config → Config
cli_config c = record {
  rx_buffer_size = c.rx_buffer_size % 2 ^ 16;
  cmd_buffer_size = c.cmd_buffer_size % 2 ^ 16;
  history_buffer_size = c.history_buffer_size % 2 ^ 16;
  max_binding_count = c.max_binding_count % 2 ^ 16;
  enable_auto_complete = if c.enable_auto_complete == 0 then 0 else 1;
  invitation = c.invitation;
}

-- The handler `hq_cmd_hello_handler` is number 0.
abbrev pub hello_binding : Binding
hello_binding = record {
  name = codes "hello";
  help = codes "Print hello world or hello <name>";
  tokenize_args = true;
  context = 0;
  handler = 0;
}

-- Whether `malloc` gives the two semaphores their blocks, and what `osal_task_create` returns.
pub record InitEnv : Type 0 where
  pub done_block : Bool
  pub request_block : Bool
  pub task_status : Status

-- `== OSAL_SUCCESS`
abbrev pub is_success : Status → Bool
is_success success = true
is_success _ = false

module _ (C : EmbeddedCli) (P : PosixSem) where
  -- The globals of hq_cmd_core.c, where `none` is also a semaphore that was deleted, with the task and
  -- what was taken and given back so far.
  pub record Console : Type 0 where
    pub g_cli : Option C.State
    pub stop_done : Option P.Sem
    pub stop_request : Option P.Sem
    pub task : Task
    pub trace : List Event

  -- `hq_cmd_register_internal` and `hq_cmd_register`
  unfoldable pub register : Console → Option Binding → Console × ℤ
  register s none = (s, negsuc 0)
  register s (some binding) = elim s.g_cli [
    | none ↦ (s, negsuc 0)
    | some c ↦
        let (added, c') = C.add_binding c binding in
        (record s { g_cli = some c' }, if added then pos 0 else negsuc 0)
  ]

  -- `hq_cmd_print`
  unfoldable pub print : Console → Option CString → Console
  print s none = s
  print s (some text) = elim s.g_cli [
    | none ↦ s
    | some c ↦ record s { g_cli = some (C.print c text) }
  ]

  -- `hq_cmd_on_unknown`, with the name of the command; the command and the name may be NULL.
  pub on_unknown : Console → Option (Option CString) → Console
  unfolding print
  on_unknown s (some (some name)) =
      print s (some (codes "Unknown command. Use 'help' to list available commands.\r\n"))
  on_unknown s _ = s

  -- `hq_cmd_process` and `hq_cmd_receive_char`
  unfoldable pub process : Console → Console
  process s = elim s.g_cli [ none ↦ s | some c ↦ record s { g_cli = some (C.process c) } ]

  unfoldable pub receive_char : Console → ℕ → Console
  receive_char s ch = elim s.g_cli [
    | none ↦ s
    | some c ↦ record s { g_cli = some (C.receive_char c ch) }
  ]

  -- `hq_cmd_hello_handler`
  unfoldable pub hello : Console → Option CString → Console
  unfolding print
  hello s none = print s (some (codes "Hello World!"))
  hello s (some args) =
      if C.get_token_count args == 0
      then print s (some (codes "Hello World!"))
      else (elim (C.get_token args 1) [
        | none ↦ s
        | some name ↦ print (print (print s (some (codes "Hello "))) (some name)) (some (codes "!"))
      ])

  abbrev traced : List Event → Console → Console
  traced es s = record s { trace = s.trace ++ es }

  -- `embeddedCliFree` and `g_cli = NULL`
  abbrev free_cli : Console → Console
  free_cli s = traced (release cli ∷ []) (record s { g_cli = none })

  -- `osal_bin_sem_delete` of each semaphore, whose result is ignored
  abbrev delete_done : Console → Console
  delete_done s = traced (Semaphore.delete P s.stop_done).1 (record s { stop_done = none })

  abbrev delete_request : Console → Console
  delete_request s = traced (Semaphore.delete P s.stop_request).1 (record s { stop_request = none })

  -- `hq_cmd_init` from `osal_task_create` on
  unfoldable pub init_task : InitEnv → Console → Console × ℤ
  init_task env s =
      if is_success env.task_status
      then (traced (acquire thread ∷ []) (record s { task = polling }), pos 0)
      else (free_cli (delete_done (delete_request s)), negsuc 0)

  -- from the second semaphore on
  unfoldable pub init_request : InitEnv → Console → Console × ℤ
  unfolding init_task
  init_request env s =
      let made = bin_create P env.request_block true (some (codes "cmd_stop_req")) 0 in
      let s1 = traced made.trace s in
      if is_success made.status
      then init_task env (record s1 { stop_request = made.sem })
      else (free_cli (delete_done s1), negsuc 0)

  -- from the first semaphore on
  unfoldable pub init_done : InitEnv → Console → Console × ℤ
  unfolding init_request
  init_done env s =
      let made = bin_create P env.done_block true (some (codes "cmd_stop_done")) 0 in
      let s1 = traced made.trace s in
      if is_success made.status
      then init_request env (record s1 { stop_done = made.sem })
      else (free_cli s1, negsuc 0)

  -- from the result of `embeddedCliNew` on
  unfoldable pub init_new : InitEnv → Option C.State → Console → Console × ℤ
  unfolding init_done register
  init_new env none s = (s, negsuc 0)
  init_new env (some c) s =
      init_done env
        (register (traced (acquire cli ∷ []) (record s { g_cli = some c })) (some hello_binding)).0

  -- `hq_cmd_init`
  unfoldable pub init : InitEnv → Config → Console → Console × ℤ
  unfolding init_new
  init env config s = elim s.g_cli [
    | some c ↦ (s, pos 0)
    | none ↦ init_new env (C.new (cli_config config)) s
  ]

  -- `hq_cmd_stop`
  unfoldable pub stop : Console → Console
  stop s = record s { stop_request = (Semaphore.give P s.stop_request).1 }

  -- One round of `hq_cmd_input_task`, with the clock and what `hq_cmd_platform_read_char` returns,
  -- `none` if it is negative.
  unfoldable pub poll : Timespec → Option ℕ → Console → Console
  unfolding process receive_char
  poll now ch s = elim (Semaphore.timed_wait P 0 now s.stop_request 0) [
    | none ↦ s
    | some (st, request) ↦
        let s1 = record s { stop_request = request } in
        if is_success st
        then record s1 { task = stopping }
        else (elim ch [ none ↦ s1 | some c ↦ process (receive_char s1 c) ])
  ]

  -- The end of `hq_cmd_input_task`, up to the deletion of itself
  unfoldable pub finish : Console → Console
  finish s = record s { stop_done = (Semaphore.give P s.stop_done).1; task = finished }

  -- What `hq_cmd_wait` does with what `osal_bin_sem_take` returns, whose status is ignored
  abbrev pub wait_taken : Console → Option (Status × Option P.Sem) → Option Console
  wait_taken s none = none
  wait_taken s (some (st, taken)) = some (record s { stop_done = (Semaphore.give P taken).1 })

  -- `hq_cmd_wait` where `osal_bin_sem_take` returns; `none` is a call that waits on.
  unfoldable pub wait : Console → Option Console
  wait s = elim s.g_cli [ none ↦ some s | some c ↦ wait_taken s (Semaphore.take P s.stop_done) ]

  -- `hq_cmd_deinit` up to `osal_bin_sem_take`, and from its return on; `none` is a call that waits on.
  unfoldable pub deinit_begin : Console → Console
  unfolding stop
  deinit_begin s = elim s.g_cli [ none ↦ s | some c ↦ stop s ]

  -- The status of `osal_bin_sem_take` is ignored here, too.
  abbrev pub deinit_taken : Console → Option (Status × Option P.Sem) → Option Console
  deinit_taken s none = none
  deinit_taken s (some (st, taken)) =
      some (free_cli (delete_done (delete_request (record s { stop_done = taken }))))

  unfoldable pub deinit_end : Console → Option Console
  deinit_end s = elim s.g_cli [
    | none ↦ some s
    | some c ↦ deinit_taken s (Semaphore.take P s.stop_done)
  ]
