-- ===== src/Lib.antt =====
-- The verification of hq_platform: a platform library in C with an abstraction layer of the operating
-- system (src/osal), a command console (src/cmd) and network protocols (src/protocols).
--
-- What is modelled, and where:
--
--   Base           lists, blocks of memory, Boolean tests, integers and C strings over native numbers
--   Osal.Status    osal_error.h and common/osal_error.c: the codes and `osal_get_status_name`
--   Osal.Time      `osal_timespec_add_ms` and `osal_get_deadline` of posix/osal_queue_impl.c, which
--                  posix/osal_timer_impl.c repeats
--   Osal.Queue     posix/osal_queue_impl.c: the ring of items and the calls that wait on it. Inv is
--                  the representation invariant, Items what a queue holds, Fifo the specification,
--                  Refine the proof that the ring implements it, Wait when the waits end, Create
--                  `osal_queue_create` and `osal_queue_delete`
--   Osal.Semaphore posix/osal_bin_sem_impl.c and posix/osal_count_sem_impl.c, over an interface for
--                  `sem_t`; Wait is about the timed wait
--   Osal.Littlefs  the calls of the littlefs library that the file layer makes, as an interface
--   Osal.Mount     posix/osal_mount_impl.c: paths, the configuration, and the mounted volume
--   Osal.File      posix/osal_file_impl.c: the table of open files and the file calls, on that volume.
--                  Table and Descriptors are about the slots, State about the mounted flag and what
--                  the calls leave alone, Copy is `osal_cp` and `osal_mv`
--   Osal.Timer     posix/osal_timer_impl.c: the calls on a timer, and its thread as a state machine;
--                  Create is `osal_timer_create`, Thread the histories of calls and thread steps
--   Osal.Resources what the create and delete functions take from the system and give back
--   Osal.Mutex     posix/osal_mutex_impl.c
--   Osal.Task      posix/osal_task_impl.c
--   Osal.Esp       the queues, the semaphores, the mounted volume and the open files of src/osal/esp,
--                  over FreeRTOS, esp_littlefs and the file calls of POSIX; Agree compares the queues
--                  of the two ports, Mount.Paths is about the paths, Mount.Labels about mounting,
--                  File.Slots and File.Tracked about the table of open files; File.Paths has the calls
--                  that take a path. Copy is `osal_cp` and `osal_mv`: Streams, Contents and Move are
--                  about what they leave. Task has the tasks, with Blocks about the memory of their
--                  registry, and the mutexes. Timer has the timers: Contract
--                  is a map from handles to functions and contexts, Creation and Changes are single
--                  calls and History all of them, Placement is about the memory of a timer and
--                  Pending about a deletion that the timer service has not handled; Agree compares
--                  the arguments that the two ports refuse
--   Osal.Transfer  the loops of `osal_cp` of both ports, over any read and any write; Whole is about
--                  what they copy
--   Cmd            src/cmd/hq_cmd_core.c and the hello command: the console and its input task.
--                  Lifecycle is about all histories, Shutdown about the end and the resources
--   Protocols.MqttConfig
--                  src/protocols/mqtt_config.c: the settings in their buffers, and how they are
--                  loaded from and saved to the storage of the device, which is an interface.
--                  Settings is about the buffers and Persist about the storage
--   Protocols.MqttApp
--                  src/protocols/mqtt_app.c: the MQTT client. Connection is what events and timers do,
--                  Api the calls; Invariant, Steps and Reach are about the table of subscriptions in
--                  all histories, Subscribe about the answer of a subscribe call, Publish
--                  about retransmission, Deliver about incoming messages and
--                  resubscribing, Packet about the UNSUBSCRIBE packet
--   Protocols.HttpServer
--                  src/protocols/http_server.c: the table of tokens and who answers a message
--   Tests          concrete runs, with small instances of littlefs and of the device
--
-- All posix files are under src/osal/posix. The file layer calls the mount layer for its paths, its
-- error codes and the flag that a volume is mounted; both share the globals, which are one record,
-- `Fs`. The queue and the timers share the deadlines. Everything returns the codes of Osal.Status.
--
-- How the code is read:
--
--   A function takes the state and returns it with its result. A pointer that the code compares with
--   NULL is an `Option`, or a flag where only the test matters. A C string is its bytes before the
--   terminator, and a buffer of bytes is a list. `uint32_t` and `size_t` (64 bits) are natural numbers
--   with the wrap written out where the code can reach it; int32_t results are integers.
--
--   The mutex of a queue makes what a call does between two waits one step. What the other threads do
--   while a call waits, and what the wait returns, is the list of wakes that the call is given: a call
--   for which the list is too short has not returned, and its result is `none`. The theorems on waiting
--   say for which lists there is a result.
--
--   The thread of a timer holds the lock between its waits and the callback: one step of the model
--   leads from one of these places to the next, and the calls of other threads come in between. What
--   the clock shows and what a wait returns are arguments of the step.
--
--   A call of the MQTT client that waits is two functions: what it does before, and what it does with
--   the answer. Events, timers and other calls come in between. What the client calls in mongoose and
--   FreeRTOS is a log; whether a semaphore could be taken and a connection could be made are arguments.
--
--   littlefs, mongoose, FreeRTOS, the storage of the device, the C library and pthreads do not belong
--   to this repository: they are arguments. The functions of littlefs are not assumed to obey any
--   law, except that a copy ends only if reads and writes make progress; the settings assume that a
--   text that is read fits the buffer that was passed, the queues of FreeRTOS are assumed to be bounded
--   FIFOs where the two ports are compared, `open` and `close` to number files and the other
--   file calls of the ESP port to keep contents and places as POSIX says, and the timers of FreeRTOS to
--   keep their IDs. Two paths may name the same file; the theorems on copies and on the table of open
--   files of the ESP port also assume that no close fails. The theorems say so.
--
--   The loops of `osal_cp` run on fuel: the outer loop spends a unit on each read, the inner one a
--   unit on each write of what is left. On the posix port a measure of the source plus the size of
--   the buffer is enough, on the ESP port the length of the source plus that size. The loop of
--   `osal_sem_wait_timed` spends a unit on each interrupted wait, and more than the signals to come
--   are enough. The other loops are structural.
--
--   The console and its input task are one state; a call that waits for the task is split there. Its
--   semaphores are those of Osal.Semaphore, and the theorems assume that `sem_t` counts and that a
--   semaphore that was made can be destroyed. A `sem_wait` that blocks for good has no result.
--
--   Neither the console nor the MQTT client takes a lock. A step of their histories is a call up to its
--   wait, an event or a timer, and what two of these do that run at the same time is not modelled.
--
-- What is not modelled: logging and assertions; the reading and writing of characters of the
-- console; the copies of mongoose and of the littlefs port, which belong to other projects. Console
-- output is left out. A byte that `strncpy` leaves behind a terminator is never read and does not
-- appear.
pub mod Base
pub mod Cmd
pub mod Osal
pub mod Protocols
pub mod Tests
