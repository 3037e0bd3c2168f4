-- ===== src/Osal/Esp.antt =====
-- The ESP port of the queues and semaphores, src/osal/esp, over FreeRTOS as an interface.
pub mod Queue
pub mod Semaphore
pub mod Agree
pub mod Mount
pub mod File
pub mod Copy
pub mod Task
pub mod Timer
use hq_platform.Base.{ℕ, ◌==◌, Bool, Option, if◌then◌else◌}
use hq_platform.Osal.Queue.{Item}
use hq_platform.Osal.Semaphore.{max_delay}

-- The queues of FreeRTOS: xQueueCreate, xQueueSend, xQueueReceive, their calls from interrupts, and
-- uxQueueMessagesWaiting. A handle is the queue itself.
pub record RtosQueue : Type 1 where
  pub Handle : Type 0
  pub create : ℕ → ℕ → Option Handle
  pub send : Handle → Item → ℕ → Bool × Handle
  pub receive : Handle → ℕ → Option Item × Handle
  pub send_from_isr : Handle → Item → Bool × Handle
  pub receive_from_isr : Handle → Option Item × Handle
  pub messages_waiting : Handle → ℕ

-- Its semaphores
pub record RtosSem : Type 1 where
  pub Handle : Type 0
  pub create_binary : Option Handle
  pub create_counting : ℕ → ℕ → Option Handle
  pub give : Handle → Bool × Handle
  pub take : Handle → ℕ → Bool × Handle
  pub give_from_isr : Handle → Bool × Handle
  pub take_from_isr : Handle → Bool × Handle
  pub get_count : Handle → ℕ

-- pdMS_TO_TICKS and portMAX_DELAY
pub record Ticks : Type 0 where
  pub of_ms : ℕ → ℕ
  pub max_ticks : ℕ

-- `osal_timeout_to_ticks`
unfoldable pub timeout_to_ticks : Ticks → ℕ → ℕ
timeout_to_ticks T timeout_ms = if timeout_ms == max_delay then T.max_ticks else T.of_ms timeout_ms
