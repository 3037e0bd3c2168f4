-- ===== src/Tests/Esp.antt =====
-- The two queues side by side, FreeRTOS's as a list with a capacity.
use hq_platform.Base.{
  ℕ, ◌<◌, ◌≡◌, ◌++◌, refl, true, false, List, [], ◌∷◌, none, some, arith, length, slice, ltb,
  if◌then◌else◌,
}
use hq_platform.Osal.Queue.{Item, Env, Op, put, get}
use hq_platform.Osal.Queue.Items.{contents}
use hq_platform.Osal.Queue.Fifo.{front, pop}
use hq_platform.Osal.Esp.{RtosQueue, Ticks}
use hq_platform.Osal.Esp.Agree.{Documented, posix_calls, esp_calls, ports-agree}
use hq_platform.Tests.Queue.{full_queue, full_queue-Shape}

abbrev rtos : RtosQueue
rtos = record {
  Handle = ℕ × List Item;
  create = λ n size. some (n, []);
  send =
      λ q item ticks. if ltb (length q.1) q.0 then (true, (q.0, q.1 ++ item ∷ [])) else (false, q);
  receive = λ q ticks. (front q.1, (q.0, pop q.1));
  send_from_isr = λ q item. (false, q);
  receive_from_isr = λ q. (none, q);
  messages_waiting = λ q. length q.1;
}

abbrev ticks : Ticks
ticks = record { of_ms = λ ms. ms; max_ticks = 0xFFFFFFFF }

abbrev rtos-Documented : Documented rtos ticks
rtos-Documented = record {
  items = λ q. q.1;
  capacity = λ q. q.0;
  no_ticks = refl;
  send_room = λ q item room. with_room q item room;
  send_full = λ q item full. without q item full;
  receives = λ q. (refl, refl, refl);
}
  where
    with_room :
        (q : ℕ × List Item) (item : Item)
        → length q.1 < q.0
        → ((rtos.send q item 0).0 ≡ true)
          × ((rtos.send q item 0).1.1 ≡ q.1 ++ item ∷ [])
          × ((rtos.send q item 0).1.0 ≡ q.0)
    with_room q item room = ground arith

    without :
        (q : ℕ × List Item) (item : Item)
        → length q.1 ≡ q.0
        → ((rtos.send q item 0).0 ≡ false)
          × ((rtos.send q item 0).1.1 ≡ q.1)
          × ((rtos.send q item 0).1.0 ≡ q.0)
    without q item full = ground arith

abbrev same_queue : ℕ × List Item
same_queue = (2, (3 ∷ 4 ∷ []) ∷ (1 ∷ 2 ∷ []) ∷ [])

abbrev env : Env
env = record { now = none; lock_ok = true; wakes = λ limit. [] }

abbrev calls : List Op
calls = put (5 ∷ 6 ∷ []) ∷ get ∷ put (7 ∷ 8 ∷ []) ∷ get ∷ get ∷ get ∷ []

same : rtos-Documented.items same_queue ≡ contents full_queue
unfolding slice
same = refl

ports-agree_example :
    posix_calls env (some full_queue) calls ≡ some (esp_calls rtos ticks (some same_queue) calls)
ports-agree_example =
    ports-agree rtos ticks rtos-Documented 2 2 env calls full_queue same_queue refl
      (refl, (tt, (refl, (tt, (tt, (tt, tt))))))
      (record { shape = full_queue-Shape; same_items = same; same_capacity = refl })
