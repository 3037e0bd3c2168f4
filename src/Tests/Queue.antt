-- ===== src/Tests/Queue.antt =====
-- A queue of two items of two bytes that wraps, and what other threads do while a call waits on it.
use hq_platform.Base.{◌≡◌, ◌≢◌, refl, true, List, [], ◌∷◌, none, some, arith, slice, blit}
use hq_platform.Osal.Status.{success}
use hq_platform.Osal.Queue.{
  Queue, put, get, Wake, signalled, timed_out, Env, apply, apply_all, await, dequeue, enqueue,
  deadline, send_by, send, receive,
}
use hq_platform.Osal.Queue.Inv.{IsValid}
use hq_platform.Osal.Queue.Items.{contents}
use hq_platform.Osal.Queue.Fifo
use hq_platform.Osal.Queue.Refine.{Shape, see_sent, see_received, send-refines, receive-refines}
use hq_platform.Osal.Queue.Wait.{timed-returns}

-- The items (3, 4) and (1, 2): the ring is full.
abbrev pub full_queue : Queue
full_queue = record {
  buffer = 1 ∷ 2 ∷ 3 ∷ 4 ∷ [];
  item_size = 2;
  max_items = 2;
  head = 1;
  tail = 1;
  count = 2;
  name = [];
}

full_queue-IsValid : IsValid full_queue
full_queue-IsValid = record {
  some_item = omega arith;
  some_size = omega arith;
  few_items = omega arith;
  storage = refl;
  small = omega arith;
  head_in = omega arith;
  count_in = omega arith;
  tail_at = refl;
}

-- Another thread takes two items, and puts one that is taken again before the call runs on.
abbrev busy : List Wake
busy =
    record { others = put (9 ∷ 9 ∷ []) ∷ []; ret = signalled }
    ∷ record { others = get ∷ get ∷ put (7 ∷ 8 ∷ []) ∷ []; ret = signalled }
    ∷ record { others = []; ret = timed_out }
    ∷ []

abbrev busy_env : Env
busy_env = record {
  now = some (record { tv_sec = 10; tv_nsec = 999_999_999 });
  lock_ok = true;
  wakes = λ limit. busy;
}

contents-full_queue : contents full_queue ≡ (3 ∷ 4 ∷ []) ∷ (1 ∷ 2 ∷ []) ∷ []
unfolding slice
contents-full_queue = refl

send-full_queue :
    see_sent 2 2 (send busy_env (some full_queue) (some (5 ∷ 6 ∷ [])) 20)
    ≡ some (success, (7 ∷ 8 ∷ []) ∷ (5 ∷ 6 ∷ []) ∷ [])
unfolding send send_by await apply_all apply enqueue dequeue deadline slice blit
send-full_queue = refl

pub full_queue-Shape : Shape 2 2 full_queue
full_queue-Shape = record { valid = full_queue-IsValid; cap_at = refl; size_at = refl }

send-refines_example :
    see_sent 2 2 (send busy_env (some full_queue) (some (5 ∷ 6 ∷ [])) 20)
    ≡ Fifo.send 2 (deadline busy_env 20) busy_env (contents full_queue) (5 ∷ 6 ∷ []) 20
send-refines_example =
    send-refines 2 2 busy_env full_queue (5 ∷ 6 ∷ []) 20 full_queue-Shape refl
      (λ limit. ((refl, tt), ((tt, (tt, (refl, tt))), (tt, tt))))

receive-refines_example :
    see_received 2 2 (receive busy_env (some full_queue) true 20)
    ≡ Fifo.receive 2 (deadline busy_env 20) busy_env (contents full_queue) 20
receive-refines_example =
    receive-refines 2 2 busy_env full_queue 20 full_queue-Shape
      (λ limit. ((refl, tt), ((tt, (tt, (refl, tt))), (tt, tt))))

timed-returns_example :
    (send busy_env (some full_queue) (some (5 ∷ 6 ∷ [])) 20 ≢ none)
    × (receive busy_env (some full_queue) true 20 ≢ none)
timed-returns_example = timed-returns busy_env full_queue (5 ∷ 6 ∷ []) 20 refl (λ ts. refl)
