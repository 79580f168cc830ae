-- ===== src/Queue/System.antt =====
-- Producer threads and the consumer around the queue of blocking_queue.h, one critical section at a
-- time, under any schedule.
use gizmosql_odbc_driver.Prelude.{
  ℕ, suc, ◌-◌, Bool, List, [], ◌∷◌, ◌++◌, set, get_elem?, Option, none, some, if◌then◌else◌,
}
use gizmosql_odbc_driver.Exceptions.{Outcome, returns, ◌>>=◌}
use gizmosql_odbc_driver.Queue.{
  BlockingQueue, Admission, go_on, wait_for_room, wait_for_extended, wait_for_time, init, push, pop,
  close, has_room, has_extended_room, wait_until_can_push, can_pop,
}

-- Where a producer's thread is: at the test of its loop, in one of the waits, behind the loop, or
-- at its end.
pub data Phase : Type 0 where
  running waiting_for_room waiting_for_extended waiting_for_time leaving done : Phase

-- What a thread's critical section leaves: the queue, the thread's phase, and what it has put in.
pub record Turn (T : Type 0) : Type 0 where
  pub queue : BlockingQueue T
  pub phase : Phase
  pub items : List T

module _ {T : Type 0} where
  abbrev pub stays : BlockingQueue T → Phase → Outcome (Turn T)
  stays q p = returns (record { queue = q; phase = p; items = [] })

  abbrev pub back_to_loop : T → BlockingQueue T → Outcome (Turn T)
  back_to_loop x q = returns (record { queue = q; phase = running; items = x ∷ [] })

  -- `auto item = supplier(); if (!item) break; Push(*item);`
  abbrev pub supply : BlockingQueue T → Option T → Outcome (Turn T)
  supply q none = stays q leaving
  supply q (some x) = push q x >>= back_to_loop x

  -- After the wait: its result is `!closed_`.
  unfoldable pub after_wait : BlockingQueue T → Option T → Outcome (Turn T)
  after_wait q answer = if q.closed then stays q leaving else supply q answer

  abbrev pub admitted : BlockingQueue T → Option T → Admission → Outcome (Turn T)
  admitted q answer go_on = after_wait q answer
  admitted q answer wait_for_room = stays q waiting_for_room
  admitted q answer wait_for_extended = stays q waiting_for_extended
  admitted q answer wait_for_time = stays q waiting_for_time

  -- The next critical section of a producer, whose supplier answers `answer` if it is called.
  unfoldable pub producer_turn : BlockingQueue T → Option T → Phase → Outcome (Turn T)
  unfolding after_wait
  producer_turn q answer running =
      if q.closed then stays q leaving else admitted q answer (wait_until_can_push q)
  producer_turn q answer waiting_for_room =
      if has_room q then after_wait q answer else stays q waiting_for_room
  producer_turn q answer waiting_for_extended =
      if has_extended_room q then after_wait q answer else stays q waiting_for_extended
  producer_turn q answer waiting_for_time = after_wait q answer
  producer_turn q answer leaving = stays (record q { active_threads = q.active_threads - 1 }) done
  producer_turn q answer done = stays q done

-- The queue, its producers, and what all producers have put in and `Pop` has given out so far.
pub record System (T : Type 0) : Type 0 where
  pub queue : BlockingQueue T
  pub producers : List Phase
  pub produced : List T
  pub delivered : List T

-- `AddProducer`, a producer's turn, an attempt to go on in `Pop`, and `Close`.
pub data Event (T : Type 0) : Type 0 where
  adds_producer : Event T
  producer : ℕ → Option T → Event T
  pops : Event T
  closes : Event T

module _ {T : Type 0} where
  abbrev pub start : ℕ → Bool → T → System T
  start capacity use_extended_buffer blank = record {
    queue = init capacity use_extended_buffer blank;
    producers = [];
    produced = [];
    delivered = [];
  }

  unfoldable pub add_producer : System T → System T
  add_producer s = record s {
    queue = record s.queue { active_threads = suc s.queue.active_threads };
    producers = s.producers ++ running ∷ [];
  }

  abbrev pub end_turn : System T → ℕ → Turn T → Outcome (System T)
  end_turn s i turn = returns (record s {
    queue = turn.queue;
    producers = set s.producers i turn.phase;
    produced = s.produced ++ turn.items;
  })

  -- No thread has a number out of range, and nothing happens.
  abbrev pub turn_of : System T → ℕ → Option T → Option Phase → Outcome (System T)
  turn_of s i answer none = returns s
  turn_of s i answer (some p) = producer_turn s.queue answer p >>= end_turn s i

  abbrev pub delivers : System T → Option T × BlockingQueue T → Outcome (System T)
  delivers s (none, q) = returns (record s { queue = q })
  delivers s (some x, q) = returns (record s { queue = q; delivered = s.delivered ++ x ∷ [] })

  unfoldable pub step : System T → Event T → Outcome (System T)
  unfolding add_producer
  step s adds_producer = returns (add_producer s)
  step s (producer i answer) = turn_of s i answer (get_elem? s.producers i)
  step s pops = if can_pop s.queue then pop s.queue >>= delivers s else returns s
  step s closes = returns (record s { queue = close s.queue })

  unfoldable pub run : System T → List (Event T) → Outcome (System T)
  run s [] = returns s
  run s (e ∷ es) = step s e >>= λ s'. run s' es
