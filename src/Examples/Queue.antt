-- ===== src/Examples/Queue.antt =====
-- Runs of blocking_queue.h.
use gizmosql_odbc_driver.Prelude.{
  ℕ, suc, length, List, [], ◌∷◌, false, some, none, ◌≡◌, refl, arith,
}
use gizmosql_odbc_driver.Exceptions.{returns}
use gizmosql_odbc_driver.Queue.{BlockingQueue, init, push, pop, slots, wait_until_can_push}
use gizmosql_odbc_driver.Queue.Ring.{Holds}
use gizmosql_odbc_driver.Queue.System.{
  done, waiting_for_time, System, Event, adds_producer, producer, pops, start, step, run, Turn,
  producer_turn, add_producer, after_wait,
}
use gizmosql_odbc_driver.Queue.Phases.{active_count}
use gizmosql_odbc_driver.Queue.Delivery.{IsSafe, run_lem, pop_drained}
use gizmosql_odbc_driver.Queue.Overrun.{timed_overrun}

-- Two producers of a queue of capacity 1: the second waits until the first item has been popped,
-- and both come to their end.
abbrev schedule : List (Event ℕ)
schedule =
    adds_producer
    ∷ adds_producer
    ∷ producer 0 (some 7)
    ∷ producer 1 (some 8)
    ∷ pops
    ∷ producer 1 (some 8)
    ∷ pops
    ∷ producer 0 none
    ∷ producer 1 none
    ∷ producer 0 none
    ∷ producer 1 none
    ∷ []

abbrev drained : System ℕ
drained = record {
  queue = record {
    capacity = 1;
    extended_capacity = 0;
    buffer = 8 ∷ [];
    buffer_size = 0;
    left = 0;
    right = 0;
    active_threads = 0;
    closed = false;
  };
  producers = done ∷ done ∷ [];
  produced = 7 ∷ 8 ∷ [];
  delivered = 7 ∷ 8 ∷ [];
}

scheduled : run (start 1 false 0) schedule ≡ returns drained
unfolding run step init add_producer producer_turn after_wait wait_until_can_push push pop
scheduled = refl

run_lem_example : (s : System ℕ) × (run (start 1 false 0) schedule ≡ returns s) × IsSafe s
run_lem_example = run_lem 1 0 schedule (omega arith)

pop_drained_example : (drained.produced ≡ drained.delivered) × (active_count drained.producers ≡ 0)
pop_drained_example =
    pop_drained 1 0 schedule drained drained.queue (omega arith) scheduled refl refl
      (unfold pop in refl)

-- A queue of capacity 1 and two extended slots, one of them taken.
abbrev half_full : BlockingQueue ℕ
half_full = record {
  capacity = 1;
  extended_capacity = 2;
  buffer = 5 ∷ 0 ∷ [];
  buffer_size = 1;
  left = 0;
  right = 1;
  active_threads = 2;
  closed = false;
}

half_full-Holds : Holds half_full (5 ∷ [])
half_full-Holds = record {
  some_slot = omega arith;
  whole_vector = refl;
  left_inside = omega arith;
  right_after = refl;
  size_bounded = omega arith;
  contents = refl;
}

timed_overrun_example :
    (first second : Turn ℕ) × (producer_turn half_full (some 6) waiting_for_time ≡ returns first)
    × (producer_turn first.queue (some 7) waiting_for_time ≡ returns second)
    × (second.queue.buffer_size ≡ suc (slots second.queue))
    × (length second.queue.buffer ≡ slots second.queue)
timed_overrun_example = timed_overrun half_full (5 ∷ []) 6 7 half_full-Holds refl refl
