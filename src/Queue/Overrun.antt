-- ===== src/Queue/Overrun.antt =====
-- The extended buffer with two producers. The wait of half a second returns without a second look at
-- the size, so two threads that wait for the last slot both put in.
use gizmosql_odbc_driver.Prelude.{
  suc, false, List, [], ◌∷◌, ◌++◌, length, some, ◌≡◌, arith, ap, ◌∙◌, length-set, if◌then◌else◌,
}
use gizmosql_odbc_driver.Exceptions.{returns, ◌>>=◌}
use gizmosql_odbc_driver.Queue.{BlockingQueue, slots}
use gizmosql_odbc_driver.Queue.Ring.{Holds, push-Holds, push-pushed, pushed}
use gizmosql_odbc_driver.Queue.System.{
  running, leaving, waiting_for_time, stays, supply, Turn, producer_turn, back_to_loop, after_wait,
}

module _ {T : Type 0} where
  timed_turn :
      (q : BlockingQueue T) (items : List T) (x : T)
      → Holds q items
      → q.closed ≡ false
      → producer_turn q (some x) waiting_for_time
        ≡ returns (record { queue = pushed q x; phase = running; items = x ∷ [] })
  unfolding producer_turn after_wait
  timed_turn q items x h opened =
      ap (λ b. if b then stays q leaving else supply q (some x)) opened
      ∙ ap (◌>>= back_to_loop x) (push-pushed q items x h)

  -- In an open queue with one free slot left, the turns of two producers that were waiting for time
  -- both put in an item: the size is then one more than there are slots.
  pub timed_overrun :
      (q : BlockingQueue T) (items : List T) (x y : T)
      → Holds q items
      → q.closed ≡ false
      → suc q.buffer_size ≡ slots q
      → (first second : Turn T) × (producer_turn q (some x) waiting_for_time ≡ returns first)
        × (producer_turn first.queue (some y) waiting_for_time ≡ returns second)
        × (second.queue.buffer_size ≡ suc (slots second.queue))
        × (length second.queue.buffer ≡ slots second.queue)
  timed_overrun q items x y h opened last =
      let filled = push-Holds q items x h (omega arith) in
      let first : Turn T = record { queue = pushed q x; phase = running; items = x ∷ [] } in
      let second : Turn T = record {
        queue = pushed (pushed q x) y;
        phase = running;
        items = y ∷ [];
      } in
      (
        first,
        second,
        timed_turn q items x h opened,
        timed_turn (pushed q x) (items ++ x ∷ []) y filled.1 opened,
        ap suc last,
        length-set (pushed q x).buffer (pushed q x).right y ∙ filled.1.whole_vector,
      )
