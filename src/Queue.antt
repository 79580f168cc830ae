-- ===== src/Queue.antt =====
-- odbcabstraction/include/odbcabstraction/blocking_queue.h: a ring buffer between producer threads
-- and a consumer. A critical section, from taking the mutex to releasing it or waiting, is one step;
-- the steps of the threads interleave in any order. The supplier is the caller's; what it answers
-- is an argument.
pub mod Ring
pub mod System
pub mod Turns
pub mod Phases
pub mod Overrun
pub mod Delivery
use gizmosql_odbc_driver.Prelude.{
  ℕ, zero, suc, ◌+◌, ◌-◌, ◌*◌, ◌%◌, Bool, true, false, not, ◌&&◌, ◌||◌, List, [], ◌∷◌, length,
  replicate, set, get_elem?, Option, none, some, ltb, leb, ◌==◌, if◌then◌else◌,
}
use gizmosql_odbc_driver.Exceptions.{Outcome, returns, throws, faults}

-- `left` is where items are removed, and `right` where they are put in.
pub record BlockingQueue (T : Type 0) : Type 0 where
  pub capacity : ℕ
  pub extended_capacity : ℕ
  pub buffer : List T
  pub buffer_size : ℕ
  pub left : ℕ
  pub right : ℕ
  pub active_threads : ℕ
  pub closed : Bool

-- What a wait on `not_full` has decided: to go on, or to wait for room in the buffer, for room in
-- the extended buffer, or for half a second.
pub data Admission : Type 0 where
  go_on wait_for_room wait_for_extended wait_for_time : Admission

module _ {T : Type 0} where
  unfoldable pub init : ℕ → Bool → T → BlockingQueue T
  init capacity use_extended_buffer blank =
      let extended = if use_extended_buffer then 1000 * capacity else 0 in
      record {
        capacity = capacity;
        extended_capacity = extended;
        buffer = replicate (if use_extended_buffer then extended else capacity) blank;
        buffer_size = 0;
        left = 0;
        right = 0;
        active_threads = 0;
        closed = false;
      }

  -- `extended_capacity_ ? extended_capacity_ : capacity_`
  abbrev pub slots : BlockingQueue T → ℕ
  slots q = if ltb 0 q.extended_capacity then q.extended_capacity else q.capacity

  abbrev pub has_slot : Option T → Outcome (BlockingQueue T) → Outcome (BlockingQueue T)
  has_slot none q = faults
  has_slot (some x) q = q

  -- A write outside the vector is undefined.
  unfoldable pub push : BlockingQueue T → T → Outcome (BlockingQueue T)
  push q x = has_slot (get_elem? q.buffer q.right) (
      returns (record q {
        buffer = set q.buffer q.right x;
        right = (q.right + 1) % slots q;
        buffer_size = suc q.buffer_size;
      }))

  -- The predicates of the waits.
  abbrev pub has_room : BlockingQueue T → Bool
  has_room q = q.closed || ltb q.buffer_size q.capacity

  abbrev pub has_extended_room : BlockingQueue T → Bool
  has_extended_room q = q.closed || ltb q.buffer_size q.extended_capacity

  -- `WaitUntilCanPushOrClosed` up to its wait. A wait whose predicate holds does not wait.
  unfoldable pub wait_until_can_push : BlockingQueue T → Admission
  wait_until_can_push q =
      if ltb 0 q.extended_capacity && leb q.extended_capacity q.buffer_size
      then (if has_extended_room q then go_on else wait_for_extended)
      else if ltb 0 q.extended_capacity && leb q.capacity q.buffer_size
      then wait_for_time
      else if has_room q
      then go_on
      else wait_for_room

  abbrev pub can_pop : BlockingQueue T → Bool
  can_pop q = q.closed || not (q.buffer_size == 0) || (q.active_threads == 0)

  -- The item that `Pop` moves out and the queue after it.
  abbrev pub taken : BlockingQueue T → Option T → Outcome (Option T × BlockingQueue T)
  taken q none = faults
  taken q (some x) =
      returns (some x, record q { left = (q.left + 1) % slots q; buffer_size = q.buffer_size - 1 })

  -- `Pop` once its wait is over: none for its result false.
  unfoldable pub pop : BlockingQueue T → Outcome (Option T × BlockingQueue T)
  pop q =
      if not q.closed && ltb 0 q.buffer_size
      then taken q (get_elem? q.buffer q.left)
      else returns (none, q)

  -- The part of `Close` under the mutex; the joins of the threads come after it.
  unfoldable pub close : BlockingQueue T → BlockingQueue T
  close q = record q { closed = true }
