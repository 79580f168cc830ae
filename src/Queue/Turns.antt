-- ===== src/Queue/Turns.antt =====
-- What one turn of a producer does to a queue without an extended buffer.
use gizmosql_odbc_driver.Prelude.{
  ℕ, ◌+◌, ◌-◌, ◌≤◌, ◌<◌, Bool, true, false, List, [], ◌∷◌, ◌++◌, Option, none, some, if◌then◌else◌,
  ◌≡◌, refl, sym, subst, arith,
}
use mathlib.Core.List.{append-nil}
use gizmosql_odbc_driver.Exceptions.{Outcome, returns}
use gizmosql_odbc_driver.Queue.{
  BlockingQueue, go_on, wait_for_room, has_room, wait_until_can_push, slots,
}
use gizmosql_odbc_driver.Queue.Ring.{Holds, push-Holds, Holds-update, pushed}
use gizmosql_odbc_driver.Queue.System.{
  Phase, running, waiting_for_room, waiting_for_extended, waiting_for_time, leaving, done, Turn,
  stays, supply, after_wait, admitted, producer_turn,
}

-- The phases of a producer of a queue without an extended buffer.
abbrev pub IsBounded : Phase → Type 0
IsBounded waiting_for_extended = ⊥
IsBounded waiting_for_time = ⊥
IsBounded _ = Unit

-- A thread counts as active until its end.
abbrev pub weight : Phase → ℕ
weight done = 0
weight _ = 1

module _ {T : Type 0} where
  -- A turn is good: the queue is that of before with what the thread has put in behind.
  pub record IsGoodTurn (q : BlockingQueue T) (items : List T) (p : Phase) (t : Turn T)
      : Type 0 where
    pub ring : Holds t.queue (items ++ t.items)
    pub bounded : t.queue.extended_capacity ≡ 0
    pub phase : IsBounded t.phase
    pub active : t.queue.active_threads + weight p ≡ q.active_threads + weight t.phase

  unfoldable pub GoodTurn : BlockingQueue T → List T → Phase → Outcome (Turn T) → Type 0
  GoodTurn q items p o = (t : Turn T) × (o ≡ returns t) × IsGoodTurn q items p t

  stays-GoodTurn :
      (q : BlockingQueue T) (items : List T) (p p' : Phase)
      → Holds q items
      → q.extended_capacity ≡ 0
      → IsBounded p'
      → weight p ≡ weight p'
      → GoodTurn q items p (stays q p')
  unfolding GoodTurn
  stays-GoodTurn q items p p' h bounded phase same = (
    _,
    refl,
    record { ring = rw append-nil h; bounded = bounded; phase = phase; active = omega arith },
  )

  -- A branch of which both ways are good.
  if-GoodTurn :
      (q : BlockingQueue T) (items : List T) (p : Phase) (b : Bool) (x y : Outcome (Turn T))
      → (b ≡ true → GoodTurn q items p x)
      → (b ≡ false → GoodTurn q items p y)
      → GoodTurn q items p (if b then x else y)
  if-GoodTurn q items p true x y f g = f refl
  if-GoodTurn q items p false x y f g = g refl

  -- A queue with room that is not closed has a free slot.
  room_slot :
      (q : BlockingQueue T)
      → q.extended_capacity ≡ 0
      → q.closed ≡ false
      → has_room q ≡ true
      → q.buffer_size < slots q
  room_slot q bounded opened room = ground arith

  supply-GoodTurn :
      (q : BlockingQueue T) (items : List T) (p : Phase) (answer : Option T)
      → Holds q items
      → q.extended_capacity ≡ 0
      → q.buffer_size < slots q
      → weight p ≡ 1
      → GoodTurn q items p (supply q answer)
  unfolding GoodTurn
  supply-GoodTurn q items p none h bounded slot active =
      unfold GoodTurn in stays-GoodTurn q items p leaving h bounded tt active
  supply-GoodTurn q items p (some x) h bounded slot active =
      let pushing = push-Holds q items x h slot in
      let turn : Turn T = record { queue = pushed q x; phase = running; items = x ∷ [] } in
      (
        turn,
        rw pushing.0,
        record { ring = pushing.1; bounded = bounded; phase = tt; active = omega arith },
      )

  after_wait-GoodTurn :
      (q : BlockingQueue T) (items : List T) (p : Phase) (answer : Option T)
      → Holds q items
      → q.extended_capacity ≡ 0
      → has_room q ≡ true
      → weight p ≡ 1
      → GoodTurn q items p (after_wait q answer)
  unfolding after_wait
  after_wait-GoodTurn q items p answer h bounded room active =
      if-GoodTurn q items p q.closed (stays q leaving) (supply q answer)
        (λ shut. stays-GoodTurn q items p leaving h bounded tt active)
        (λ opened.
          supply-GoodTurn q items p answer h bounded (room_slot q bounded opened room) active)

  -- Without an extended buffer a producer only ever waits for room.
  bounded_admission :
      (q : BlockingQueue T)
      → q.extended_capacity ≡ 0
      → wait_until_can_push q ≡ (if has_room q then go_on else wait_for_room)
  unfolding wait_until_can_push
  bounded_admission q bounded = ground arith

  admitted-GoodTurn :
      (q : BlockingQueue T) (items : List T) (answer : Option T) (b : Bool)
      → Holds q items
      → q.extended_capacity ≡ 0
      → has_room q ≡ b
      → GoodTurn q items running (admitted q answer (if b then go_on else wait_for_room))
  admitted-GoodTurn q items answer true h bounded room =
      after_wait-GoodTurn q items running answer h bounded room refl
  admitted-GoodTurn q items answer false h bounded room =
      stays-GoodTurn q items running waiting_for_room h bounded tt refl

  pub producer_turn-GoodTurn :
      (q : BlockingQueue T) (items : List T) (answer : Option T) (p : Phase)
      → Holds q items
      → q.extended_capacity ≡ 0
      → IsBounded p
      → weight p ≤ q.active_threads
      → GoodTurn q items p (producer_turn q answer p)
  unfolding producer_turn
  producer_turn-GoodTurn q items answer running h bounded phase active =
      if-GoodTurn q items running q.closed (stays q leaving)
        (admitted q answer (wait_until_can_push q))
        (λ shut. stays-GoodTurn q items running leaving h bounded tt refl)
        (λ opened.
          subst (λ a. GoodTurn q items running (admitted q answer a))
            (sym (bounded_admission q bounded))
            (admitted-GoodTurn q items answer (has_room q) h bounded refl))
  producer_turn-GoodTurn q items answer waiting_for_room h bounded phase active =
      if-GoodTurn q items waiting_for_room (has_room q) (after_wait q answer)
        (stays q waiting_for_room)
        (λ room. after_wait-GoodTurn q items waiting_for_room answer h bounded room refl)
        (λ full. stays-GoodTurn q items waiting_for_room waiting_for_room h bounded tt refl)
  producer_turn-GoodTurn q items answer waiting_for_extended h bounded phase active = absurd phase
  producer_turn-GoodTurn q items answer waiting_for_time h bounded phase active = absurd phase
  producer_turn-GoodTurn q items answer leaving h bounded phase active =
      unfold GoodTurn in
      let after : BlockingQueue T = record q { active_threads = q.active_threads - 1 } in
      let turn : Turn T = record { queue = after; phase = done; items = [] } in
      (
        turn,
        refl,
        record {
          ring = rw append-nil (Holds-update q (q.active_threads - 1) q.closed items h);
          bounded = bounded;
          phase = tt;
          active = omega arith;
        },
      )
  producer_turn-GoodTurn q items answer done h bounded phase active =
      stays-GoodTurn q items done done h bounded tt refl
