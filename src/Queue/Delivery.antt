-- ===== src/Queue/Delivery.antt =====
-- Nothing is lost, doubled or reordered between the producers and the consumer.
use gizmosql_odbc_driver.Prelude.{
  ℕ, suc, ◌<◌, Bool, true, false, List, [], ◌∷◌, ◌++◌, set, get_elem?, Option, none, some,
  if◌then◌else◌, ◌≡◌, refl, sym, ap, ◌∙◌, subst, arith, Bool-cases, Option-cases, inl, inr,
}
use mathlib.Core.List.{append-nil, append_assoc}
use mathlib.Core.Option.{none-ne-some}
use gizmosql_odbc_driver.Exceptions.{Outcome, returns, throws, faults, ◌>>=◌}
use gizmosql_odbc_driver.Queue.{BlockingQueue, init, pop, close, can_pop}
use gizmosql_odbc_driver.Queue.Ring.{
  Holds, Holds-update, pop-closed, pop-empty, pop-Holds, Holds-empty, init-Holds, popped,
}
use gizmosql_odbc_driver.Queue.System.{
  Phase, producer_turn, System, Event, adds_producer, producer, pops, closes, start, add_producer,
  end_turn, turn_of, delivers, step, run,
}
use gizmosql_odbc_driver.Queue.Turns.{GoodTurn, producer_turn-GoodTurn}
use gizmosql_odbc_driver.Queue.Phases.{
  AllBounded, active_count, AllBounded-get, AllBounded-set, AllBounded-append, active_count-append,
  active_count-get, active_count-set,
}

module _ {T : Type 0} where
  -- The ring holds what has been put in and not yet given out, in order, never more than its
  -- capacity, and the queue knows how many threads have not come to their end.
  pub record IsSafe (s : System T) : Type 0 where
    pub waiting : List T
    pub ring : Holds s.queue waiting
    pub history : s.produced ≡ s.delivered ++ waiting
    pub bounded : s.queue.extended_capacity ≡ 0
    pub phases : AllBounded s.producers
    pub active : s.queue.active_threads ≡ active_count s.producers

  unfoldable pub SafeOutcome : Outcome (System T) → Type 0
  SafeOutcome o = (s : System T) × (o ≡ returns s) × IsSafe s

  end_turn-IsSafe :
      (s : System T) (i : ℕ) (p : Phase) (answer : Option T)
      → (safe : IsSafe s) → get_elem? s.producers i ≡ some p
      → SafeOutcome (producer_turn s.queue answer p >>= end_turn s i)
  unfolding SafeOutcome GoodTurn
  end_turn-IsSafe s i p answer safe at =
      let fits = active_count-get s.producers i p at in
      let (turn, ends, good) =
        producer_turn-GoodTurn s.queue safe.waiting answer p safe.ring safe.bounded
          (AllBounded-get s.producers i p safe.phases at) (omega (arith, fits, safe.active)) in
      let after : System T = record s {
        queue = turn.queue;
        producers = set s.producers i turn.phase;
        produced = s.produced ++ turn.items;
      } in
      (
        after,
        rw ends,
        record {
          waiting = safe.waiting ++ turn.items;
          ring = good.ring;
          history =
              ap (◌++ turn.items) safe.history ∙ append_assoc s.delivered safe.waiting turn.items;
          bounded = good.bounded;
          phases = AllBounded-set s.producers i turn.phase safe.phases good.phase;
          active =
              omega
                (arith, good.active, safe.active, active_count-set s.producers i p turn.phase at);
        },
      )

  turn_of-IsSafe :
      (s : System T) (i : ℕ) (answer : Option T)
      → IsSafe s
      → SafeOutcome (turn_of s i answer (get_elem? s.producers i))
  unfolding SafeOutcome
  turn_of-IsSafe s i answer safe = elim (Option-cases (get_elem? s.producers i)) [
    | inl nobody ↦ (s, rw nobody, safe)
    | inr (p, at) ↦ rw at (end_turn-IsSafe s i p answer safe at)
  ]

  if-IsSafe :
      (b : Bool) (x y : Outcome (System T))
      → (b ≡ true → SafeOutcome x)
      → (b ≡ false → SafeOutcome y)
      → SafeOutcome (if b then x else y)
  if-IsSafe true x y f g = f refl
  if-IsSafe false x y f g = g refl

  -- `Pop` gives nothing out.
  idle_pop-IsSafe :
      (s : System T)
      → IsSafe s
      → pop s.queue ≡ returns (none, s.queue)
      → SafeOutcome (pop s.queue >>= delivers s)
  unfolding SafeOutcome
  idle_pop-IsSafe s safe e = (s, ap (◌>>= delivers s) e, safe)

  -- `Pop` gives out the oldest item.
  item_pop-IsSafe :
      (s : System T) (x : T) (rest : List T)
      → (safe : IsSafe s) → s.queue.closed ≡ false
      → safe.waiting ≡ x ∷ rest
      → SafeOutcome (pop s.queue >>= delivers s)
  unfolding SafeOutcome
  item_pop-IsSafe s x rest safe opened holds =
      let popping = pop-Holds s.queue x rest opened (subst (Holds s.queue) holds safe.ring) in
      let after : System T = record s {
        queue = popped s.queue;
        delivered = s.delivered ++ x ∷ [];
      } in
      (
        after,
        ap (◌>>= delivers s) popping.0,
        record {
          waiting = rest;
          ring = popping.1;
          history =
              safe.history
              ∙ ap (s.delivered ++◌) holds
              ∙ sym (append_assoc s.delivered (x ∷ []) rest);
          bounded = safe.bounded;
          phases = safe.phases;
          active = safe.active;
        },
      )

  pop-IsSafe :
      (s : System T) (waiting : List T)
      → (safe : IsSafe s) → safe.waiting ≡ waiting
      → SafeOutcome (pop s.queue >>= delivers s)
  pop-IsSafe s [] safe holds =
      let none_left = Holds-empty s.queue (subst (Holds s.queue) holds safe.ring) in
      idle_pop-IsSafe s safe (pop-empty s.queue none_left)
  pop-IsSafe s (x ∷ rest) safe holds = elim (Bool-cases s.queue.closed) [
    | inl shut ↦ idle_pop-IsSafe s safe (pop-closed s.queue shut)
    | inr opened ↦ item_pop-IsSafe s x rest safe opened holds
  ]

  add_producer-IsSafe : (s : System T) → IsSafe s → IsSafe (add_producer s)
  unfolding add_producer
  add_producer-IsSafe s safe = record {
    waiting = safe.waiting;
    ring = Holds-update s.queue (suc s.queue.active_threads) s.queue.closed safe.waiting safe.ring;
    history = safe.history;
    bounded = safe.bounded;
    phases = AllBounded-append s.producers safe.phases;
    active = omega (arith, safe.active, active_count-append s.producers);
  }

  close-IsSafe : (s : System T) → IsSafe s → IsSafe (record s { queue = close s.queue })
  unfolding close
  close-IsSafe s safe = record {
    waiting = safe.waiting;
    ring = Holds-update s.queue s.queue.active_threads true safe.waiting safe.ring;
    history = safe.history;
    bounded = safe.bounded;
    phases = safe.phases;
    active = safe.active;
  }

  step-IsSafe : (s : System T) (e : Event T) → IsSafe s → SafeOutcome (step s e)
  unfolding step
  step-IsSafe s adds_producer safe =
      unfold SafeOutcome in (add_producer s, refl, add_producer-IsSafe s safe)
  step-IsSafe s (producer i answer) safe = turn_of-IsSafe s i answer safe
  step-IsSafe s pops safe =
      if-IsSafe (can_pop s.queue) (pop s.queue >>= delivers s) (returns s)
        (λ ready. pop-IsSafe s safe.waiting safe refl)
        (λ waits. unfold SafeOutcome in (s, refl, safe))
  step-IsSafe s closes safe =
      unfold SafeOutcome in (record s { queue = close s.queue }, refl, close-IsSafe s safe)

  run-IsSafe : (s : System T) (es : List (Event T)) → IsSafe s → SafeOutcome (run s es)
  unfolding run SafeOutcome
  run-IsSafe s [] safe = (s, refl, safe)
  run-IsSafe s (e ∷ es) safe =
      let (s', stepped, safe') = step-IsSafe s e safe in
      let (s'', ran, safe'') = run-IsSafe s' es safe' in
      (s'', ap (◌>>= λ t. run t es) stepped ∙ ran, safe'')

  -- From a queue of positive capacity without an extended buffer, any schedule of any number of
  -- producers, pops and closes runs without undefined behaviour, and afterwards what has been put
  -- in is what has been given out followed by what the ring holds, in order.
  pub run_lem :
      (capacity : ℕ) (blank : T) (events : List (Event T))
      → 0 < capacity
      → (s : System T) × (run (start capacity false blank) events ≡ returns s) × IsSafe s
  unfolding SafeOutcome init
  run_lem capacity blank events h = run-IsSafe (start capacity false blank) events (record {
    waiting = [];
    ring = init-Holds capacity false blank h;
    history = refl;
    bounded = refl;
    phases = tt;
    active = refl;
  })

  returns-injective : (a b : System T) → returns a ≡ returns b → a ≡ b
  returns-injective a b e = ap (returned_or a) e
    where
      returned_or : System T → Outcome (System T) → System T
      returned_or a (returns s) = s
      returned_or a (throws x) = a
      returned_or a faults = a

  abbrev given : Outcome (Option T × BlockingQueue T) → Option T
  given (returns (o, q)) = o
  given _ = none

  drained_by :
      (s : System T) (waiting : List T) (q : BlockingQueue T)
      → (safe : IsSafe s) → safe.waiting ≡ waiting
      → s.queue.closed ≡ false
      → can_pop s.queue ≡ true
      → pop s.queue ≡ returns (none, q)
      → (s.produced ≡ s.delivered) × (active_count s.producers ≡ 0)
  drained_by s [] q safe holds opened ready nothing =
      let none_left = Holds-empty s.queue (subst (Holds s.queue) holds safe.ring) in
      let at_end : s.queue.active_threads ≡ 0 = ground arith in
      (safe.history ∙ ap (s.delivered ++◌) holds ∙ append-nil s.delivered, sym safe.active ∙ at_end)
  drained_by s (x ∷ rest) q safe holds opened ready nothing =
      let popping = pop-Holds s.queue x rest opened (subst (Holds s.queue) holds safe.ring) in
      let same : returns (some x, popped s.queue) ≡ returns (none, q) = sym popping.0 ∙ nothing in
      absurd (none-ne-some x (sym (ap given same)))

  -- If after some schedule the queue is not closed and `Pop` can go on but has no item, then each
  -- item put in has been given out, in order, and every producer has come to its end.
  pub pop_drained :
      (capacity : ℕ) (blank : T) (events : List (Event T)) (s : System T) (q : BlockingQueue T)
      → 0 < capacity
      → run (start capacity false blank) events ≡ returns s
      → s.queue.closed ≡ false
      → can_pop s.queue ≡ true
      → pop s.queue ≡ returns (none, q)
      → (s.produced ≡ s.delivered) × (active_count s.producers ≡ 0)
  pop_drained capacity blank events s q h ran opened ready nothing =
      let (s', ran', safe') = run_lem capacity blank events h in
      let safe = subst IsSafe (returns-injective s' s (sym ran' ∙ ran)) safe' in
      drained_by s safe.waiting q safe refl opened ready nothing
