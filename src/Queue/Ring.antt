-- ===== src/Queue/Ring.antt =====
-- The ring buffer as a queue.
use gizmosql_odbc_driver.Prelude.{
  ℕ, zero, suc, ◌+◌, ◌-◌, ◌*◌, ◌%◌, ◌≤◌, ◌<◌, Bool, true, false, List, [], ◌∷◌, ◌++◌, length, set,
  get_elem?, Option, none, some, ltb, ◌≡◌, ◌≢◌, refl, sym, ap, ◌∙◌, map, arith, get_elem?-some,
  get_elem?-set_self, length-set, length-replicate, Bool-cases, ◌⊎◌, inl, inr,
}
use gizmosql_odbc_driver.Exceptions.{returns}
use gizmosql_odbc_driver.Queue.{BlockingQueue, init, slots, push, pop}
use mathlib.Core.List.{cons≢nil}
use native.Mathlib.Nat.{mod-eq_of_lt, mod-eq-sub-mod, mod-add-mod, mod-lt}

abbrev pub tabulate {ℓ} : {A : Type ℓ} → (ℕ → A) → ℕ → List A
tabulate f zero = []
tabulate f (suc n) = f 0 ∷ tabulate (λ k. f (suc k)) n

tabulate-ext {ℓ} :
    {A : Type ℓ} (f g : ℕ → A) (n : ℕ) → ((k : ℕ) → k < n → f k ≡ g k) → tabulate f n ≡ tabulate g n
tabulate-ext f g zero h = refl
tabulate-ext f g (suc n) h = rw (h 0 (omega arith)) (
    ap (◌∷◌ (g 0))
      (tabulate-ext (λ k. f (suc k)) (λ k. g (suc k)) n (λ k lt. h (suc k) (omega arith))))

tabulate-last {ℓ} : {A : Type ℓ} (f : ℕ → A) (n : ℕ) → tabulate f (suc n) ≡ tabulate f n ++ f n ∷ []
tabulate-last f zero = refl
tabulate-last f (suc n) = ap (◌∷◌ (f 0)) (tabulate-last (λ k. f (suc k)) n)

tabulate-nil {ℓ} : {A : Type ℓ} (f : ℕ → A) (n : ℕ) → tabulate f n ≡ [] → n ≡ 0
tabulate-nil f zero e = refl
tabulate-nil f (suc n) e = absurd (cons≢nil e)

tabulate-cons {ℓ} :
    {A : Type ℓ} (f : ℕ → A) (n : ℕ) (y : A) (ys : List A)
    → tabulate f n ≡ y ∷ ys
    → (0 < n) × (f 0 ≡ y) × (tabulate (λ k. f (suc k)) (n - 1) ≡ ys)
tabulate-cons f zero y ys e = absurd (cons≢nil (sym e))
tabulate-cons f (suc n) y ys e =
    let less : suc n - 1 ≡ n = omega arith in
    (omega arith, cc, ap (tabulate (λ k. f (suc k))) less ∙ cc)

get_elem?-set_other {ℓ} :
    {A : Type ℓ} (xs : List A) (i j : ℕ) (v : A) → i ≢ j → get_elem? (set xs i v) j ≡ get_elem? xs j
get_elem?-set_other [] i j v ne = refl
get_elem?-set_other (x ∷ xs) zero zero v ne = absurd (ne refl)
get_elem?-set_other (x ∷ xs) zero (suc j) v ne = refl
get_elem?-set_other (x ∷ xs) (suc i) zero v ne = refl
get_elem?-set_other (x ∷ xs) (suc i) (suc j) v ne =
    get_elem?-set_other xs i j v (λ e. ne (ap suc e))

-- A position that runs over the end by less than a turn.
wrap : (a s : ℕ) → a < s + s → ((a < s) × (a % s ≡ a)) ⊎ ((s ≤ a) × (a % s ≡ a - s))
wrap a s h = elim (Bool-cases (ltb a s)) [
  | inl e ↦ inl (ground arith, mod-eq_of_lt (ground arith))
  | inr e ↦
      let over : s ≤ a = ground arith in
      inr (over, mod-eq-sub-mod over ∙ mod-eq_of_lt (omega arith))
]

-- Two positions less than a turn apart are different slots.
apart : (l i j s : ℕ) → l < s → i < j → j < s → (l + j) % s ≢ (l + i) % s
apart l i j s h lt j_lt e = elim (wrap (l + i) s (omega arith)) [
  | inl p ↦ elim (wrap (l + j) s (omega arith)) [ inl r ↦ omega arith | inr r ↦ omega arith ]
  | inr p ↦ elim (wrap (l + j) s (omega arith)) [ inl r ↦ omega arith | inr r ↦ omega arith ]
]

map-append_last {ℓ κ} :
    {A : Type ℓ} {B : Type κ} (f : A → B) (xs : List A) (x : A)
    → map f (xs ++ x ∷ []) ≡ map f xs ++ f x ∷ []
map-append_last f [] x = refl
map-append_last f (y ∷ xs) x = ap (◌∷◌ (f y)) (map-append_last f xs x)

module _ {T : Type 0} where
  -- The `k`th item from the front.
  abbrev pub item : BlockingQueue T → ℕ → Option T
  item q k = get_elem? q.buffer ((q.left + k) % slots q)

  -- The ring is well formed and holds `items`, the oldest first.
  pub record Holds (q : BlockingQueue T) (items : List T) : Type 0 where
    pub some_slot : 0 < slots q
    pub whole_vector : length q.buffer ≡ slots q
    pub left_inside : q.left < slots q
    pub right_after : q.right ≡ (q.left + q.buffer_size) % slots q
    pub size_bounded : q.buffer_size ≤ slots q
    pub contents : tabulate (item q) q.buffer_size ≡ map some items

  abbrev pub pushed : BlockingQueue T → T → BlockingQueue T
  pushed q x = record q {
    buffer = set q.buffer q.right x;
    right = (q.right + 1) % slots q;
    buffer_size = suc q.buffer_size;
  }

  -- The slot behind the last item is in the vector.
  right_inside : (q : BlockingQueue T) (items : List T) → Holds q items → q.right < length q.buffer
  right_inside q items h =
      let within : (q.left + q.buffer_size) % slots q < slots q =
        mod-lt (q.left + q.buffer_size) h.some_slot in
      omega (arith, h.right_after, h.whole_vector)

  pushed-right :
      (q : BlockingQueue T) (items : List T)
      → Holds q items
      → (q.right + 1) % slots q ≡ (q.left + suc q.buffer_size) % slots q
  pushed-right q items h =
      let at_end : q.left + q.buffer_size + 1 ≡ q.left + suc q.buffer_size = omega arith in
      ap (λ r. (r + 1) % slots q) h.right_after
      ∙ mod-add-mod (q.left + q.buffer_size) (slots q) 1
      ∙ ap (λ n. n % slots q) at_end

  -- The old items stand where they stood.
  pushed-old :
      (q : BlockingQueue T) (items : List T) (x : T)
      → Holds q items
      → q.buffer_size < slots q
      → (k : ℕ) → k < q.buffer_size
      → item (pushed q x) k ≡ item q k
  pushed-old q items x h room k lt =
      get_elem?-set_other q.buffer q.right ((q.left + k) % slots q) x
        (λ e. apart q.left k q.buffer_size (slots q) h.left_inside lt room (sym h.right_after ∙ e))

  pushed-new :
      (q : BlockingQueue T) (items : List T) (x : T)
      → Holds q items
      → item (pushed q x) q.buffer_size ≡ some x
  pushed-new q items x h =
      ap (get_elem? (set q.buffer q.right x)) (sym h.right_after)
      ∙ get_elem?-set_self q.buffer q.right x (right_inside q items h)

  pushed-Holds :
      (q : BlockingQueue T) (items : List T) (x : T)
      → Holds q items
      → q.buffer_size < slots q
      → Holds (pushed q x) (items ++ x ∷ [])
  pushed-Holds q items x h room = record {
    some_slot = h.some_slot;
    whole_vector = length-set q.buffer q.right x ∙ h.whole_vector;
    left_inside = h.left_inside;
    right_after = pushed-right q items h;
    size_bounded = omega arith;
    contents =
        tabulate-last (item (pushed q x)) q.buffer_size
        ∙ ap (◌++ item (pushed q x) q.buffer_size ∷ []) (
            tabulate-ext (item (pushed q x)) (item q) q.buffer_size (pushed-old q items x h room)
            ∙ h.contents)
        ∙ ap (λ o. map some items ++ o ∷ []) (pushed-new q items x h)
        ∙ sym (map-append_last some items x);
  }

  -- `Push` itself does not look whether there is room.
  pub push-pushed :
      (q : BlockingQueue T) (items : List T) (x : T)
      → Holds q items
      → push q x ≡ returns (pushed q x)
  unfolding push
  push-pushed q items x h = rw (get_elem?-some q.buffer q.right (right_inside q items h)).1

  -- With a free slot, `Push` succeeds and puts the item behind the others.
  pub push-Holds :
      (q : BlockingQueue T) (items : List T) (x : T)
      → Holds q items
      → q.buffer_size < slots q
      → (push q x ≡ returns (pushed q x)) × Holds (pushed q x) (items ++ x ∷ [])
  push-Holds q items x h room = (push-pushed q items x h, pushed-Holds q items x h room)

  abbrev pub popped : BlockingQueue T → BlockingQueue T
  popped q = record q { left = (q.left + 1) % slots q; buffer_size = q.buffer_size - 1 }

  -- What is left after the first item.
  popped-item : (q : BlockingQueue T) (k : ℕ) → item (popped q) k ≡ item q (suc k)
  popped-item q k =
      let at_next : q.left + 1 + k ≡ q.left + suc k = omega arith in
      ap (get_elem? q.buffer) (mod-add-mod (q.left + 1) (slots q) k ∙ ap (λ n. n % slots q) at_next)

  popped-right :
      (q : BlockingQueue T) (items : List T)
      → Holds q items
      → 0 < q.buffer_size
      → q.right ≡ ((q.left + 1) % slots q + (q.buffer_size - 1)) % slots q
  popped-right q items h some_item =
      let at_end : q.left + 1 + (q.buffer_size - 1) ≡ q.left + q.buffer_size = omega arith in
      h.right_after
      ∙ sym (mod-add-mod (q.left + 1) (slots q) (q.buffer_size - 1) ∙ ap (λ n. n % slots q) at_end)

  -- The first item of a ring that holds one.
  first_item :
      (q : BlockingQueue T) (x : T) (items : List T)
      → Holds q (x ∷ items)
      → (0 < q.buffer_size)
        × (get_elem? q.buffer q.left ≡ some x)
        × (tabulate (λ k. item q (suc k)) (q.buffer_size - 1) ≡ map some items)
  first_item q x items h =
      let split = tabulate-cons (item q) q.buffer_size (some x) (map some items) h.contents in
      let same : q.left + 0 ≡ q.left = omega arith in
      let here : (q.left + 0) % slots q ≡ q.left =
        ap (λ n. n % slots q) same ∙ mod-eq_of_lt h.left_inside in
      (split.0, ap (get_elem? q.buffer) (sym here) ∙ split.1, split.2)

  popped-Holds :
      (q : BlockingQueue T) (x : T) (items : List T) → Holds q (x ∷ items) → Holds (popped q) items
  popped-Holds q x items h =
      let first = first_item q x items h in
      record {
        some_slot = h.some_slot;
        whole_vector = h.whole_vector;
        left_inside = mod-lt (q.left + 1) h.some_slot;
        right_after = popped-right q (x ∷ items) h first.0;
        size_bounded = omega arith;
        contents =
            tabulate-ext (item (popped q)) (λ k. item q (suc k)) (q.buffer_size - 1)
              (λ k lt. popped-item q k)
            ∙ first.2;
      }

  -- From an open queue that holds items, `Pop` takes the oldest.
  pub pop-Holds :
      (q : BlockingQueue T) (x : T) (items : List T)
      → q.closed ≡ false
      → Holds q (x ∷ items)
      → (pop q ≡ returns (some x, popped q)) × Holds (popped q) items
  unfolding pop
  pop-Holds q x items opened h =
      let first = first_item q x items h in
      let full : ltb 0 q.buffer_size ≡ true = ground arith in
      (rw opened (rw full (rw first.1)), popped-Holds q x items h)

  -- A closed queue, or one that holds nothing, gives out nothing.
  pub pop-closed : (q : BlockingQueue T) → q.closed ≡ true → pop q ≡ returns (none, q)
  unfolding pop
  pop-closed q shut = ground arith

  pub pop-empty : (q : BlockingQueue T) → q.buffer_size ≡ 0 → pop q ≡ returns (none, q)
  unfolding pop
  pop-empty q e = ground arith

  -- The threads and the flag of `Close` have no part in what the ring holds.
  pub Holds-update :
      (q : BlockingQueue T) (n : ℕ) (b : Bool) (items : List T)
      → Holds q items
      → Holds (record q { active_threads = n; closed = b }) items
  Holds-update q n b items h = record {
    some_slot = h.some_slot;
    whole_vector = h.whole_vector;
    left_inside = h.left_inside;
    right_after = h.right_after;
    size_bounded = h.size_bounded;
    contents = h.contents;
  }

  -- A queue that holds nothing has no items in its ring.
  pub Holds-empty : (q : BlockingQueue T) → Holds q [] → q.buffer_size ≡ 0
  Holds-empty q h = tabulate-nil (item q) q.buffer_size h.contents

  -- A queue that was just made holds nothing.
  pub init-Holds :
      (capacity : ℕ) (use_extended_buffer : Bool) (blank : T)
      → 0 < capacity
      → Holds (init capacity use_extended_buffer blank) []
  unfolding init
  init-Holds capacity true blank h = record {
    some_slot = ground arith;
    whole_vector = ground (arith, length-replicate (1000 * capacity) blank);
    left_inside = ground arith;
    right_after = sym (mod-eq_of_lt (ground arith));
    size_bounded = omega arith;
    contents = refl;
  }
  init-Holds capacity false blank h = record {
    some_slot = ground arith;
    whole_vector = length-replicate capacity blank;
    left_inside = ground arith;
    right_after = sym (mod-eq_of_lt h);
    size_bounded = omega arith;
    contents = refl;
  }
