-- ===== src/Cell/Slot.antt =====
-- The slot of a bound buffer that a cell's move writes to, and an application that reads a cell by
-- calls of SQLGetData: lemmas on pieces of a list that the two kinds of cell share.
use gizmosql_odbc_driver.Prelude.{
  take-all, ℕ, ◌+◌, ◌-◌, ◌≤◌, ◌<◌, ◌^◌, ge→ltb, zero, suc, List, [], ◌∷◌, ◌++◌, length, take, drop,
  ◌≡◌, refl, ap, arith, sym, ◌∙◌, length-take, length-drop, length-append, take-append-drop, Option,
  some, none, subst,
}
use gizmosql_odbc_driver.Prelude.Int.{ℤ, pos, negsuc}
use gizmosql_odbc_driver.Exceptions.{Outcome, returns}
use gizmosql_odbc_driver.Cell.{Moved, write_at, copied, remaining_length}

module _ {ℓ} {A : Type ℓ} where
  pub take-append : (n : ℕ) (xs ys : List A) → n ≤ length xs → take n (xs ++ ys) ≡ take n xs
  take-append zero xs ys h = refl
  take-append (suc n) [] ys h = absurd (omega arith)
  take-append (suc n) (x ∷ xs) ys h = ap (◌∷◌ x) (take-append n xs ys (omega arith))

  pub take-take : (m n : ℕ) (xs : List A) → m ≤ n → take m (take n xs) ≡ take m xs
  take-take zero n xs h = refl
  take-take (suc m) zero xs h = absurd (omega arith)
  take-take (suc m) (suc n) [] h = refl
  take-take (suc m) (suc n) (x ∷ xs) h = ap (◌∷◌ x) (take-take m n xs (omega arith))

  -- What follows a first part of that length.
  pub drop-append : (xs ys : List A) → drop (length xs) (xs ++ ys) ≡ ys
  drop-append [] ys = refl
  drop-append (x ∷ xs) ys = drop-append xs ys

  drop_nil : (n : ℕ) → drop {A = A} n [] ≡ []
  drop_nil zero = refl
  drop_nil (suc n) = refl

  -- What is left after two steps is what is left after their sum.
  pub drop-drop : (m n : ℕ) (xs : List A) → drop n (drop m xs) ≡ drop (m + n) xs
  drop-drop zero n xs = ap (λ k. drop k xs) (omega arith)
  drop-drop (suc m) n [] = drop_nil n ∙ sym (drop_nil (suc m + n))
  drop-drop (suc m) n (x ∷ xs) =
      let one_more : suc (m + n) ≡ suc m + n = omega arith in
      drop-drop m n xs ∙ ap (λ k. drop k (x ∷ xs)) one_more

  -- A piece and the rest make up what was left.
  pub take-drop_rest : (o n : ℕ) (xs : List A) → take n (drop o xs) ++ drop (o + n) xs ≡ drop o xs
  take-drop_rest o n xs =
      ap (take n (drop o xs) ++◌) (sym (drop-drop o n xs)) ∙ take-append-drop n (drop o xs)

-- A write leaves the bytes before it.
pub take-write_at :
    (m k : ℕ) (new buffer : List ℕ)
    → m ≤ k
    → k ≤ length buffer
    → take m (write_at k new buffer) ≡ take m buffer
take-write_at m k new buffer m_le k_le =
    take-append m (take k buffer) (new ++ drop (k + length new) buffer)
      (omega (arith, length-take k buffer))
    ∙ take-take m k buffer m_le

-- A write that fits keeps the length of the slot.
pub length-write_at :
    (k : ℕ) (new buffer : List ℕ)
    → k + length new ≤ length buffer
    → length (write_at k new buffer) ≡ length buffer
length-write_at k new buffer fits = omega (
  arith,
  length-append (take k buffer) (new ++ drop (k + length new) buffer),
  length-append new (drop (k + length new) buffer),
  length-take k buffer,
  length-drop (k + length new) buffer,
)

-- An offset inside the value: the remaining length does not wrap, and `memcpy` stays inside.
pub remaining_length-inside :
    (size offset : ℕ) → offset ≤ size → size < 2 ^ 63 → remaining_length size offset ≡ size - offset
unfolding remaining_length
remaining_length-inside size offset inside bounded = omega arith

pub copied-inside :
    (value : List ℕ) (offset n : ℕ) (buffer : List ℕ)
    → offset ≤ length value
    → n ≤ length value - offset
    → copied value offset n buffer ≡ returns (write_at 0 (take n (drop offset value)) buffer)
copied-inside value offset n buffer inside fits =
    rw (ge→ltb (length value) (offset + n) (omega arith))

-- What the application does with a call: it keeps the piece, and calls again at the offset left.
abbrev pub append_rest : List ℕ → Option (List ℕ) → Option (List ℕ)
append_rest piece none = none
append_rest piece (some rest) = some (piece ++ rest)

abbrev pub after_call {ℓ} : {A : Type ℓ} → Outcome Moved → (Moved → Option A) → Option A
after_call (returns moved) f = f moved
after_call _ f = none

abbrev pub read_on : ℤ → List ℕ → (ℕ → Option (List ℕ)) → Option (List ℕ)
read_on (negsuc i) piece rest = some piece
read_on (pos o) piece rest = append_rest piece (rest o)

-- A piece at the front of the slot is read back.
take-write_at_front : (new buffer : List ℕ) → take (length new) (write_at 0 new buffer) ≡ new
take-write_at_front new buffer =
    take-append (length new) new (drop (0 + length new) buffer) (omega arith)
    ∙ take-all (length new) new (omega arith)

-- The bytes that `memcpy` brings.
pub length-piece :
    (n o : ℕ) (value : List ℕ) → n ≤ length value - o → length (take n (drop o value)) ≡ n
length-piece n o value h = omega (arith, length-take n (drop o value), length-drop o value)

-- They stand at the front of the slot, and the slot keeps its length.
pub copied_front :
    (n o : ℕ) (value buffer : List ℕ)
    → n ≤ length value - o
    → take n (write_at 0 (take n (drop o value)) buffer) ≡ take n (drop o value)
copied_front n o value buffer h =
    subst (λ k. take k (write_at 0 (take n (drop o value)) buffer) ≡ take n (drop o value))
      (length-piece n o value h) (take-write_at_front (take n (drop o value)) buffer)

pub length-copied :
    (n o : ℕ) (value buffer : List ℕ)
    → n ≤ length value - o
    → n ≤ length buffer
    → length (write_at 0 (take n (drop o value)) buffer) ≡ length buffer
length-copied n o value buffer h fits =
    length-write_at 0 (take n (drop o value)) buffer (omega (arith, length-piece n o value h))

-- What was written is what stands there.
pub drop-write_at :
    (k : ℕ) (new buffer : List ℕ)
    → k ≤ length buffer
    → drop k (write_at k new buffer) ≡ new ++ drop (k + length new) buffer
drop-write_at k new buffer h =
    let whole : length (take k buffer) ≡ k = omega (arith, length-take k buffer) in
    subst (λ i. drop i (write_at k new buffer) ≡ new ++ drop (k + length new) buffer) whole
      (drop-append (take k buffer) (new ++ drop (k + length new) buffer))
