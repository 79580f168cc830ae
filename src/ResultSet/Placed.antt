-- ===== src/ResultSet/Placed.antt =====
-- Where the rows of a column go: values in order, a stride apart. And the writes of one column in the
-- log of `Move` in flight_sql/flight_sql_result_set.cc.
use gizmosql_odbc_driver.Prelude.{
  ℕ, zero, suc, ◌+◌, ◌*◌, ◌≤◌, ◌<◌, ◌≡◌, ◌≢◌, refl, sym, ap, ◌∙◌, Bool, Option, none, some, List,
  [], ◌∷◌, ◌++◌, map, length, take, drop, ◌==◌, if◌then◌else◌, arith, true, false,
}
use gizmosql_odbc_driver.ResultSet.{Write, shift}

shift_zero : (o : Option ℕ) → shift 0 o ≡ o
shift_zero none = refl
shift_zero (some p) = ap some (omega arith)

pub shift_twice : (d e f : ℕ) (o : Option ℕ) → f ≡ d + e → shift e (shift d o) ≡ shift f o
shift_twice d e f none h = refl
shift_twice d e f (some p) h = ap some (omega arith)

test_self : (k : ℕ) → (k == k) ≡ true
test_self k = ground arith

test_other : (c k : ℕ) → c ≢ k → (c == k) ≡ false
test_other c k h = ground arith

if-append {ℓ} :
    {A : Type ℓ} (b : Bool) (x : A) (xs ys : List A)
    → (if b then x ∷ (xs ++ ys) else xs ++ ys) ≡ (if b then x ∷ xs else xs) ++ ys
if-append true x xs ys = refl
if-append false x xs ys = refl

module _ {V : Type 0} where
  -- The values at an address and an indicator, and then each a stride further.
  unfoldable pub placed : ℕ → Option ℕ → ℕ → ℕ → List V → List (Write V)
  placed a i da di [] = []
  placed a i da di (v ∷ vs) =
      record { address = a; indicator = i; value = v } ∷ placed (a + da) (shift di i) da di vs

  pub placed-append :
      (a : ℕ) (i : Option ℕ) (da di : ℕ) (xs ys : List V)
      → placed a i da di (xs ++ ys)
        ≡ placed a i da di xs ++ placed (a + da * length xs) (shift (di * length xs) i) da di ys
  unfolding placed
  placed-append a i da di [] ys =
      ap (λ b. placed b i da di ys) (omega arith)
      ∙ ap (λ j. placed (a + da * 0) j da di ys)
          (sym (ap (λ d. shift d i) (omega arith) ∙ shift_zero i))
  placed-append a i da di (x ∷ xs) ys =
      ap (λ l. record { address = a; indicator = i; value = x } ∷ l)
        (placed-append (a + da) (shift di i) da di xs ys
          ∙ ap
              (λ b.
                placed (a + da) (shift di i) da di xs
                ++ placed b (shift (di * length xs) (shift di i)) da di ys)
              (omega arith)
          ∙ ap
              (λ j.
                placed (a + da) (shift di i) da di xs
                ++ placed (a + da * suc (length xs)) j da di ys)
              (shift_twice di (di * length xs) (di * suc (length xs)) i (omega arith)))

  unfoldable pub of_column : ℕ → List (ℕ × Write V) → List (Write V)
  of_column k [] = []
  of_column k ((c, x) ∷ log) = let rest = of_column k log in if c == k then x ∷ rest else rest

  pub of_column-append :
      (k : ℕ) (xs ys : List (ℕ × Write V))
      → of_column k (xs ++ ys) ≡ of_column k xs ++ of_column k ys
  unfolding of_column
  of_column-append k [] ys = refl
  of_column-append k ((c, x) ∷ xs) ys =
      ap (λ l. if c == k then x ∷ l else l) (of_column-append k xs ys)
      ∙ if-append (c == k) x (of_column k xs) (of_column k ys)

  pub of_column-same : (k : ℕ) (xs : List (Write V)) → of_column k (map (λ x. (k, x)) xs) ≡ xs
  unfolding of_column
  of_column-same k [] = refl
  of_column-same k (x ∷ xs) =
      ap
        (λ b.
          if b then x ∷ of_column k (map (λ x. (k, x)) xs) else of_column k (map (λ x. (k, x)) xs))
        (test_self k)
      ∙ ap (λ l. x ∷ l) (of_column-same k xs)

  pub of_column-other :
      (k c : ℕ) (xs : List (Write V)) → c ≢ k → of_column k (map (λ x. (c, x)) xs) ≡ []
  unfolding of_column
  of_column-other k c [] h = refl
  of_column-other k c (x ∷ xs) h =
      ap
        (λ b.
          if b then x ∷ of_column k (map (λ x. (c, x)) xs) else of_column k (map (λ x. (c, x)) xs))
        (test_other c k h)
      ∙ of_column-other k c xs h

pub drop-cons {ℓ} :
    {A : Type ℓ} (n : ℕ) (xs : List A) → n < length xs → (x : A) × (drop n xs ≡ x ∷ drop (suc n) xs)
drop-cons n [] h = absurd (omega arith)
drop-cons zero (x ∷ xs) h = (x, refl)
drop-cons (suc n) (x ∷ xs) h = drop-cons n xs (omega arith)

pub take-append {ℓ} :
    {A : Type ℓ} (n m : ℕ) (xs ys : List A)
    → n ≡ length xs + m
    → take n (xs ++ ys) ≡ xs ++ take m ys
take-append n m [] ys h = ap (λ k. take k ys) (omega arith)
take-append zero m (x ∷ xs) ys h = absurd (omega arith)
take-append (suc n) m (x ∷ xs) ys h = ap (λ l. x ∷ l) (take-append n m xs ys (omega arith))

pub drop-append {ℓ} :
    {A : Type ℓ} (n m : ℕ) (xs ys : List A) → n ≡ length xs + m → drop n (xs ++ ys) ≡ drop m ys
drop-append n m [] ys h = ap (λ k. drop k ys) (omega arith)
drop-append zero m (x ∷ xs) ys h = absurd (omega arith)
drop-append (suc n) m (x ∷ xs) ys h = drop-append n m xs ys (omega arith)

drop-nil {ℓ} : {A : Type ℓ} (n : ℕ) → drop {A = A} n [] ≡ []
drop-nil zero = refl
drop-nil (suc n) = refl

pub drop-drop {ℓ} :
    {A : Type ℓ} (m n k : ℕ) (xs : List A) → k ≡ m + n → drop n (drop m xs) ≡ drop k xs
drop-drop zero n k xs h = ap (λ j. drop j xs) (omega arith)
drop-drop (suc m) n k [] h = drop-nil n ∙ sym (drop-nil k)
drop-drop (suc m) n zero (x ∷ xs) h = absurd (omega arith)
drop-drop (suc m) n (suc k) (x ∷ xs) h = drop-drop m n k xs (omega arith)

pub drop-all {ℓ} : {A : Type ℓ} (n : ℕ) (xs : List A) → length xs ≤ n → drop n xs ≡ []
drop-all zero [] h = refl
drop-all (suc n) [] h = refl
drop-all zero (x ∷ xs) h = absurd (omega arith)
drop-all (suc n) (x ∷ xs) h = drop-all n xs (omega arith)
