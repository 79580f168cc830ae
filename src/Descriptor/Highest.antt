-- ===== src/Descriptor/Highest.antt =====
-- `m_highestOneBasedBoundRecord` against the records: which number it ought to be, and the lemmas
-- on the vector that the operations' proofs use.
use mathlib.Core.Bool.{false≢true}
use gizmosql_odbc_driver.Prelude.{
  ℕ, zero, suc, ◌-◌, ◌≤◌, ◌<◌, ◌≡◌, refl, sym, ◌∙◌, subst, inl, inr, true, false, List, [], ◌∷◌,
  ◌++◌, arith, length, set, take, replicate, ltb, ◌==◌, if◌then◌else◌, Bool-cases, length-append,
  length-replicate, length-take,
}
use gizmosql_odbc_driver.Prelude.Int.{pos, to_signed}
use gizmosql_odbc_driver.Descriptor.{
  bound_at, highest_bound_from, calculate_highest_bound_record, resize_to,
}
use gizmosql_odbc_driver.Descriptor.Record.{DescriptorRecord, default_record}

-- `h` is the number of the last bound record, or 0 if no record is bound.
pub record IsHighest (records : List DescriptorRecord) (h : ℕ) : Type 0 where
  pub above : (j : ℕ) → h ≤ j → bound_at records j ≡ false
  pub at : (i : ℕ) → h ≡ suc i → bound_at records i ≡ true

pub IsHighest-unique :
    (records : List DescriptorRecord) (g h : ℕ) → IsHighest records g → IsHighest records h → g ≡ h
IsHighest-unique records zero zero p q = refl
IsHighest-unique records zero (suc h) p q =
    absurd (false≢true (sym (p.above h (omega arith)) ∙ q.at h refl))
IsHighest-unique records (suc g) zero p q =
    absurd (false≢true (sym (q.above g (omega arith)) ∙ p.at g refl))
IsHighest-unique records (suc g) (suc h) p q =
    ground (arith, p.above h, q.above g, p.at g refl, q.at h refl)

pub bound_at-beyond :
    (records : List DescriptorRecord) (j : ℕ) → length records ≤ j → bound_at records j ≡ false
bound_at-beyond [] j h = refl
bound_at-beyond (r ∷ rs) zero h = absurd (omega arith)
bound_at-beyond (r ∷ rs) (suc j) h = bound_at-beyond rs j (omega arith)

pub highest_bound_from-le :
    (records : List DescriptorRecord) (n : ℕ) → highest_bound_from records n ≤ n
unfolding highest_bound_from
highest_bound_from-le records zero = omega arith
highest_bound_from-le records (suc n) = ground (arith, highest_bound_from-le records n)

highest_bound_from-at :
    (records : List DescriptorRecord) (n i : ℕ)
    → highest_bound_from records n ≡ suc i
    → bound_at records i ≡ true
unfolding highest_bound_from
highest_bound_from-at records zero i h = absurd (omega arith)
highest_bound_from-at records (suc n) i h = elim (Bool-cases (bound_at records n)) [
  | inl e ↦
      let same : n ≡ i = omega (arith, rw (e, highest_bound_from) at h) in
      subst (λ (k : ℕ). bound_at records k ≡ true) same e
  | inr e ↦ highest_bound_from-at records n i (rw (e, highest_bound_from) at h)
]

highest_bound_from-above :
    (records : List DescriptorRecord) (n j : ℕ)
    → highest_bound_from records n ≤ j
    → j < n
    → bound_at records j ≡ false
unfolding highest_bound_from
highest_bound_from-above records zero j h lt = absurd (omega arith)
highest_bound_from-above records (suc n) j h lt = elim (Bool-cases (bound_at records n)) [
  | inl e ↦ absurd (ground arith)
  | inr e ↦ ground (arith, highest_bound_from-above records n j)
]

-- The loop finds the last bound record.
pub highest_bound_from-IsHighest :
    (records : List DescriptorRecord)
    → IsHighest records (highest_bound_from records (length records))
highest_bound_from-IsHighest records = record {
  above = λ j h. elim (Bool-cases (ltb j (length records))) [
    | inl e ↦ highest_bound_from-above records (length records) j h (ground arith)
    | inr e ↦ bound_at-beyond records j (ground arith)
  ];
  at = highest_bound_from-at records (length records);
}

-- Below 2 ^ 15 records the cast to SQLSMALLINT changes nothing.
pub calculate_highest_lem :
    (records : List DescriptorRecord)
    → length records ≤ 32767
    → calculate_highest_bound_record records ≡ pos (highest_bound_from records (length records))
unfolding calculate_highest_bound_record
calculate_highest_lem records h = ground (arith, highest_bound_from-le records (length records))

pub bound_at-set :
    (records : List DescriptorRecord) (i j : ℕ) (r : DescriptorRecord)
    → i < length records
    → bound_at (set records i r) j ≡ (if j == i then r.is_bound else bound_at records j)
bound_at-set [] i j r h = absurd (omega arith)
bound_at-set (x ∷ xs) zero zero r h = refl
bound_at-set (x ∷ xs) zero (suc j) r h = ground arith
bound_at-set (x ∷ xs) (suc i) zero r h = ground arith
bound_at-set (x ∷ xs) (suc i) (suc j) r h = ground (arith, bound_at-set xs i j r (omega arith))

bound_at-replicate : (n j : ℕ) → bound_at (replicate n default_record) j ≡ false
bound_at-replicate zero j = refl
bound_at-replicate (suc n) zero = refl
bound_at-replicate (suc n) (suc j) = bound_at-replicate n j

bound_at-resize :
    (records : List DescriptorRecord) (n k j : ℕ)
    → bound_at (take n records ++ replicate k default_record) j
      ≡ (if ltb j n then bound_at records j else false)
bound_at-resize records zero k j = ground (arith, bound_at-replicate k j)
bound_at-resize [] (suc n) k j = ground (arith, bound_at-replicate k j)
bound_at-resize (r ∷ rs) (suc n) k zero = ground arith
bound_at-resize (r ∷ rs) (suc n) k (suc j) = ground (arith, bound_at-resize rs n k j)

-- Resizing keeps the records below the new size, and adds none that is bound.
pub bound_at-resize_to :
    (records : List DescriptorRecord) (n j : ℕ)
    → bound_at (resize_to records n) j ≡ (if ltb j n then bound_at records j else false)
unfolding resize_to
bound_at-resize_to records n j = bound_at-resize records n (n - length records) j

pub length-resize_to : (records : List DescriptorRecord) (n : ℕ) → length (resize_to records n) ≡ n
unfolding resize_to
length-resize_to records n = omega (
  arith,
  length-append (take n records) (replicate (n - length records) default_record),
  length-take n records,
  length-replicate (n - length records) default_record,
)

pub narrow_small : (n : ℕ) → n ≤ 32767 → to_signed 16 n ≡ pos n
narrow_small n h = ground arith
