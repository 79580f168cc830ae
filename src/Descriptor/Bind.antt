-- ===== src/Descriptor/Bind.antt =====
-- `BindCol` and `SetDataPtrOnRecord`: the bookkeeping of the highest bound record is exact.
use native.Mathlib.Decide.{ℕ_discrete}
use gizmosql_odbc_driver.Prelude.{
  ℕ, zero, suc, ◌≤◌, ◌<◌, ◌≡◌, ◌≢◌, refl, sym, ap, ◌∙◌, subst, inl, inr, true, false, not, List,
  arith, length, get_elem?-some, set, max, ltb, ◌==◌, if◌then◌else◌, Bool-cases, length-set,
  get_elem?-set_self,
}
use gizmosql_odbc_driver.Prelude.Int.{ℤ, pos, to_signed}
use gizmosql_odbc_driver.Exceptions.{returns}
use gizmosql_odbc_driver.Descriptor.{
  Descriptor, bound_at, is_bound?, highest_bound_from, resize, resize_to, set_data_ptr_at,
  set_data_ptr_on_record, bind_record, expand, bind_col, bind_at, at_record-some,
}
use gizmosql_odbc_driver.Descriptor.Record.{DescriptorRecord}
use gizmosql_odbc_driver.Descriptor.Highest.{
  IsHighest, IsHighest-unique, highest_bound_from-IsHighest, highest_bound_from-le,
  calculate_highest_lem, bound_at-set, bound_at-resize_to, length-resize_to, narrow_small,
}

-- The descriptor's number is that of the last bound record, and a SQLSMALLINT counts the records.
pub record IsExact (d : Descriptor) : Type 0 where
  pub highest : ℕ
  pub stored : d.highest_one_based_bound_record ≡ pos highest
  pub exact : IsHighest d.records highest
  pub small : length d.records ≤ 32767

IsHighest-le : (records : List DescriptorRecord) (h : ℕ) → IsHighest records h → h ≤ length records
IsHighest-le records h p =
    subst (λ (k : ℕ). k ≤ length records)
      (IsHighest-unique records _ h (highest_bound_from-IsHighest records) p)
      (highest_bound_from-le records (length records))

-- Replacing a record by one that is bound as it was.
set-IsHighest :
    (records : List DescriptorRecord) (h i : ℕ) (r : DescriptorRecord)
    → i < length records
    → r.is_bound ≡ bound_at records i
    → IsHighest records h
    → IsHighest (set records i r) h
set-IsHighest records h i r lt same p = record {
  above = λ j le. ground (arith, bound_at-set records i j r lt, p.above j le);
  at = λ k e. ground (arith, bound_at-set records i k r lt, p.at k e);
}

-- The new record is bound, and lies above or below the old highest.
set-IsHighest_bound :
    (records : List DescriptorRecord) (h i : ℕ) (r : DescriptorRecord)
    → i < length records
    → r.is_bound ≡ true
    → IsHighest records h
    → IsHighest (set records i r) (if ltb h (suc i) then suc i else h)
set-IsHighest_bound records h i r lt on p = record {
  above = λ j le. ground (arith, bound_at-set records i j r lt, p.above j);
  at = λ k e. ground (arith, bound_at-set records i k r lt, p.at k);
}

-- A record that is not the highest is unbound.
set-IsHighest_unbound :
    (records : List DescriptorRecord) (h i : ℕ) (r : DescriptorRecord)
    → i < length records
    → r.is_bound ≡ false
    → h ≢ suc i
    → IsHighest records h
    → IsHighest (set records i r) h
set-IsHighest_unbound records h i r lt off ne p = record {
  above = λ j le. ground (arith, bound_at-set records i j r lt, p.above j le);
  at = λ k e. ground (arith, bound_at-set records i k r lt, p.at k e);
}

module _ (d : Descriptor) (i : ℕ) (r : DescriptorRecord) (lt : i < length d.records)
    (x : IsExact d) where
  length-set_data_ptr_at : (p : ℕ) → length (set_data_ptr_at d i r p).records ≤ 32767
  unfolding set_data_ptr_at
  length-set_data_ptr_at p = rw length-set x.small

  number_small : to_signed 16 (suc i) ≡ pos (suc i)
  number_small = narrow_small (suc i) (omega (arith, x.small))

  -- A pointer that is not null binds the column.
  set_bound-IsExact : (p : ℕ) → (p == 0) ≡ false → IsExact (set_data_ptr_at d i r p)
  unfolding set_data_ptr_at
  set_bound-IsExact p e = record {
    highest = (if ltb x.highest (suc i) then suc i else x.highest);
    stored = ground (arith, number_small, x.stored);
    exact = rw e (set-IsHighest_bound d.records x.highest i _ lt refl x.exact);
    small = length-set_data_ptr_at p;
  }

  -- Unbinding the highest column looks for the next one.
  set_unbound_top-IsExact : x.highest ≡ suc i → IsExact (set_data_ptr_at d i r 0)
  unfolding set_data_ptr_at
  set_unbound_top-IsExact top =
      let records' = (set_data_ptr_at d i r 0).records in
      record {
        highest = highest_bound_from records' (length records');
        stored = ground (
          arith,
          number_small,
          x.stored,
          top,
          calculate_highest_lem records' (length-set_data_ptr_at 0),
        );
        exact = highest_bound_from-IsHighest records';
        small = length-set_data_ptr_at 0;
      }

  -- Unbinding another column leaves the number.
  set_unbound_other-IsExact : x.highest ≢ suc i → IsExact (set_data_ptr_at d i r 0)
  unfolding set_data_ptr_at
  set_unbound_other-IsExact other = record {
    highest = x.highest;
    stored = ground (arith, number_small, x.stored);
    exact = set-IsHighest_unbound d.records x.highest i _ lt refl other x.exact;
    small = length-set_data_ptr_at 0;
  }

  pub set_data_ptr_at-IsExact : (p : ℕ) → IsExact (set_data_ptr_at d i r p)
  set_data_ptr_at-IsExact zero = elim (ℕ_discrete x.highest (suc i)) [
    | yes top ↦ set_unbound_top-IsExact top
    | no other ↦ set_unbound_other-IsExact other
  ]
  set_data_ptr_at-IsExact (suc p) = set_bound-IsExact (suc p) (ground arith)

bind_record-is_bound :
    (r : DescriptorRecord) (c_type len : ℤ) (indicator : ℕ)
    → (bind_record r c_type len indicator).is_bound ≡ r.is_bound
unfolding bind_record
bind_record-is_bound r c_type len indicator = ground arith

-- Growing the vector for column `n`.
expand-IsExact :
    (d : Descriptor) (n : ℕ)
    → IsExact d
    → n ≤ 32767
    → (e : Descriptor) × (expand d (pos n) ≡ returns e)
      × IsExact e
      × (length e.records ≡ max n (length d.records))
unfolding expand resize
expand-IsExact d n x small = elim (Bool-cases (ltb (length d.records) n)) [
  | inl grow ↦ (
    record d { records = resize_to d.records n },
    rw (grow, expand) refl,
    record {
      highest = x.highest;
      stored = x.stored;
      exact = record {
        above = λ j h. ground (arith, bound_at-resize_to d.records n j, x.exact.above j h);
        at = λ k h. ground (
          arith,
          bound_at-resize_to d.records n k,
          x.exact.at k h,
          IsHighest-le d.records x.highest x.exact,
        );
      };
      small = omega (arith, length-resize_to d.records n);
    },
    ground (arith, length-resize_to d.records n),
  )
  | inr fits ↦ (d, rw (fits, expand) refl, x, ground arith)
]

-- The second half of `BindCol`, once the vector is long enough.
bind_at-IsExact :
    (d : Descriptor) (i : ℕ) (c_type : ℤ) (p : ℕ) (len : ℤ) (indicator : ℕ)
    → IsExact d
    → i < length d.records
    → (e : Descriptor) × (bind_at d (pos (suc i)) c_type p len indicator ≡ returns e)
      × IsExact e
      × (bound_at e.records i ≡ not (p == 0))
      × (length e.records ≡ length d.records)
      × (e.has_bindings_changed ≡ true)
unfolding set_data_ptr_on_record
bind_at-IsExact d i c_type p len indicator x lt =
    let (r, at) = get_elem?-some d.records i lt in
    let r' = bind_record r c_type len indicator in
    let d' = record d { records = set d.records i r' } in
    let lt' : i < length d'.records = rw length-set lt in
    let same : r'.is_bound ≡ bound_at d.records i =
      bind_record-is_bound r c_type len indicator ∙ sym (ap is_bound? at) in
    let x' : IsExact d' = record {
      highest = x.highest;
      stored = x.stored;
      exact = set-IsHighest d.records x.highest i r' lt same x.exact;
      small = rw length-set x.small;
    } in
    (
      set_data_ptr_at d' i r' p,
      at_record-some d i _ r at ∙ at_record-some d' i _ r' (get_elem?-set_self d.records i r' lt),
      set_data_ptr_at-IsExact d' i r' lt' x' p,
      unfold set_data_ptr_at in
          ground (
            arith,
            bound_at-set d'.records i i (record r' { is_bound = not (p == 0); data_ptr = p }) lt',
          ),
      unfold set_data_ptr_at in rw (length-set, length-set) refl,
      unfold set_data_ptr_at in refl,
    )

-- SQLBindCol with a column number from 1 to 32767 always succeeds, and keeps the bookkeeping
-- exact: afterwards SQL_DESC_COUNT is again the number of the last bound column. The column is
-- bound exactly if its buffer is not null, the vector has grown to that number if it was shorter,
-- and the bindings are marked as changed.
pub bind_col-IsExact :
    (d : Descriptor) (i : ℕ) (c_type : ℤ) (p : ℕ) (len : ℤ) (indicator : ℕ)
    → IsExact d
    → suc i ≤ 32767
    → (e : Descriptor) × (bind_col d (pos (suc i)) c_type p len indicator ≡ returns e)
      × IsExact e
      × (bound_at e.records i ≡ not (p == 0))
      × (length e.records ≡ max (suc i) (length d.records))
      × (e.has_bindings_changed ≡ true)
unfolding bind_col
bind_col-IsExact d i c_type p len indicator x small =
    let (e, grown, y, size) = expand-IsExact d (suc i) x small in
    let (f, done, z, bound, same, changed) =
      bind_at-IsExact e i c_type p len indicator y (omega (arith, size)) in
    (f, rw (grown, bind_col) done, z, bound, same ∙ size, changed)
