-- ===== src/Types/Read.antt =====
-- The type of the arrays that `GetConverter` of flight_sql/utils.cc gives.
use mathlib.Core.Bool.{false≢true}
use gizmosql_odbc_driver.Prelude.{
  ◌*◌, ◌≡◌, refl, sym, subst, ap, ◌∙◌, Bool, true, false, ◌&&◌, if◌then◌else◌,
}
use gizmosql_odbc_driver.Prelude.Int.{ℤ, pos}
use gizmosql_odbc_driver.Exceptions.{
  Result, ok, err, and_then, Outcome, returns, throws, faults, ◌>>=◌,
}
use gizmosql_odbc_driver.Types.{ArrowType, CDataType}
use gizmosql_odbc_driver.Types.Arrow.{
  is_time, is_date, is_timestamp, is_character, is_complex_type, convert_c_to_arrow_type,
  get_default_data_type_for_type_id,
}
use gizmosql_odbc_driver.Timestamp.{second, milli, micro, nano}
use gizmosql_odbc_driver.Types.Converter.{
  DataType, plain, timed, Compute, HasTypes, default_unit, is_string_type, is_time32_type,
  is_time64_type, is_decimal_type, string_to_time, string_to_date, time32_to_timestamp,
  time64_to_timestamp, decimals_to_strings, default_conversion, get_converter, decimal_texts,
  outcome,
}

module _ {Array Decimal : Type 0} (arrow : Compute Array Decimal) where
  -- The converted array has the type that the accessor of the target reads.
  abbrev IsRead : CDataType → Result Array → Type 0
  IsRead target (ok b) = convert_c_to_arrow_type target ≡ ok (arrow.type_of b)
  IsRead target (err e) = Unit

  abbrev IsReadOutcome : CDataType → Outcome Array → Type 0
  IsReadOutcome target (returns b) = convert_c_to_arrow_type target ≡ ok (arrow.type_of b)
  IsReadOutcome target _ = Unit

  outcome-IsRead :
      (target : CDataType) (r : Result Array) → IsRead target r → IsReadOutcome target (outcome r)
  outcome-IsRead target (ok b) h = h
  outcome-IsRead target (err e) h = tt

  bound-IsRead {ℓ} :
      {A : Type ℓ} (target : CDataType) (o : Outcome A) (f : A → Outcome Array)
      → ((a : A) → IsReadOutcome target (f a))
      → IsReadOutcome target (o >>= f)
  bound-IsRead target (returns a) f h = h a
  bound-IsRead target (throws e) f h = tt
  bound-IsRead target faults f h = tt

  if-IsRead :
      (target : CDataType) (b : Bool) (x y : Outcome Array)
      → (b ≡ true → IsReadOutcome target x)
      → IsReadOutcome target y
      → IsReadOutcome target (if b then x else y)
  if-IsRead target true x y f h = f refl
  if-IsRead target false x y f h = h

  and_then-IsRead {ℓ} :
      {A : Type ℓ} (target : CDataType) (r : Result A) (f : A → Result Array)
      → ((a : A) → r ≡ ok a → IsRead target (f a))
      → IsRead target (and_then r f)
  and_then-IsRead target (ok a) f h = h a refl
  and_then-IsRead target (err e) f h = tt

  typed-IsRead :
      (target : CDataType) (t : ArrowType) (r : Result Array)
      → convert_c_to_arrow_type target ≡ ok t
      → ((b : Array) → r ≡ ok b → arrow.type_of b ≡ t)
      → IsRead target r
  typed-IsRead target t (ok b) e h = e ∙ ap ok (sym (h b refl))
  typed-IsRead target t (err x) e h = tt

and_right : (a b : Bool) → a && b ≡ true → b ≡ true
and_right true b h = h
and_right false b h = absurd (false≢true h)

time_target : (c : CDataType) → is_time c ≡ true → convert_c_to_arrow_type c ≡ ok ArrowType.time64
unfolding convert_c_to_arrow_type
time_target CDataType.time h = refl
time_target _ h = absurd (false≢true h)

date_target : (c : CDataType) → is_date c ≡ true → convert_c_to_arrow_type c ≡ ok ArrowType.date64
unfolding convert_c_to_arrow_type
date_target CDataType.date h = refl
date_target _ h = absurd (false≢true h)

timestamp_target :
    (c : CDataType) → is_timestamp c ≡ true → convert_c_to_arrow_type c ≡ ok ArrowType.timestamp
unfolding convert_c_to_arrow_type
timestamp_target CDataType.timestamp h = refl
timestamp_target _ h = absurd (false≢true h)

character_target :
    (c : CDataType) → is_character c ≡ true → convert_c_to_arrow_type c ≡ ok ArrowType.string
unfolding convert_c_to_arrow_type
character_target CDataType.char h = refl
character_target CDataType.wchar h = refl
character_target _ h = absurd (false≢true h)

abbrev IsSame : ArrowType → Result ArrowType → Type 0
IsSame t (ok u) = t ≡ u
IsSame t (err e) = Unit

-- The default instance of a type has that type's id.
default-IsSame :
    (type_number : ArrowType → ℤ) (t : ArrowType)
    → IsSame t (get_default_data_type_for_type_id type_number t)
unfolding get_default_data_type_for_type_id
default-IsSame k ArrowType.string = refl
default-IsSame k ArrowType.int16 = refl
default-IsSame k ArrowType.uint16 = refl
default-IsSame k ArrowType.int32 = refl
default-IsSame k ArrowType.uint32 = refl
default-IsSame k ArrowType.float = refl
default-IsSame k ArrowType.double = refl
default-IsSame k ArrowType.bool = refl
default-IsSame k ArrowType.int8 = refl
default-IsSame k ArrowType.uint8 = refl
default-IsSame k ArrowType.int64 = refl
default-IsSame k ArrowType.uint64 = refl
default-IsSame k ArrowType.binary = refl
default-IsSame k ArrowType.decimal128 = refl
default-IsSame k ArrowType.date64 = refl
default-IsSame k ArrowType.time64 = refl
default-IsSame k ArrowType.timestamp = refl
default-IsSame k _ = tt

module _ {Array Decimal : Type 0} (type_number : ArrowType → ℤ) (arrow : Compute Array Decimal)
    (typed : HasTypes arrow) where
  cast-IsRead :
      (target : CDataType) (t : DataType) (a : Array)
      → convert_c_to_arrow_type target ≡ ok t.id
      → IsRead arrow target (arrow.cast t a)
  cast-IsRead target t a e =
      typed-IsRead arrow target t.id (arrow.cast t a) e (λ b done. typed.cast_type t a b done)

  default-IsRead :
      (target : CDataType) (a : Array)
      → IsRead arrow target (default_conversion type_number arrow target a)
  unfolding default_conversion
  default-IsRead target a =
      and_then-IsRead arrow target (convert_c_to_arrow_type target) _ (λ t found.
        and_then-IsRead arrow target (get_default_data_type_for_type_id type_number t) _
          (λ u instance_of.
            cast-IsRead target (record { id = u; unit = default_unit u }) a
              (found ∙ ap ok (subst (IsSame t) instance_of (default-IsSame type_number t)))))

  string_to_time-IsRead :
      (target : CDataType) (a : Array)
      → is_time target ≡ true
      → IsRead arrow target (string_to_time type_number arrow a)
  unfolding string_to_time
  string_to_time-IsRead target a h =
      and_then-IsRead arrow target (arrow.strptime "%H:%M" micro a) _
        (λ b done. cast-IsRead target (timed ArrowType.time64 micro) b (time_target target h))

  string_to_date-IsRead :
      (target : CDataType) (a : Array)
      → is_date target ≡ true
      → IsRead arrow target (string_to_date type_number arrow a)
  unfolding string_to_date
  string_to_date-IsRead target a h =
      and_then-IsRead arrow target (arrow.strptime "%Y-%m-%d" second a) _
        (λ b done. cast-IsRead target (plain ArrowType.date64) b (date_target target h))

  time32_to_timestamp-IsRead :
      (target : CDataType) (a : Array)
      → is_timestamp target ≡ true
      → IsRead arrow target (time32_to_timestamp type_number arrow a)
  unfolding time32_to_timestamp
  time32_to_timestamp-IsRead target a h =
      and_then-IsRead arrow target (arrow.cast (plain ArrowType.int32) a) _ (λ b _.
        and_then-IsRead arrow target (arrow.cast (plain ArrowType.int64) b) _ (λ c _.
          and_then-IsRead arrow target (arrow.add (pos (arrow.get_today_time_from_epoch * 1000)) c)
            _
            (λ d _.
              cast-IsRead target (timed ArrowType.timestamp milli) d (timestamp_target target h))))

  time64_to_timestamp-IsRead :
      (target : CDataType) (a : Array)
      → is_timestamp target ≡ true
      → IsRead arrow target (time64_to_timestamp type_number arrow a)
  unfolding time64_to_timestamp
  time64_to_timestamp-IsRead target a h =
      and_then-IsRead arrow target (arrow.cast (plain ArrowType.int64) a) _ (λ b _.
        and_then-IsRead arrow target
          (arrow.add (pos (arrow.get_today_time_from_epoch * 1000000000)) b) _
          (λ c _.
            cast-IsRead target (timed ArrowType.timestamp nano) c (timestamp_target target h)))

  decimals_to_strings-IsRead :
      (target : CDataType) (a : Array)
      → is_character target ≡ true
      → IsReadOutcome arrow target (decimals_to_strings type_number arrow a)
  unfolding decimals_to_strings
  decimals_to_strings-IsRead target a h =
      bound-IsRead arrow target (decimal_texts type_number arrow (arrow.scale a) (arrow.decimals a))
        (λ texts. outcome (arrow.build_strings texts))
        (λ texts. outcome-IsRead arrow target (arrow.build_strings texts) (
          typed-IsRead arrow target ArrowType.string _ (character_target target h)
            (λ b done. typed.strings_type texts b done)))

  json-IsRead :
      (target : CDataType) (a : Array)
      → is_character target ≡ true
      → IsRead arrow target (arrow.convert_to_json a)
  json-IsRead target a h =
      typed-IsRead arrow target ArrowType.string (arrow.convert_to_json a)
        (character_target target h) (λ b done. typed.json_type a b done)

  get_converter-IsRead :
      (original : ArrowType) (target : CDataType) (a : Array)
      → IsReadOutcome arrow target (get_converter type_number arrow original target a)
  unfolding get_converter
  get_converter-IsRead original target a =
      if-IsRead arrow target (is_string_type original && is_time target) _ _
        (λ h. outcome-IsRead arrow target _ (string_to_time-IsRead target a (and_right _ _ h)))
        (if-IsRead arrow target (is_time32_type original && is_timestamp target) _ _
          (λ h.
            outcome-IsRead arrow target _ (time32_to_timestamp-IsRead target a (and_right _ _ h)))
          (if-IsRead arrow target (is_time64_type original && is_timestamp target) _ _
            (λ h.
              outcome-IsRead arrow target _ (time64_to_timestamp-IsRead target a (and_right _ _ h)))
            (if-IsRead arrow target (is_string_type original && is_date target) _ _
              (λ h.
                outcome-IsRead arrow target _ (string_to_date-IsRead target a (and_right _ _ h)))
              (if-IsRead arrow target (is_decimal_type original && is_character target) _ _
                (λ h. decimals_to_strings-IsRead target a (and_right _ _ h))
                (if-IsRead arrow target (is_complex_type original && is_character target) _ _
                  (λ h. outcome-IsRead arrow target _ (json-IsRead target a (and_right _ _ h)))
                  (outcome-IsRead arrow target _ (default-IsRead target a)))))))

  -- If a conversion that `GetConverter` picks gives an array, that array has the type which the
  -- accessor of the target reads, provided that Arrow's casts, its string builder and the
  -- conversion to JSON give arrays of their documented types.
  pub get_converter_lem :
      (original : ArrowType) (target : CDataType) (a b : Array)
      → get_converter type_number arrow original target a ≡ returns b
      → convert_c_to_arrow_type target ≡ ok (arrow.type_of b)
  get_converter_lem original target a b h =
      subst (IsReadOutcome arrow target) h (get_converter-IsRead original target a)
