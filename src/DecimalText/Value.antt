-- ===== src/DecimalText/Value.antt =====
-- What a formatted decimal says: its digits, the place of its point, its value.
use native.Mathlib.Nat.{pow-suc}
use gizmosql_odbc_driver.Prelude.{
  ℕ, zero, suc, ◌+◌, ◌-◌, ◌*◌, ◌^◌, ◌≤◌, ◌<◌, ◌≡◌, refl, ap, ◌∙◌, inl, inr, Bool, true, false, List,
  [], ◌∷◌, ◌++◌, arith, length, take, drop, replicate, ltb, if◌then◌else◌, Bool-cases,
  length-append, length-replicate, length-drop, length-take, take-append-drop, lt→ltb, ltb→lt,
  ge→ltb, ◌==◌,
}
use gizmosql_odbc_driver.Prelude.Int.{ℤ, pos, negsuc}
use gizmosql_odbc_driver.DecimalText.{
  format_decimal_without_scientific_notation, place_point, place_point_from, start_position,
  if_front,
}
use gizmosql_odbc_driver.Exceptions.{returns}

abbrev pub AllDigits : List ℕ → Type 0
AllDigits [] = Unit
AllDigits (c ∷ s) = (b'0' ≤ c) × (c ≤ b'9') × AllDigits s

-- The number that digits spell, after those that gave `acc`.
unfoldable pub value_from : ℕ → List ℕ → ℕ
value_from acc [] = acc
value_from acc (c ∷ s) = value_from (acc * 10 + (c - b'0')) s

abbrev pub with_sign : Bool → List ℕ → List ℕ
with_sign true s = b'-' ∷ s
with_sign false s = s

value_from-zeros : (k : ℕ) (s : List ℕ) → value_from 0 (replicate k b'0' ++ s) ≡ value_from 0 s
unfolding value_from
value_from-zeros zero s = refl
value_from-zeros (suc k) s = value_from-zeros k s

value_from-append_zeros :
    (k acc : ℕ) (s : List ℕ) → value_from acc (s ++ replicate k b'0') ≡ value_from acc s * 10 ^ k
unfolding value_from
value_from-append_zeros zero acc [] = omega arith
value_from-append_zeros (suc k) acc [] =
    value_from-append_zeros k (acc * 10 + 0) [] ∙ rw pow-suc (shift acc (10 ^ k))
  where
    shift : (a p : ℕ) → (a * 10 + 0) * p ≡ a * (p * 10)
    shift a p = grind arith
value_from-append_zeros k acc (c ∷ s) = value_from-append_zeros k (acc * 10 + (c - b'0')) s

start_position-with_sign :
    (negative : Bool) (s : List ℕ)
    → AllDigits s
    → start_position (with_sign negative s) ≡ (if negative then 1 else 0)
start_position-with_sign true s h = refl
start_position-with_sign false [] h = refl
start_position-with_sign false (c ∷ s) h = ground arith

-- Where the text has more digits than the scale, the point goes inside it.
place_inside :
    (negative : Bool) (s : List ℕ) (scale : ℕ)
    → scale < length s
    → place_point_from (if negative then 1 else 0) (with_sign negative s) scale
      ≡ with_sign negative (take (length s - scale) s ++ b'.' ∷ drop (length s - scale) s)
unfolding place_point_from
place_inside false s scale lt =
    let e : length s - 0 ≡ length s = omega arith in rw (e, lt→ltb scale (length s) lt) refl
place_inside true s scale lt =
    let e : suc (length s) - 1 ≡ length s = omega arith in
    let f : suc (length s) - scale ≡ suc (length s - scale) = omega arith in
    rw (e, lt→ltb scale (length s) lt, f) refl

-- Otherwise zeros fill the places up to the scale, after a zero and the point.
place_before :
    (negative : Bool) (s : List ℕ) (scale : ℕ)
    → length s ≤ scale
    → place_point_from (if negative then 1 else 0) (with_sign negative s) scale
      ≡ with_sign negative (b'0' ∷ b'.' ∷ (replicate (scale - length s) b'0' ++ s))
unfolding place_point_from
place_before false s scale le =
    let e : length s - 0 ≡ length s = omega arith in
    let f : scale - length s + 2 ≡ suc (suc (scale - length s)) = omega arith in
    rw (e, ge→ltb scale (length s) le, f) refl
place_before true s scale le =
    let e : suc (length s) - 1 ≡ length s = omega arith in
    let f : scale - length s + 2 ≡ suc (suc (scale - length s)) = omega arith in
    rw (e, ge→ltb scale (length s) le, f) refl

AllDigits-append : (s t : List ℕ) → AllDigits s → AllDigits t → AllDigits (s ++ t)
AllDigits-append [] t h k = k
AllDigits-append (c ∷ s) t h k = (h.0, h.1, AllDigits-append s t h.2 k)

AllDigits-take : (n : ℕ) (s : List ℕ) → AllDigits s → AllDigits (take n s)
AllDigits-take zero s h = tt
AllDigits-take (suc n) [] h = tt
AllDigits-take (suc n) (c ∷ s) h = (h.0, h.1, AllDigits-take n s h.2)

AllDigits-drop : (n : ℕ) (s : List ℕ) → AllDigits s → AllDigits (drop n s)
AllDigits-drop zero s h = h
AllDigits-drop (suc n) [] h = tt
AllDigits-drop (suc n) (c ∷ s) h = AllDigits-drop n s h.2

AllDigits-zeros : (n : ℕ) → AllDigits (replicate n b'0')
AllDigits-zeros zero = tt
AllDigits-zeros (suc n) = (omega arith, omega arith, AllDigits-zeros n)

-- The text has a point with `scale` digits after it and at least one before, and without the
-- point its digits spell `n`.
pub record HasPoint (n : ℕ) (negative : Bool) (scale : ℕ) (text : List ℕ) : Type 0 where
  pub whole : List ℕ
  pub fraction : List ℕ
  pub reads : text ≡ with_sign negative (whole ++ b'.' ∷ fraction)
  pub whole_digits : AllDigits whole
  pub fraction_digits : AllDigits fraction
  pub some_whole : 0 < length whole
  pub scaled : length fraction ≡ scale
  pub spells : value_from 0 (whole ++ fraction) ≡ n

-- The text is a sign and digits that spell `n`.
pub record IsWhole (n : ℕ) (negative : Bool) (text : List ℕ) : Type 0 where
  pub body : List ℕ
  pub reads : text ≡ with_sign negative body
  pub body_digits : AllDigits body
  pub spells : value_from 0 body ≡ n

-- `text` denotes `n / 10 ^ scale`, with its sign.
abbrev pub Denotes : ℕ → Bool → ℤ → List ℕ → Type 0
Denotes n negative (pos zero) text = IsWhole n negative text
Denotes n negative (pos (suc scale)) text = HasPoint n negative (suc scale) text
Denotes n negative (negsuc k) text = IsWhole (n * 10 ^ suc k) negative text

place_point-HasPoint :
    (negative : Bool) (s : List ℕ) (scale : ℕ)
    → AllDigits s
    → 0 < scale
    → HasPoint (value_from 0 s) negative scale (place_point (with_sign negative s) scale)
unfolding place_point
place_point-HasPoint negative s scale h pos_scale = elim (Bool-cases (ltb scale (length s))) [
  | inl inside ↦ record {
    whole = take (length s - scale) s;
    fraction = drop (length s - scale) s;
    reads =
        rw (start_position-with_sign negative s h)
          (place_inside negative s scale (ltb→lt _ _ inside));
    whole_digits = AllDigits-take (length s - scale) s h;
    fraction_digits = AllDigits-drop (length s - scale) s h;
    some_whole = omega (arith, length-take (length s - scale) s, ltb→lt _ _ inside);
    scaled = omega (arith, length-drop (length s - scale) s, ltb→lt _ _ inside);
    spells = ap (value_from 0) (take-append-drop (length s - scale) s);
  }
  | inr before ↦ record {
    whole = b'0' ∷ [];
    fraction = replicate (scale - length s) b'0' ++ s;
    reads =
        rw (start_position-with_sign negative s h) (place_before negative s scale (ground arith));
    whole_digits = (omega arith, omega arith, tt);
    fraction_digits = AllDigits-append _ s (AllDigits-zeros (scale - length s)) h;
    some_whole = omega arith;
    scaled = ground (
      arith,
      length-append (replicate (scale - length s) b'0') s,
      length-replicate {A = ℕ} (scale - length s) b'0',
    );
    spells = value_from-zeros (suc (scale - length s)) s;
  }
]

with_sign-append :
    (negative : Bool) (s t : List ℕ) → with_sign negative s ++ t ≡ with_sign negative (s ++ t)
with_sign-append true s t = refl
with_sign-append false s t = refl

if_front-with_sign :
    (negative : Bool) (s t : List ℕ) → 0 < length s → if_front (with_sign negative s) t ≡ returns t
if_front-with_sign true s t h = refl
if_front-with_sign false [] t h = absurd (omega arith)
if_front-with_sign false (c ∷ s) t h = refl

-- The int32_t scales but the least one.
abbrev pub IsNegatable : ℤ → Type 0
IsNegatable (pos n) = n < 2 ^ 31
IsNegatable (negsuc k) = suc k < 2 ^ 31

least_apart : (n : ℕ) → n < 2 ^ 31 → n == 2 ^ 31 ≡ false
least_apart n h = ground arith

-- If the integer's text is a sign and at least one digit, at any int32_t scale but the least one
-- the function returns a text that denotes that integer divided by ten to the scale: a positive
-- scale puts the point before exactly that many digits, with at least one digit before it, and a
-- negative one multiplies by powers of ten.
pub format_decimal-Denotes :
    {Decimal : Type 0} (to_integer_string : Decimal → List ℕ) (v : Decimal) (scale : ℤ)
    (negative : Bool) (s : List ℕ)
    → to_integer_string v ≡ with_sign negative s
    → AllDigits s
    → 0 < length s
    → IsNegatable scale
    → (text : List ℕ) × (format_decimal_without_scientific_notation to_integer_string v scale
        ≡ returns text)
      × Denotes (value_from 0 s) negative scale text
unfolding format_decimal_without_scientific_notation
format_decimal-Denotes to_integer_string v (pos zero) negative s e h some_digit fits =
    (to_integer_string v, refl, record { body = s; reads = e; body_digits = h; spells = refl })
format_decimal-Denotes to_integer_string v (pos (suc scale)) negative s e h some_digit fits = (
  place_point (with_sign negative s) (suc scale),
  rw e (if_front-with_sign negative s (place_point (with_sign negative s) (suc scale)) some_digit),
  place_point-HasPoint negative s (suc scale) h (omega arith),
)
format_decimal-Denotes to_integer_string v (negsuc k) negative s e h some_digit fits = (
  with_sign negative s ++ replicate (suc k) b'0',
  rw (least_apart (suc k) fits, e)
      (if_front-with_sign negative s (with_sign negative s ++ replicate (suc k) b'0') some_digit),
  record {
    body = s ++ replicate (suc k) b'0';
    reads = with_sign-append negative s (replicate (suc k) b'0');
    body_digits = AllDigits-append s _ h (AllDigits-zeros (suc k));
    spells = value_from-append_zeros (suc k) 0 s;
  },
)
