-- ===== src/Pattern/Tokens.antt =====
-- A search pattern and its regular expression as the same sequence of tokens.
use gizmosql_odbc_driver.Prelude.{
  ℕ, Bool, true, false, List, [], ◌∷◌, ◌==◌, if◌then◌else◌, ◌≡◌, refl, sym, ap, ◌∙◌, arith, leb,
  ◌||◌, ◌&&◌, Bool-cases, ◌⊎◌, inl, inr, subst,
}
use gizmosql_odbc_driver.Pattern.{
  is_special, backslash, underscore, percent, dot, star, regex_from,
  convert_sql_pattern_to_regex_string,
}

-- What a pattern asks for: one character, any text, a character itself; `operator` is what else a
-- regular expression may hold.
pub data Token : Type 0 where
  any_char any_text : Token
  literal operator : ℕ → Token

-- The tokens of an SQL pattern, whose escape character is the backslash.
unfoldable pub pattern_from : Bool → List ℕ → List Token
pattern_from escape [] = []
pattern_from true (c ∷ s) = literal c ∷ pattern_from false s
pattern_from false (c ∷ s) =
    let rest = pattern_from false s in
    let escaped = pattern_from true s in
    if c == backslash
    then escaped
    else if c == underscore
    then any_char ∷ rest
    else if c == percent
    then any_text ∷ rest
    else literal c ∷ rest

-- The characters with a meaning of their own in a regular expression of Perl's syntax, from which
-- the hyphen is absent: it has one only between brackets.
unfoldable pub is_operator : ℕ → Bool
is_operator c =
    leb 36 c && leb c 36
    || leb 40 c && leb c 43
    || c == 46
    || c == 63
    || leb 91 c && leb c 94
    || leb 123 c && leb c 125

-- A backslash before a letter, a digit or an underscore makes a class, an assertion or a reference,
-- and before any other character it takes its meaning away.
unfoldable pub is_word : ℕ → Bool
is_word c = leb 48 c && leb c 57 || leb 65 c && leb c 90 || c == 95 || leb 97 c && leb c 122

-- Where a reader of a regular expression is.
pub data Reader : Type 0 where
  plain after_backslash after_dot : Reader

-- The tokens of a regular expression.
unfoldable pub regex_tokens : Reader → List ℕ → List Token
regex_tokens after_dot [] = any_char ∷ []
regex_tokens r [] = []
regex_tokens after_backslash (c ∷ s) =
    let rest = regex_tokens plain s in if is_word c then operator c ∷ rest else literal c ∷ rest
regex_tokens plain (c ∷ s) =
    let rest = regex_tokens plain s in
    let quoted = regex_tokens after_backslash s in
    let dotted = regex_tokens after_dot s in
    if c == backslash
    then quoted
    else if c == dot
    then dotted
    else if is_operator c
    then operator c ∷ rest
    else literal c ∷ rest
regex_tokens after_dot (c ∷ s) =
    let rest = regex_tokens plain s in
    let quoted = regex_tokens after_backslash s in
    let dotted = regex_tokens after_dot s in
    if c == star
    then any_text ∷ rest
    else if c == backslash
    then any_char ∷ quoted
    else if c == dot
    then any_char ∷ dotted
    else if is_operator c
    then any_char ∷ operator c ∷ rest
    else any_char ∷ literal c ∷ rest

-- No character after a backslash has a meaning in a regular expression.
abbrev pub EscapesPlain : Bool → List ℕ → Type 0
EscapesPlain escape [] = Unit
EscapesPlain true (c ∷ s) = (is_operator c ≡ false) × EscapesPlain false s
EscapesPlain false (c ∷ s) = EscapesPlain (c == backslash) s

-- What does not begin with a star.
abbrev StartsPlain : List ℕ → Type 0
StartsPlain [] = Unit
StartsPlain (c ∷ s) = c == star ≡ false

after_dot-plain :
    (t : List ℕ) → StartsPlain t → regex_tokens after_dot t ≡ any_char ∷ regex_tokens plain t
unfolding regex_tokens
after_dot-plain [] h = refl
after_dot-plain (c ∷ s) h = ground arith

-- A character without a meaning is none of those that the readers look for.
plain_char :
    (c : ℕ)
    → is_operator c ≡ false
    → (c == backslash ≡ false) × (c == dot ≡ false) × (c == star ≡ false)
unfolding is_operator
plain_char c h = ground arith

-- The code's list has every character with a meaning, and a backslash quotes all of the list.
ordinary_char : (c : ℕ) → is_special c ≡ false → is_operator c ≡ false
unfolding is_special is_operator
ordinary_char c h = ground arith

special_char : (c : ℕ) → is_special c ≡ true → is_word c ≡ false
unfolding is_special is_word
special_char c h = ground arith

char-cases :
    (c : ℕ)
    → (c ≡ backslash)
      ⊎ (c ≡ underscore)
      ⊎ (c ≡ percent)
      ⊎ ((c == backslash ≡ false) × (c == underscore ≡ false) × (c == percent ≡ false))
char-cases c = ground arith

-- What the loop does with a character that has no meaning in a pattern.
regex_from-other :
    (c : ℕ) (s : List ℕ)
    → c == backslash ≡ false
    → c == underscore ≡ false
    → c == percent ≡ false
    → regex_from false (c ∷ s)
      ≡ (if is_special c then backslash ∷ c ∷ regex_from false s else c ∷ regex_from false s)
unfolding regex_from
regex_from-other c s b u p = rw b (rw u (rw p))

pattern_from-other :
    (c : ℕ) (s : List ℕ)
    → c == backslash ≡ false
    → c == underscore ≡ false
    → c == percent ≡ false
    → pattern_from false (c ∷ s) ≡ literal c ∷ pattern_from false s
unfolding pattern_from
pattern_from-other c s b u p = rw b (rw u (rw p))

regex_tokens-plain :
    (c : ℕ) (t : List ℕ)
    → is_operator c ≡ false
    → regex_tokens plain (c ∷ t) ≡ literal c ∷ regex_tokens plain t
unfolding regex_tokens
regex_tokens-plain c t h = let tests = plain_char c h in rw tests.0 (rw tests.1 (rw h))

regex_from-StartsPlain : (s : List ℕ) (e : Bool) → EscapesPlain e s → StartsPlain (regex_from e s)
unfolding regex_from
regex_from-StartsPlain [] e h = tt
regex_from-StartsPlain (c ∷ s) true h = (plain_char c h.0).2
regex_from-StartsPlain (c ∷ s) false h = elim (char-cases c) [
  | inl e ↦
      subst (λ x. EscapesPlain (x == backslash) s → StartsPlain (regex_from false (x ∷ s))) (sym e)
        (λ g. regex_from-StartsPlain s true g) h
  | inr (inl e) ↦ subst (λ x. StartsPlain (regex_from false (x ∷ s))) (sym e) refl
  | inr (inr (inl e)) ↦ subst (λ x. StartsPlain (regex_from false (x ∷ s))) (sym e) refl
  | inr (inr (inr (b, u, p))) ↦
      subst StartsPlain (sym (regex_from-other c s b u p)) (elim (Bool-cases (is_special c)) [
        | inl special ↦ rw special refl
        | inr ordinary ↦ rw ordinary (plain_char c (ordinary_char c ordinary)).2
      ])
]

-- The tokens after a character without a meaning in a pattern.
other_agrees :
    (c : ℕ) (s : List ℕ)
    → regex_tokens plain (regex_from false s) ≡ pattern_from false s
    → regex_tokens plain
        (if is_special c then backslash ∷ c ∷ regex_from false s else c ∷ regex_from false s)
      ≡ literal c ∷ pattern_from false s
unfolding regex_tokens
other_agrees c s agree = elim (Bool-cases (is_special c)) [
  | inl special ↦ rw (special, special_char c special) (ap (◌∷◌ (literal c)) agree)
  | inr ordinary ↦ rw ordinary (
      regex_tokens-plain c (regex_from false s) (ordinary_char c ordinary)
      ∙ ap (◌∷◌ (literal c)) agree)
]

tokens_agree :
    (s : List ℕ) (e : Bool)
    → EscapesPlain e s
    → regex_tokens plain (regex_from e s) ≡ pattern_from e s
unfolding regex_tokens regex_from pattern_from
tokens_agree [] e h = refl
tokens_agree (c ∷ s) true h =
    regex_tokens-plain c (regex_from false s) h.0 ∙ ap (◌∷◌ (literal c)) (tokens_agree s false h.1)
tokens_agree (c ∷ s) false h = elim (char-cases c) [
  | inl e ↦
      subst
        (λ x.
          EscapesPlain (x == backslash) s
          → regex_tokens plain (regex_from false (x ∷ s)) ≡ pattern_from false (x ∷ s))
        (sym e) (λ g. tokens_agree s true g) h
  | inr (inl e) ↦
      subst
        (λ x.
          EscapesPlain (x == backslash) s
          → regex_tokens plain (regex_from false (x ∷ s)) ≡ pattern_from false (x ∷ s))
        (sym e)
        (λ g.
          after_dot-plain (regex_from false s) (regex_from-StartsPlain s false g)
          ∙ ap (◌∷◌ any_char) (tokens_agree s false g))
        h
  | inr (inr (inl e)) ↦
      subst
        (λ x.
          EscapesPlain (x == backslash) s
          → regex_tokens plain (regex_from false (x ∷ s)) ≡ pattern_from false (x ∷ s))
        (sym e) (λ g. ap (◌∷◌ any_text) (tokens_agree s false g)) h
  | inr (inr (inr (b, u, p))) ↦
      ap (regex_tokens plain) (regex_from-other c s b u p)
      ∙ other_agrees c s (tokens_agree s false (subst (λ x. EscapesPlain x s) b h))
      ∙ sym (pattern_from-other c s b u p)
]

-- If no character after a backslash has a meaning of its own in a regular expression of Perl's
-- syntax, the converted pattern reads as the pattern's own tokens, without an operator that the
-- pattern does not ask for.
pub convert_sql_pattern_lem :
    (pattern : List ℕ)
    → EscapesPlain false pattern
    → regex_tokens plain (convert_sql_pattern_to_regex_string pattern) ≡ pattern_from false pattern
unfolding convert_sql_pattern_to_regex_string
convert_sql_pattern_lem pattern h = tokens_agree pattern false h
