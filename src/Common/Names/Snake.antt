-- ===== src/Common/Names/Snake.antt =====
-- SnakeString and CamelString.
use myrpc.Base.{
  ℕ, suc, Bytes, ◌≡◌, refl, Bool, true, false, not, [], ◌∷◌, arith, ◌==◌, All, if◌then◌else◌,
  Bool-cases, inl, inr, ap, ◌∙◌,
}
use myrpc.Common.Names.{
  is_upper, lower_byte, to_lower, snake_from, snake_string, next_is_lower, camel_from, camel_string,
}

abbrev pub NoUpper : Bytes → Type 0
NoUpper = All (λ d. is_upper d ≡ false)

to_lower-NoUpper : (s : Bytes) → NoUpper (to_lower s)
unfolding to_lower
to_lower-NoUpper [] = tt
to_lower-NoUpper (d ∷ s) = (ground arith, to_lower-NoUpper s)

to_lower_of_NoUpper : (s : Bytes) → NoUpper s → to_lower s ≡ s
unfolding to_lower
to_lower_of_NoUpper [] h = refl
to_lower_of_NoUpper (d ∷ s) h = ground (arith, to_lower_of_NoUpper s)

snake_from_of_NoUpper : (i : ℕ) (j : Bool) (s : Bytes) → NoUpper s → snake_from i j s ≡ s
unfolding snake_from
snake_from_of_NoUpper i j [] h = refl
snake_from_of_NoUpper i j (d ∷ s) h =
    ground (arith, snake_from_of_NoUpper (suc i) (if not (d == b'_') then true else j) s)

-- A snake-case name holds no upper-case letter.
pub snake_string-NoUpper : (s : Bytes) → NoUpper (snake_string s)
unfolding snake_string
snake_string-NoUpper s = to_lower-NoUpper (snake_from 0 false s)

-- SnakeString changes nothing on a name that it has made.
pub snake_string_idempotent : (s : Bytes) → snake_string (snake_string s) ≡ snake_string s
unfolding snake_string
snake_string_idempotent s =
    let low = to_lower-NoUpper (snake_from 0 false s) in
    ap to_lower (snake_from_of_NoUpper 0 false _ low) ∙ to_lower_of_NoUpper _ low

-- A camel-case text: no underscore stands before a lower-case letter.
abbrev pub IsCamelTail : Bytes → Type 0
IsCamelTail [] = Unit
IsCamelTail (d ∷ s) = ((d == b'_') ≡ true → next_is_lower s ≡ false) × IsCamelTail s

-- The bytes that `SnakeString` makes of a text begin with a lower-case letter only if the text does.
next_is_lower-snake :
    (i : ℕ) (s : Bytes)
    → next_is_lower s ≡ false
    → next_is_lower (to_lower (snake_from (suc i) true s)) ≡ false
unfolding snake_from to_lower
next_is_lower-snake i [] h = refl
next_is_lower-snake i (d ∷ s) h = ground arith

to_lower-snake_upper :
    (i d : ℕ) (s : Bytes)
    → is_upper d ≡ true
    → to_lower (snake_from (suc i) true (d ∷ s))
      ≡ b'_' ∷ lower_byte d ∷ to_lower (snake_from (suc (suc i)) true s)
unfolding snake_from to_lower
to_lower-snake_upper i d s h = ground arith

to_lower-snake_other :
    (i d : ℕ) (s : Bytes)
    → is_upper d ≡ false
    → to_lower (snake_from (suc i) true (d ∷ s)) ≡ d ∷ to_lower (snake_from (suc (suc i)) true s)
unfolding snake_from to_lower
to_lower-snake_other i d s h = ground arith

-- The first byte starts the name, in either loop.
to_lower-snake_first :
    (d : ℕ) (s : Bytes)
    → is_upper d ≡ true
    → to_lower (snake_from 0 false (d ∷ s)) ≡ lower_byte d ∷ to_lower (snake_from 1 true s)
unfolding snake_from to_lower
to_lower-snake_first d s h = ground arith

camel_from_first :
    (d : ℕ) (s : Bytes)
    → is_upper d ≡ true
    → camel_from false false (lower_byte d ∷ s) ≡ d ∷ camel_from false true s
unfolding camel_from
camel_from_first d s u = ground arith

camel_from_word :
    (d : ℕ) (s : Bytes)
    → is_upper d ≡ true
    → camel_from false true (b'_' ∷ lower_byte d ∷ s) ≡ d ∷ camel_from false true s
unfolding camel_from
camel_from_word d s u = ground arith

camel_from_other :
    (d : ℕ) (s : Bytes)
    → ((d == b'_') ≡ true → next_is_lower s ≡ false)
    → camel_from false true (d ∷ s) ≡ d ∷ camel_from false true s
unfolding camel_from
camel_from_other d s h = ground arith

camel_from-snake :
    (i : ℕ) (s : Bytes)
    → IsCamelTail s
    → camel_from false true (to_lower (snake_from (suc i) true s)) ≡ s
camel_from-snake i [] h = unfold to_lower snake_from camel_from in refl
camel_from-snake i (d ∷ s) h = elim (Bool-cases (is_upper d)) [
  | inl up ↦
      rw (to_lower-snake_upper i d s up, camel_from_word d _ up)
        (ap (◌∷◌ d) (camel_from-snake (suc i) s h.1))
  | inr low ↦
      rw
        (
          to_lower-snake_other i d s low,
          camel_from_other d _ (λ e. next_is_lower-snake (suc i) s (h.0 e)),
        )
        (ap (◌∷◌ d) (camel_from-snake (suc i) s h.1))
]

-- `CamelString` undoes `SnakeString` on a name that begins with an upper-case letter and has no
-- underscore before a lower-case one.
pub camel_string-snake_string :
    (d : ℕ) (s : Bytes)
    → is_upper d ≡ true
    → IsCamelTail s
    → camel_string (snake_string (d ∷ s)) ≡ d ∷ s
unfolding camel_string snake_string
camel_string-snake_string d s u h =
    ap (camel_from false false) (to_lower-snake_first d s u)
    ∙ camel_from_first d (to_lower (snake_from 1 true s)) u
    ∙ ap (◌∷◌ d) (camel_from-snake 0 s h)
