-- ===== src/Common/Errors.antt =====
-- common/errors.go: errors, their messages and formats. `fmt.Errorf` is modelled for formats whose
-- only verb is `%s` and whose arguments are strings, which is all that the program uses it with.
use myrpc.Base.{
  refl, ◌⊎◌, inl, inr, ℕ, ◌≡◌, false, Bytes, codes, ◌++◌, List, [], ◌∷◌, Option, none, some, ◌==◌,
  if◌then◌else◌,
}

-- A Go `error` that is not nil. `io.EOF` and `io.ErrUnexpectedEOF` are compared by identity; of any
-- other error the program reads the message alone.
pub data Error : Type 0 where
  eof : Error
  unexpected_eof : Error
  message : Bytes → Error

-- A value, or an error in its place.
pub data Result (A : Type 0) : Type 0 where
  ok : A → Result A
  err : Error → Result A

pub Result-cases :
    {A : Type 0} (r : Result A) → ((a : A) × (r ≡ ok a)) ⊎ ((e : Error) × (r ≡ err e))
Result-cases (ok a) = inl (a, refl)
Result-cases (err e) = inr (e, refl)

-- `err.Error()`.
abbrev pub error_text : Error → Bytes
error_text eof = codes "EOF"
error_text unexpected_eof = codes "unexpected EOF"
error_text (message m) = m

-- `common.NewError`.
abbrev pub new_error : Bytes → Error
new_error m = message m

-- What `fmt.Errorf` adds for arguments that no verb takes.
extra_list : List Bytes → Bytes
extra_list [] = []
extra_list (a ∷ []) = codes "string=" ++ a
extra_list (a ∷ b ∷ as') = codes "string=" ++ (a ++ (codes ", " ++ extra_list (b ∷ as')))

extra : List Bytes → Bytes
unfolding extra_list
extra [] = []
extra (a ∷ as') = codes "%!(EXTRA " ++ (extra_list (a ∷ as') ++ codes ")")

abbrev first_arg : List Bytes → Bytes
first_arg [] = codes "%!s(MISSING)"
first_arg (a ∷ _) = a

abbrev other_args : List Bytes → List Bytes
other_args [] = []
other_args (_ ∷ as') = as'

-- Expands `%s`; the byte after a `%` is read with it.
mutual
  unfolding extra

  format_from : Bytes → List Bytes → Bytes
  format_from [] args = extra args
  format_from (c ∷ rest) args =
      let verb = format_verb rest args in
      let plain = format_from rest args in if c == b'%' then verb else c ∷ plain

  format_verb : Bytes → List Bytes → Bytes
  format_verb [] args = codes "%!(NOVERB)" ++ extra args
  format_verb (v ∷ rest) args =
      let text = format_from rest (other_args args) in
      let escaped = format_from rest args in
      if v == b's' then first_arg args ++ text else b'%' ∷ escaped

-- `(*Error).Format`.
unfoldable pub format : Bytes → List Bytes → Bytes
unfolding format_from
format text args = format_from text args

-- `(*Error).Append`.
abbrev pub append_text : Bytes → Bytes → Bytes
append_text m s = m ++ s

-- `(*Error).With`: a nil error stays nil.
unfoldable pub with_error : Bytes → Option Error → Option Error
unfolding format
with_error m none = none
with_error m (some e) = some (message (format m (error_text e ∷ [])))

-- `(*Error).Return`.
unfoldable pub return_error : Bytes → Error
unfolding format
return_error m = message (format m [])

-- A format that does not begin with a verb keeps its first byte.
pub format_plain :
    (b : ℕ) (text : Bytes) (args : List Bytes)
    → (b == b'%') ≡ false
    → format (b ∷ text) args ≡ b ∷ format text args
unfolding format format_from
format_plain b text args plain = rw plain
