-- ===== src/Common/Names.antt =====
-- common/utils.go: the spelling of service names. `strings.ToLower` and the regular expression act
-- on ASCII text here, which is what `CheckSname` lets through.
pub mod Snake
pub mod Checked
mod Tests
use myrpc.Base.{
  ℕ, suc, ◌+◌, ◌-◌, Bytes, codes, ◌++◌, Bool, true, false, not, ◌&&◌, ◌||◌, [], ◌∷◌, Option, none,
  some, ltb, leb, ◌==◌, if◌then◌else◌,
}
use myrpc.Common.Errors.{Error, message, format}

abbrev pub is_upper : ℕ → Bool
is_upper d = leb b'A' d && leb d b'Z'

abbrev pub is_lower : ℕ → Bool
is_lower d = leb b'a' d && leb d b'z'

abbrev pub is_digit : ℕ → Bool
is_digit d = leb b'0' d && leb d b'9'

abbrev pub lower_byte : ℕ → ℕ
lower_byte d = if is_upper d then d + 32 else d

-- `strings.ToLower` on ASCII.
unfoldable pub to_lower : Bytes → Bytes
to_lower [] = []
to_lower (d ∷ s) = lower_byte d ∷ to_lower s

-- The loop of `SnakeString` from index `i`.
unfoldable pub snake_from : ℕ → Bool → Bytes → Bytes
snake_from i j [] = []
snake_from i j (d ∷ s) =
    let rest = snake_from (suc i) (if not (d == b'_') then true else j) s in
    if ltb 0 i && is_upper d && j then b'_' ∷ d ∷ rest else d ∷ rest

unfoldable pub snake_string : Bytes → Bytes
unfolding to_lower snake_from
snake_string s = to_lower (snake_from 0 false s)

abbrev pub next_is_lower : Bytes → Bool
next_is_lower [] = false
next_is_lower (d ∷ _) = is_lower d

-- The loop of `CamelString`. `skip` is its `continue`.
unfoldable pub camel_from : Bool → Bool → Bytes → Bytes
camel_from j k [] = []
camel_from j k (d ∷ s) =
    let k' = k || is_upper d in
    let raise = is_lower d && (j || not k') in
    let d' = if raise then d - 32 else d in
    let k'' = k' || raise in
    let skip = k'' && (d' == b'_') && next_is_lower s in
    let rest = camel_from (if skip then true else (if raise then false else j)) k'' s in
    if skip then rest else d' ∷ rest

unfoldable pub camel_string : Bytes → Bytes
unfolding camel_from
camel_string s = camel_from false false s

-- The class `[a-zA-Z0-9_\.\-]`.
abbrev pub is_name_byte : ℕ → Bool
is_name_byte d = is_lower d || is_upper d || is_digit d || (d == b'_') || (d == b'.') || (d == b'-')

-- `nameRegexp.MatchString`.
unfoldable pub name_matches : Bytes → Bool
name_matches [] = true
name_matches (d ∷ s) = is_name_byte d && name_matches s

abbrev pub err_invalid_path : Bytes
err_invalid_path = codes "The service name '%s' invalid, need to meet '/^[a-zA-Z0-9_\\.\\-/]*$/'"

unfoldable pub check_sname : Bytes → Option Error
unfolding name_matches format
check_sname sname =
    if not (name_matches sname) then some (message (format err_invalid_path (sname ∷ []))) else none
