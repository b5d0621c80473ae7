-- ===== src/Common/Names/Checked.antt =====
-- CheckSname, and the names that SnakeString makes of those it accepts.
use myrpc.Base.{
  ℕ, suc, Bytes, ◌≡◌, ◌↔◌, refl, Bool, true, false, not, [], ◌∷◌, none, arith, ◌==◌, All,
  if◌then◌else◌,
}
use myrpc.Common.Names.{is_name_byte, to_lower, snake_from, snake_string, name_matches, check_sname}

name_matches_iff : (s : Bytes) → (name_matches s ≡ true) ↔ All (λ d. is_name_byte d ≡ true) s
unfolding name_matches
name_matches_iff [] = ((λ _. tt), (λ _. refl))
name_matches_iff (d ∷ s) = ground (arith, name_matches_iff s)

check_sname_iff : (s : Bytes) → (check_sname s ≡ none) ↔ (name_matches s ≡ true)
unfolding check_sname
check_sname_iff s = ground arith

name_matches-to_lower : (s : Bytes) → name_matches s ≡ true → name_matches (to_lower s) ≡ true
unfolding name_matches to_lower
name_matches-to_lower [] h = refl
name_matches-to_lower (d ∷ s) h = ground (arith, name_matches-to_lower s)

name_matches-snake_from :
    (i : ℕ) (j : Bool) (s : Bytes) → name_matches s ≡ true → name_matches (snake_from i j s) ≡ true
unfolding name_matches snake_from
name_matches-snake_from i j [] h = refl
name_matches-snake_from i j (d ∷ s) h =
    ground (arith, name_matches-snake_from (suc i) (if not (d == b'_') then true else j) s)

-- The snake-case form of an accepted name is accepted.
pub check_sname-snake_string :
    (s : Bytes) → check_sname s ≡ none → check_sname (snake_string s) ≡ none
unfolding snake_string
check_sname-snake_string s h =
    (check_sname_iff _).1
      (name_matches-to_lower _ (name_matches-snake_from 0 false s ((check_sname_iff s).0 h)))

-- `CheckSname` accepts a name exactly when each of its bytes is a letter, a digit, `_`, `.` or
-- `-`.
pub check_sname-All : (s : Bytes) → (check_sname s ≡ none) ↔ All (λ d. is_name_byte d ≡ true) s
check_sname-All s = (
  (λ h. (name_matches_iff s).0 ((check_sname_iff s).0 h)),
  (λ h. (check_sname_iff s).1 ((name_matches_iff s).1 h)),
)
