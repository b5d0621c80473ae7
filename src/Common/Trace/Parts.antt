-- ===== src/Common/Trace/Parts.antt =====
-- The parts of a text that PanicTrace takes away, by what they are.
use myrpc.Base.{
  ℕ, zero, suc, Bytes, has_prefix, has_prefix_sound, has_prefix-append, [], ◌∷◌, ◌++◌, true, none,
  some, false, ◌==◌, ◌≡◌, ◌≢◌, ◌≤◌, refl, sym, subst, ap, ◌∙◌, arith, Bool-cases, inl, inr, ◌⊎◌,
  length,
}
use myrpc.Common.Trace.{
  from, before, has_newline, behind_line, before_last_line, keep, trim_newlines,
}

-- `sep` stands nowhere in a text.
abbrev pub IsAbsent : Bytes → Bytes → Type 0
IsAbsent sep s = (p q : Bytes) → s ≢ p ++ (sep ++ q)

-- `t` is the end of `s` that begins at the first place where `sep` stands.
pub record IsFirst (sep s t : Bytes) : Type 0 where
  pub front : Bytes
  pub place : s ≡ front ++ t
  pub here : (q : Bytes) × (t ≡ sep ++ q)
  pub first : (p q : Bytes) → s ≡ p ++ (sep ++ q) → length front ≤ length p

-- `t` is `s` without its first line; `s` where it has no newline.
abbrev pub Skips : Bytes → Bytes → Type 0
Skips s t =
    ((has_newline s ≡ false) × (t ≡ s))
    ⊎ ((line : Bytes) × (has_newline line ≡ false) × (s ≡ line ++ 10 ∷ t))

-- `t` is `s` without its last newline and what follows it; `s` where it has no newline.
abbrev pub CutsLast : Bytes → Bytes → Type 0
CutsLast s t =
    ((has_newline s ≡ false) × (t ≡ s))
    ⊎ ((last : Bytes) × (has_newline last ≡ false) × (s ≡ t ++ 10 ∷ last))

-- `t` is `s` up to the first place where `sep` stands; `s` where it stands nowhere.
abbrev pub CutsAt : Bytes → Bytes → Bytes → Type 0
CutsAt sep s t = IsAbsent sep t × ((t ≡ s) ⊎ ((rest : Bytes) × (s ≡ t ++ (sep ++ rest))))

abbrev pub newlines : ℕ → Bytes
newlines zero = []
newlines (suc n) = 10 ∷ newlines n

abbrev pub EndsBare : Bytes → Type 0
EndsBare [] = Unit
EndsBare (c ∷ []) = (c == 10) ≡ false
EndsBare (c ∷ d ∷ s) = EndsBare (d ∷ s)

pub from-IsAbsent : (sep s : Bytes) → from sep s ≡ none → IsAbsent sep s
unfolding from
from-IsAbsent sep [] h [] q e =
    let here : has_prefix [] sep ≡ true = ap (λ s. has_prefix s sep) e ∙ has_prefix-append sep q in
    cc (rw here at h)
from-IsAbsent sep [] h (d ∷ p) q e = cc
from-IsAbsent sep (c ∷ s) h [] q e =
    let here : has_prefix (c ∷ s) sep ≡ true =
      ap (λ s. has_prefix s sep) e ∙ has_prefix-append sep q in
    cc (rw here at h)
from-IsAbsent sep (c ∷ s) h (d ∷ p) q e = elim (Bool-cases (has_prefix (c ∷ s) sep)) [
  | inl here ↦ cc (rw here at h)
  | inr not_here ↦
      let tail : s ≡ p ++ (sep ++ q) = cc e in from-IsAbsent sep s (rw not_here at h) p q tail
]

here-IsFirst : (sep s t : Bytes) → has_prefix s sep ≡ true → s ≡ t → IsFirst sep s t
here-IsFirst sep s t here same = record {
  front = [];
  place = same;
  here = let (q, e) = has_prefix_sound s sep here in (q, sym same ∙ e);
  first = λ p q e. omega arith;
}

later-IsFirst :
    (c : ℕ) (sep s t : Bytes)
    → has_prefix (c ∷ s) sep ≡ false
    → IsFirst sep s t
    → IsFirst sep (c ∷ s) t
later-IsFirst c sep s t not_here f = record {
  front = c ∷ f.front;
  place = ap (λ s. c ∷ s) f.place;
  here = f.here;
  first = not_before;
}
  where
    not_before : (p q : Bytes) → c ∷ s ≡ p ++ (sep ++ q) → length (c ∷ f.front) ≤ length p
    not_before [] q e = cc (not_here, ap (λ s. has_prefix s sep) e, has_prefix-append sep q)
    not_before (d ∷ p) q e =
        let tail : s ≡ p ++ (sep ++ q) = cc e in omega (arith, f.first p q tail)

pub from-IsFirst : (sep s t : Bytes) → from sep s ≡ some t → IsFirst sep s t
unfolding from
from-IsFirst sep [] t h = elim (Bool-cases (has_prefix [] sep)) [
  | inl here ↦
      let e : some [] ≡ some t = rw here at h in
      let same : [] ≡ t = cc e in here-IsFirst sep [] t here same
  | inr not_here ↦ cc (rw not_here at h)
]
from-IsFirst sep (c ∷ s) t h = elim (Bool-cases (has_prefix (c ∷ s) sep)) [
  | inl here ↦
      let e : some (c ∷ s) ≡ some t = rw here at h in
      let same : c ∷ s ≡ t = cc e in here-IsFirst sep (c ∷ s) t here same
  | inr not_here ↦ later-IsFirst c sep s t not_here (from-IsFirst sep s t (rw not_here at h))
]

has_newline-append : (line t : Bytes) → has_newline (line ++ 10 ∷ t) ≡ true
has_newline-append [] t = refl
has_newline-append (c ∷ line) t = ground (arith, has_newline-append line t)

pub behind_line-Skips : (s : Bytes) → Skips s (behind_line s)
behind_line-Skips [] = inl (refl, refl)
behind_line-Skips (c ∷ s) = elim (Bool-cases (c == 10)) [
  | inl line ↦ let e : c ≡ 10 = ground arith in rw line (inr ([], refl, ap (λ c. c ∷ s) e))
  | inr other ↦ elim (behind_line-Skips s) [
    | inl (last, e) ↦ rw (other, last) (inl (refl, refl))
    | inr (line, short, e) ↦
        let more : has_newline s ≡ true =
          ap has_newline e ∙ has_newline-append line (behind_line s) in
        rw (other, more) (inr (c ∷ line, rw (other, short) refl, ap (λ s. c ∷ s) e))
  ]
]

pub before_last_line-CutsLast : (s : Bytes) → CutsLast s (before_last_line s)
before_last_line-CutsLast [] = inl (refl, refl)
before_last_line-CutsLast (c ∷ s) = elim (before_last_line-CutsLast s) [
  | inl (last, e) ↦ elim (Bool-cases (c == 10)) [
    | inl line ↦
        let same : c ≡ 10 = ground arith in rw (last, line) (inr (s, last, ap (λ c. c ∷ s) same))
    | inr other ↦ rw (last, other) (inl (refl, refl))
  ]
  | inr (last, short, e) ↦
      let more : has_newline s ≡ true =
        ap has_newline e ∙ has_newline-append (before_last_line s) last in
      rw more (inr (last, short, ap (λ s. c ∷ s) e))
]

abbrev Begins : Bytes → Bytes → Type 0
Begins s t = (q : Bytes) × (s ≡ t ++ q)

before-Begins : (sep s : Bytes) → Begins s (before sep s)
unfolding before
before-Begins sep [] = ([], refl)
before-Begins sep (c ∷ s) = elim (Bool-cases (has_prefix (c ∷ s) sep)) [
  | inl here ↦ rw here (c ∷ s, refl)
  | inr not_here ↦ rw not_here (let (q, e) = before-Begins sep s in (q, ap (λ s. c ∷ s) e))
]

-- What begins with a part of a text begins a longer text too.
has_prefix_shorter : (s q p : Bytes) → has_prefix (s ++ q) p ≡ false → has_prefix s p ≡ false
unfolding has_prefix
has_prefix_shorter s q [] h = h
has_prefix_shorter [] q (d ∷ p) h = refl
has_prefix_shorter (c ∷ s) q (d ∷ p) h = ground (arith, has_prefix_shorter s q p)

from_nil : (d : ℕ) (sep : Bytes) → from (d ∷ sep) [] ≡ none
unfolding from has_prefix
from_nil d sep = refl

pub from-before : (d : ℕ) (sep s : Bytes) → from (d ∷ sep) (before (d ∷ sep) s) ≡ none
unfolding from before
from-before d sep [] = from_nil d sep
from-before d sep (c ∷ s) = elim (Bool-cases (has_prefix (c ∷ s) (d ∷ sep))) [
  | inl here ↦ rw here (from_nil d sep)
  | inr not_here ↦
      let (q, e) = before-Begins (d ∷ sep) s in
      let shorter : has_prefix (c ∷ before (d ∷ sep) s) (d ∷ sep) ≡ false =
        has_prefix_shorter (c ∷ before (d ∷ sep) s) q (d ∷ sep)
          (subst (λ s. has_prefix (c ∷ s) (d ∷ sep) ≡ false) e not_here) in
      rw not_here (rw shorter (from-before d sep s))
]

pub before_place :
    (sep s : Bytes) → (before sep s ≡ s) ⊎ ((rest : Bytes) × (s ≡ before sep s ++ (sep ++ rest)))
unfolding before
before_place sep [] = inl refl
before_place sep (c ∷ s) = elim (Bool-cases (has_prefix (c ∷ s) sep)) [
  | inl here ↦ rw here (inr (has_prefix_sound (c ∷ s) sep here))
  | inr not_here ↦ rw not_here (elim (before_place sep s) [
    | inl whole ↦ inl (ap (λ s. c ∷ s) whole)
    | inr (rest, e) ↦ inr (rest, ap (λ s. c ∷ s) e)
  ])
]

keep_lem :
    (c : ℕ) (s u : Bytes) (n : ℕ)
    → s ≡ u ++ newlines n
    → EndsBare u
    → ((n : ℕ) × (c ∷ s ≡ keep c u ++ newlines n)) × EndsBare (keep c u)
keep_lem c s [] n e bare = elim (Bool-cases (c == 10)) [
  | inl line ↦
      let same : c ≡ 10 = ground arith in
      rw line ((suc n, ap (λ c. c ∷ s) same ∙ ap (λ s. 10 ∷ s) e), tt)
  | inr other ↦ rw other ((n, ap (λ s. c ∷ s) e), other)
]
keep_lem c s (d ∷ u) n e bare = ((n, ap (λ s. c ∷ s) e), bare)

pub trim_newlines_lem :
    (s : Bytes) → ((n : ℕ) × (s ≡ trim_newlines s ++ newlines n)) × EndsBare (trim_newlines s)
trim_newlines_lem [] = ((0, refl), tt)
trim_newlines_lem (c ∷ s) =
    let ((n, e), bare) = trim_newlines_lem s in keep_lem c s (trim_newlines s) n e bare
