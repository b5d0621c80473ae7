-- ===== src/Plugin/Whitelist/Texts.antt =====
-- What a pattern of the white list lets in, by its text, and that Allow reads it so.
use myrpc.Base.{
  ℕ, Bytes, is_empty, [], ◌∷◌, ◌++◌, none, some, true, false, ◌≡◌, ◌≢◌, refl, ap, ◌∙◌, arith,
  Bool-cases, Option-cases, inl, inr, ◌⊎◌, All, ◌==◌, ◌&&◌, if◌then◌else◌,
}
use myrpc.Plugin.Whitelist.{is_space, trim_left, trim_right, trim_space, without_star}

-- A text that does not begin with white space, and one that does not end in it; neither is empty.
abbrev pub StartsBare : Bytes → Type 0
StartsBare [] = ⊥
StartsBare (d ∷ s) = is_space d ≡ false

abbrev pub EndsBare : Bytes → Type 0
EndsBare [] = ⊥
EndsBare (d ∷ []) = is_space d ≡ false
EndsBare (d ∷ e ∷ s) = EndsBare (e ∷ s)

abbrev pub AreSpaces : Bytes → Type 0
AreSpaces = All (λ d. is_space d ≡ true)

abbrev pub star : Bytes
star = b'*' ∷ []

-- The texts that let an address in: the address itself, where it does not end in a star, or a beginning
-- of it with a star behind; with white space around it in both cases.
pub data Admits (addr : Bytes) : Bytes → Type 0 where
  exactly :
      (front back : Bytes)
      → AreSpaces front
      → AreSpaces back
      → StartsBare addr
      → EndsBare addr
      → ((p : Bytes) → addr ≢ p ++ star)
      → Admits addr (front ++ (addr ++ back))
  beginning :
      (front p r back : Bytes)
      → AreSpaces front
      → AreSpaces back
      → StartsBare (p ++ star)
      → addr ≡ p ++ r
      → Admits addr (front ++ ((p ++ star) ++ back))

trim_left_spaces : (front s : Bytes) → AreSpaces front → trim_left (front ++ s) ≡ trim_left s
unfolding trim_left
trim_left_spaces [] s h = refl
trim_left_spaces (d ∷ front) s (space, h) = rw space (trim_left_spaces front s h)

trim_left_bare : (core s : Bytes) → StartsBare core → trim_left (core ++ s) ≡ core ++ s
unfolding trim_left
trim_left_bare [] s h = absurd h
trim_left_bare (d ∷ core) s h = rw h refl

trim_right_spaces : (back : Bytes) → AreSpaces back → trim_right back ≡ []
unfolding trim_right
trim_right_spaces [] h = refl
trim_right_spaces (d ∷ back) (space, h) = rw (space, trim_right_spaces back h) refl

trim_right_bare :
    (core back : Bytes) → AreSpaces back → EndsBare core → trim_right (core ++ back) ≡ core
unfolding trim_right
trim_right_bare [] back h bare = absurd bare
trim_right_bare (d ∷ []) back h bare = rw (bare, trim_right_spaces back h) refl
trim_right_bare (d ∷ e ∷ core) back h bare =
    let ih = trim_right_bare (e ∷ core) back h bare in
    ap (λ r. if is_space d && is_empty r then [] else d ∷ r) ih
    ∙ (elim (Bool-cases (is_space d)) [ inl space ↦ rw space refl | inr bare ↦ rw bare refl ])

pub trim_space_lem :
    (front core back : Bytes)
    → AreSpaces front
    → AreSpaces back
    → StartsBare core
    → EndsBare core
    → trim_space (front ++ (core ++ back)) ≡ core
trim_space_lem front core back fs bs starts ends =
    ap trim_right (trim_left_spaces front (core ++ back) fs ∙ trim_left_bare core back starts)
    ∙ trim_right_bare core back bs ends

-- What TrimSpace takes away.
pub trim_left_split :
    (s : Bytes)
    → (front : Bytes) × AreSpaces front
      × (s ≡ front ++ trim_left s)
      × ((trim_left s ≡ []) ⊎ StartsBare (trim_left s))
unfolding trim_left
trim_left_split [] = ([], tt, refl, inl refl)
trim_left_split (d ∷ s) = elim (Bool-cases (is_space d)) [
  | inl space ↦
      let (front, h, e, bare) = trim_left_split s in
      rw space (d ∷ front, (space, h), ap (λ s. d ∷ s) e, bare)
  | inr other ↦ rw other ([], tt, refl, inr other)
]

pub trim_right_split :
    (s : Bytes)
    → (back : Bytes) × AreSpaces back
      × (s ≡ trim_right s ++ back)
      × ((trim_right s ≡ []) ⊎ EndsBare (trim_right s))
unfolding trim_right
trim_right_split [] = ([], tt, refl, inl refl)
trim_right_split (d ∷ s) =
    let (back, h, e, bare) = trim_right_split s in split_at d s (trim_right s) back h e bare
  where
    split_at :
        (d : ℕ) (s r back : Bytes)
        → AreSpaces back
        → s ≡ r ++ back
        → (r ≡ []) ⊎ EndsBare r
        → let t = if is_space d && is_empty r then [] else d ∷ r in
          (back : Bytes) × AreSpaces back × (d ∷ s ≡ t ++ back) × ((t ≡ []) ⊎ EndsBare t)
    split_at d s [] back h e bare = elim (Bool-cases (is_space d)) [
      | inl space ↦ rw space (d ∷ back, (space, h), ap (λ s. d ∷ s) e, inl refl)
      | inr other ↦ rw other (back, h, ap (λ s. d ∷ s) e, inr other)
    ]
    split_at d s (c ∷ r) back h e (inl nothing) = cc
    split_at d s (c ∷ r) back h e (inr bare) = elim (Bool-cases (is_space d)) [
      | inl space ↦ rw space (back, h, ap (λ s. d ∷ s) e, inr bare)
      | inr other ↦ rw other (back, h, ap (λ s. d ∷ s) e, inr bare)
    ]

-- A star at the end is found, and only there.
pub without_star_sound : (s p : Bytes) → without_star s ≡ some p → s ≡ p ++ star
unfolding without_star
without_star_sound [] p h = cc
without_star_sound (d ∷ []) p h = elim (Bool-cases (d == b'*')) [
  | inl same ↦
      let e : some [] ≡ some p = rw same at h in
      let c : d ≡ b'*' = ground arith in
      let q : [] ≡ p = cc e in ap (λ d. d ∷ []) c ∙ ap (λ p. p ++ star) q
  | inr other ↦ cc (rw other at h)
]
without_star_sound (d ∷ e ∷ s) p h = elim (Option-cases (without_star (e ∷ s))) [
  | inl missing ↦ cc (rw missing at h)
  | inr (q, found) ↦
      let same : some (d ∷ q) ≡ some p = rw found at h in
      let whole : d ∷ q ≡ p = cc same in
      ap (λ s. d ∷ s) (without_star_sound (e ∷ s) q found) ∙ ap (λ p. p ++ star) whole
]

pub without_star-append : (p : Bytes) → without_star (p ++ star) ≡ some p
unfolding without_star
without_star-append [] = refl
without_star-append (d ∷ []) = refl
without_star-append (d ∷ e ∷ p) =
    ap (λ o. elim o [ none ↦ none | some p ↦ some (d ∷ p) ]) (without_star-append (e ∷ p))

pub EndsBare-star : (p : Bytes) → EndsBare (p ++ star)
EndsBare-star [] = refl
EndsBare-star (d ∷ []) = refl
EndsBare-star (d ∷ e ∷ p) = EndsBare-star (e ∷ p)
