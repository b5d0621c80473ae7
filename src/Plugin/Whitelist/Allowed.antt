-- ===== src/Plugin/Whitelist/Allowed.antt =====
-- The addresses that Allow lets in, by the texts of its patterns.
use myrpc.Base.{
  Bytes, beq_iff, beq_refl, has_prefix_sound, has_prefix-append, List, [], ◌∷◌, ◌++◌, some, true,
  ◌≡◌, ◌≢◌, ◌↔◌, refl, sym, subst, ap, ◌∙◌, arith, Bool-cases, Option-cases, inl, inr, ◌⊎◌,
}
use myrpc.Plugin.Whitelist.{
  trim_left, trim_right, trim_space, without_star, leading_of, trimmed_pattern, pattern_of,
  IpWhitelist, is_allowed, allow, settled_allow,
}
use myrpc.Plugin.Whitelist.Patterns.{meets, meets_any, listed, allow_lem}
use myrpc.Plugin.Whitelist.Texts.{
  StartsBare, EndsBare, AreSpaces, star, Admits, exactly, beginning, trim_space_lem,
  trim_left_split, trim_right_split, without_star_sound, without_star-append, EndsBare-star,
}

StartsBare-trim_right : (s : Bytes) → StartsBare s → StartsBare (trim_right s)
unfolding trim_right
StartsBare-trim_right [] h = h
StartsBare-trim_right (d ∷ s) h = rw h h

-- A text is white space, what TrimSpace leaves, and white space.
trim_space_split :
    (s : Bytes)
    → (front back : Bytes) × AreSpaces front
      × AreSpaces back
      × (s ≡ front ++ (trim_space s ++ back))
      × ((trim_space s ≡ []) ⊎ (StartsBare (trim_space s) × EndsBare (trim_space s)))
trim_space_split s =
    let (front, fs, e, starts) = trim_left_split s in
    let (back, bs, e', ends) = trim_right_split (trim_left s) in
    (
      front,
      back,
      fs,
      bs,
      e ∙ ap (λ t. front ++ t) e',
      elim ends [
        | inl nothing ↦ inl nothing
        | inr bare ↦ elim starts [
          | inl nothing ↦ inl (unfold trim_right in ap trim_right nothing)
          | inr begins ↦ inr (StartsBare-trim_right (trim_left s) begins, bare)
        ]
      ],
    )

starred-Admits :
    (addr front p back : Bytes)
    → AreSpaces front
    → AreSpaces back
    → StartsBare (p ++ star)
    → meets addr (leading_of (p ++ star) (some p)) ≡ true
    → Admits addr (front ++ ((p ++ star) ++ back))
starred-Admits addr front [] back fs bs starts h = beginning front [] addr back fs bs starts refl
starred-Admits addr front (d ∷ p) back fs bs starts h =
    let (r, e) = has_prefix_sound addr (d ∷ p) h in beginning front (d ∷ p) r back fs bs starts e

core-Admits :
    (addr front core back : Bytes)
    → AreSpaces front
    → AreSpaces back
    → (core ≡ []) ⊎ (StartsBare core × EndsBare core)
    → meets addr (trimmed_pattern core) ≡ true
    → Admits addr (front ++ (core ++ back))
core-Admits addr front [] back fs bs bare h = cc
core-Admits addr front (d ∷ c) back fs bs (inl nothing) h = cc
core-Admits addr front (d ∷ c) back fs bs (inr (starts, ends)) h =
    elim (Option-cases (without_star (d ∷ c))) [
      | inl missing ↦
          let same : d ∷ c ≡ addr =
            (beq_iff (d ∷ c) addr).0
              (sym (ap (λ o. meets addr (leading_of (d ∷ c) o)) missing) ∙ h) in
          subst (λ t. Admits addr (front ++ (t ++ back))) (sym same)
            (exactly front back fs bs (subst StartsBare same starts) (subst EndsBare same ends)
              (λ p e. cc (missing, ap without_star (same ∙ e), without_star-append p)))
      | inr (p, found) ↦
          let e = without_star_sound (d ∷ c) p found in
          let meets_it : meets addr (leading_of (d ∷ c) (some p)) ≡ true =
            sym (ap (λ o. meets addr (leading_of (d ∷ c) o)) found) ∙ h in
          subst (λ t. Admits addr (front ++ (t ++ back))) (sym e)
            (starred-Admits addr front p back fs bs (subst StartsBare e starts)
              (subst (λ t. meets addr (leading_of t (some p)) ≡ true) e meets_it))
    ]

exact-meets :
    (addr : Bytes)
    → StartsBare addr
    → ((p : Bytes) → addr ≢ p ++ star)
    → meets addr (trimmed_pattern addr) ≡ true
exact-meets [] starts apart = absurd starts
exact-meets (d ∷ c) starts apart = elim (Option-cases (without_star (d ∷ c))) [
  | inl missing ↦ ap (λ o. meets (d ∷ c) (leading_of (d ∷ c) o)) missing ∙ beq_refl (d ∷ c)
  | inr (p, found) ↦ absurd (apart p (without_star_sound (d ∷ c) p found))
]

starred-meets : (p r : Bytes) → meets (p ++ r) (trimmed_pattern (p ++ star)) ≡ true
starred-meets [] r = unfold without_star in refl
starred-meets (d ∷ p) r =
    ap (λ o. meets (d ∷ (p ++ r)) (leading_of (d ∷ (p ++ star)) o)) (without_star-append (d ∷ p))
    ∙ has_prefix-append (d ∷ p) r

Admits-meets : (addr text : Bytes) → Admits addr text → meets addr (pattern_of text) ≡ true
unfolding pattern_of
Admits-meets addr _ (exactly front back fs bs starts ends apart) =
    ap (λ t. meets addr (trimmed_pattern t)) (trim_space_lem front addr back fs bs starts ends)
    ∙ exact-meets addr starts apart
Admits-meets addr _ (beginning front p r back fs bs starts e) =
    ap (λ t. meets addr (trimmed_pattern t))
      (trim_space_lem front (p ++ star) back fs bs starts (EndsBare-star p))
    ∙ ap (λ a. meets a (trimmed_pattern (p ++ star))) e
    ∙ starred-meets p r

meets-Admits : (addr text : Bytes) → meets addr (pattern_of text) ≡ true → Admits addr text
unfolding pattern_of
meets-Admits addr text h =
    let (front, back, fs, bs, e, bare) = trim_space_split text in
    subst (Admits addr) (sym e) (core-Admits addr front (trim_space text) back fs bs bare h)

-- One of the texts lets the address in.
abbrev pub AdmitsAny : Bytes → List Bytes → Type 0
AdmitsAny addr [] = ⊥
AdmitsAny addr (text ∷ texts) = Admits addr text ⊎ AdmitsAny addr texts

meets_any-AdmitsAny :
    (addr : Bytes) (texts : List Bytes) → (meets_any addr texts ≡ true) ↔ AdmitsAny addr texts
unfolding meets_any
meets_any-AdmitsAny addr [] = (λ h. cc, λ h. absurd h)
meets_any-AdmitsAny addr (text ∷ texts) =
    let (to, of) = meets_any-AdmitsAny addr texts in
    (
      λ h. elim (Bool-cases (meets addr (pattern_of text))) [
        | inl here ↦ inl (meets-Admits addr text here)
        | inr not_here ↦ inr (to (rw not_here at h))
      ],
      λ a. elim a [
        | inl here ↦ let e = Admits-meets addr text here in ground arith
        | inr later ↦ let e = of later in ground arith
      ],
    )

-- After Allow of a list of patterns that is not empty, its goroutine included, an address is let in
-- exactly if one of the patterns is the address with white space around it, and does not end in a star,
-- or is white space, a beginning of the address, a star and white space, or if the address was in the
-- list before, in force or not.
pub allow_iff :
    (addr text : Bytes) (texts : List Bytes) (w : IpWhitelist)
    → (is_allowed addr (settled_allow (allow (text ∷ texts) w)) ≡ true)
      ↔ (AdmitsAny addr (text ∷ texts) ⊎ (listed addr w ≡ true))
allow_iff addr text texts w =
    let (to, of) = meets_any-AdmitsAny addr (text ∷ texts) in
    let e = allow_lem addr text texts w in
    (
      λ h. elim (Bool-cases (meets_any addr (text ∷ texts))) [
        | inl met ↦ inl (to met)
        | inr unmet ↦ inr (rw unmet at (sym e ∙ h))
      ],
      λ a. elim a [
        | inl admitted ↦ let met = of admitted in e ∙ (rw met refl)
        | inr before ↦ let met = before in e ∙ (ground arith)
      ],
    )
