-- ===== src/Plugin/Container/Laws.antt =====
-- Add, Remove and GetByName of a container.
use myrpc.Common.Errors.{Error}
use myrpc.Base.{
  ℕ, zero, suc, Bytes, beq, beq_iff, is_empty, List, [], ◌∷◌, ◌++◌, Option, none, some, false, not,
  ◌&&◌, is_some, ◌≡◌, refl, sym, ap, ◌∙◌, arith, map, append_assoc, map-append, Bool-cases,
  Option-cases, inl, inr, append-nil,
}
use myrpc.Plugin.Container.{
  elements, find_name, get_by_name, add_each, add, index_of, remove_at, remove_found, remove,
}

module _ {ℓ} {P : Type ℓ} (name : P → Bytes) where
  -- No two plugins share a name, but for those without one.
  abbrev pub Named : List P → Type ℓ
  Named [] = Unit
  Named (p ∷ ps) = ((is_empty (name p) ≡ false) → find_name name (name p) ps ≡ none) × Named ps

  find_name-snoc :
      (n : Bytes) (ps : List P) (p : P)
      → find_name name n ps ≡ none
      → beq (name p) n ≡ false
      → find_name name n (ps ++ p ∷ []) ≡ none
  unfolding find_name
  find_name-snoc n [] p h e = rw e
  find_name-snoc n (q ∷ ps) p h e = ground (arith, find_name-snoc n ps p)

  find_name-cons :
      (n : Bytes) (q : P) (ps : List P)
      → find_name name n (q ∷ ps) ≡ none
      → (beq (name q) n ≡ false) × (find_name name n ps ≡ none)
  unfolding find_name
  find_name-cons n q ps h = ground arith

  Named-snoc :
      (ps : List P) (p : P)
      → Named ps
      → ((is_empty (name p) ≡ false) → find_name name (name p) ps ≡ none)
      → Named (ps ++ p ∷ [])
  Named-snoc [] p h f = ((λ _. unfold find_name in refl), tt)
  Named-snoc (q ∷ ps) p h f = (
    (λ e. find_name-snoc (name q) ps p (h.0 e) (elim (Bool-cases (beq (name p) (name q))) [
      | inl same ↦
          let eq = (beq_iff (name p) (name q)).0 same in
          let other = (find_name-cons (name p) q ps (f (rw eq e))).0 in
          absurd (ground (arith, beq_iff (name q) (name p)))
      | inr differ ↦ differ
    ])),
    Named-snoc ps p h.1 (λ e. (find_name-cons (name p) q ps (f e)).1),
  )

  -- What the test of `Add` lets through.
  admitted :
      (ps : List P) (p : P)
      → (not (is_empty (name p)) && is_some (find_name name (name p) ps)) ≡ false
      → is_empty (name p) ≡ false
      → find_name name (name p) ps ≡ none
  admitted ps p h e = elim (Option-cases (find_name name (name p) ps)) [
    | inl missing ↦ missing
    | inr (_, found) ↦ cc (rw (e, found) at h)
  ]

  add_each-Named :
      (ps : List P) (plugins : List (Option P)) → Named ps → Named (add_each name ps plugins).0
  unfolding add_each get_by_name
  add_each-Named ps [] h = h
  add_each-Named ps (none ∷ _) h = h
  add_each-Named ps (some p ∷ rest) h =
      elim (Bool-cases (not (is_empty (name p)) && is_some (find_name name (name p) ps))) [
        | inl taken ↦ rw taken h
        | inr free ↦
            rw free (add_each-Named (ps ++ p ∷ []) rest (Named-snoc ps p h (admitted ps p free)))
      ]

  -- What Add makes of the plugins `ps` with the new ones `plugins`: `qs`, with its error.
  abbrev pub Extends : List P → List (Option P) → List P → Option Error → Type ℓ
  Extends ps plugins qs none = map some qs ≡ map some ps ++ plugins
  Extends ps plugins qs (some e) =
      (rest : List (Option P)) × (map some qs ++ rest ≡ map some ps ++ plugins)

  Extends-snoc :
      (ps : List P) (p : P) (rest : List (Option P)) (qs : List P) (err : Option Error)
      → Extends (ps ++ p ∷ []) rest qs err
      → Extends ps (some p ∷ rest) qs err
  Extends-snoc ps p rest qs none h = h ∙ (simp (map-append, append_assoc))
  Extends-snoc ps p rest qs (some e) (left, h) = (left, h ∙ (simp (map-append, append_assoc)))

  add_each-Extends :
      (ps : List P) (plugins : List (Option P))
      → Extends ps plugins (add_each name ps plugins).0 (add_each name ps plugins).1
  unfolding add_each get_by_name
  add_each-Extends ps [] = sym (append-nil _)
  add_each-Extends ps (none ∷ rest) = (none ∷ rest, refl)
  add_each-Extends ps (some p ∷ rest) =
      elim (Bool-cases (not (is_empty (name p)) && is_some (find_name name (name p) ps))) [
        | inl taken ↦ rw taken (some p ∷ rest, refl)
        | inr free ↦ rw free (
            Extends-snoc ps p rest (add_each name (ps ++ p ∷ []) rest).0
              (add_each name (ps ++ p ∷ []) rest).1 (add_each-Extends (ps ++ p ∷ []) rest))
      ]

  -- On a container whose names are distinct, empty ones apart: Add keeps them so, also where it
  -- stops half way with an error; where it reports none, the container holds the old plugins and
  -- then the new ones, in order, and with an error the old ones and then a beginning of the new ones.
  pub add_lem :
      (c : Option (List P)) (plugins : List (Option P))
      → Named (elements c)
      → Named (elements (add name c plugins).0)
        × Extends (elements c) plugins (elements (add name c plugins).0) (add name c plugins).1
  unfolding add
  add_lem c plugins h =
      (add_each-Named (elements c) plugins h, add_each-Extends (elements c) plugins)

  index_of-snoc :
      (n : Bytes) (ps : List P) (p : P)
      → find_name name n ps ≡ none
      → name p ≡ n
      → (i : ℕ) × (index_of name n (ps ++ p ∷ []) ≡ some i) × (remove_at name i (ps ++ p ∷ []) ≡ ps)
  unfolding index_of find_name remove_at
  index_of-snoc n [] p h e = (zero, ground (arith, beq_iff (name p) n), refl)
  index_of-snoc n (q ∷ ps) p h e =
      let (differ, rest) = find_name-cons n q ps h in
      let (i, found, gone) = index_of-snoc n ps p rest e in
      (suc i, rw (differ, found), ap (◌∷◌ q) gone)

  -- For a plugin with a name that is not empty and that no plugin of the container has: Add takes
  -- it without an error, and Remove of its name then gives the container before, without an error.
  pub remove-add :
      (ps : List P) (p : P)
      → is_empty (name p) ≡ false
      → find_name name (name p) ps ≡ none
      → ((add name (some ps) (some p ∷ [])).1 ≡ none)
        × (remove name (add name (some ps) (some p ∷ [])).0 (name p) ≡ (some ps, none))
  unfolding add add_each get_by_name remove remove_found
  remove-add ps p e f =
      let (i, found, gone) = index_of-snoc (name p) ps p f refl in
      (rw (e, f), rw (e, f, found, gone))

  find_name-index_of :
      (n : Bytes) (ps : List P) → find_name name n ps ≡ none → index_of name n ps ≡ none
  unfolding index_of find_name
  find_name-index_of n [] h = refl
  find_name-index_of n (q ∷ ps) h =
      let (differ, rest) = find_name-cons n q ps h in rw (differ, find_name-index_of n ps rest)

  index_of-cons :
      (n : Bytes) (q : P) (ps : List P) (i : ℕ)
      → beq (name q) n ≡ false
      → index_of name n (q ∷ ps) ≡ some i
      → (j : ℕ) × (index_of name n ps ≡ some j) × (i ≡ suc j)
  unfolding index_of
  index_of-cons n q ps i differ h = ground arith

  -- What is left after a removal has no plugin of that name.
  find_name-remove_at :
      (n : Bytes) (ps : List P) (i : ℕ)
      → is_empty n ≡ false
      → Named ps
      → index_of name n ps ≡ some i
      → find_name name n (remove_at name i ps) ≡ none
  unfolding index_of find_name remove_at
  find_name-remove_at n [] i e h found = cc
  find_name-remove_at n (q ∷ ps) i e h found = elim (Bool-cases (beq (name q) n)) [
    | inl same ↦
        let eq = (beq_iff (name q) n).0 same in
        let first : i ≡ zero = ground arith in rw first (rw eq at (h.0 (rw eq e)))
    | inr differ ↦
        let (j, there, next) = index_of-cons n q ps i differ found in
        rw (next, differ) (find_name-remove_at n ps j e h.1 there)
  ]

  -- What Remove of `n` leaves of the plugins `ps`, with its error.
  abbrev pub Removed : Bytes → List P → Option (List P) × Option Error → Type ℓ
  Removed n ps (c, none) = get_by_name name c n ≡ none
  Removed n ps (c, some e) = c ≡ some ps

  -- On a container whose names are distinct, empty ones apart: where Remove reports no error,
  -- GetByName no longer finds the name; where it reports one, the container is as it was.
  pub remove_lem : (ps : List P) (n : Bytes) → Named ps → Removed n ps (remove name (some ps) n)
  unfolding remove remove_found get_by_name
  remove_lem ps n h = elim (Bool-cases (is_empty n)) [
    | inl empty ↦ rw empty refl
    | inr named ↦ elim (Option-cases (index_of name n ps)) [
      | inl missing ↦ rw (named, missing) refl
      | inr (i, found) ↦ rw (named, found) (find_name-remove_at n ps i named h found)
    ]
  ]
