-- ===== src/Server/Register/Groups.antt =====
-- The prefixes of groups, which share their arrays.
use myrpc.Base.{
  ℕ, ◌+◌, ◌≤◌, ◌<◌, Bytes, List, [], ◌∷◌, ◌++◌, Option, none, some, ◌≡◌, sym, ap, ◌∙◌, take, subst,
  arith, inl, inr, Option-cases,
}
use mathlib.Core.Path.{ap₂}
use myrpc.Common.Errors.{Error}
use myrpc.Common.Names.{check_sname, snake_string}
use myrpc.Server.Context.{Plugin}
use myrpc.Server.Slices.{Slice, Heap, elements, capacity, append, zeros}
use myrpc.Server.Slices.Laws.{
  append_fits, append_grows, append_lem, map_in_place_lem, map_in_place_other, update-other,
}
use myrpc.Server.Uri.{Urls, uri_encode}
use myrpc.Server.Methods.Paths.{
  spelled, spelled_alike, respelled, respelled-elements, respelled_segments,
}
use myrpc.Server.Register.{Outcome, done, fatal, ServiceGroup, group_container, group_made, group}

module _ (grow : ℕ → ℕ → ℕ) (urls : Urls) where
  made_done :
      (s : Slice) (c : Option (List Plugin) × Option Error) (h h' : Heap) (prefix : Bytes)
      (g' : ServiceGroup)
      → group_made grow urls s c h prefix ≡ done (g', h')
      → (g'.prefixes ≡ (append grow s (prefix ∷ []) h).0) × (h' ≡ respelled grow s (prefix ∷ []) h)
  unfolding uri_encode
  made_done s (c, some e) h h' prefix g' made = cc
  made_done s (c, none) h h' prefix g' made =
      (ap (λ o. (group_or o).0.prefixes) (sym made), ap (λ o. (group_or o).1) (sym made))
    where
      group_or : Outcome (ServiceGroup × Heap) → ServiceGroup × Heap
      group_or (done x) = x
      group_or (fatal _) = (g', h')

  -- Where the prefixes of a group that was made stand, and what has become of the arrays.
  group_done :
      (g : ServiceGroup) (prefix : Bytes) (plugins : List (Option Plugin)) (h h' : Heap)
      (g' : ServiceGroup)
      → group grow urls g prefix plugins h ≡ done (g', h')
      → (g'.prefixes ≡ (append grow g.prefixes (prefix ∷ []) h).0)
        × (h' ≡ respelled grow g.prefixes (prefix ∷ []) h)
  unfolding group
  group_done g prefix plugins h h' g' made = elim (Option-cases (check_sname prefix)) [
    | inl passed ↦
        made_done g.prefixes (group_container grow urls g.container plugins) h h' prefix g'
          (rw (group, passed) at made)
    | inr (e, refused) ↦ cc (rw (group, refused) at made)
  ]

-- Group of a group whose prefixes fill their array makes a group with these prefixes and the new one,
-- all spelled by SnakeString, and changes the prefixes of no group that there was.
pub group_full :
    (grow : ℕ → ℕ → ℕ) (urls : Urls) (g g' : ServiceGroup) (prefix : Bytes)
    (plugins : List (Option Plugin)) (h h' : Heap) (other : ServiceGroup)
    → g.prefixes.len ≡ capacity h g.prefixes
    → g.prefixes.array < h.next
    → other.prefixes.array < h.next
    → group grow urls g prefix plugins h ≡ done (g', h')
    → (elements h' g'.prefixes ≡ spelled (elements h g.prefixes ++ prefix ∷ []))
      × (elements h' other.prefixes ≡ elements h other.prefixes)
group_full grow urls g g' prefix plugins h h' other full known known_other made =
    let s = g.prefixes in
    let (here, now) = group_done grow urls g prefix plugins h h' g' made in
    let grown = append_grows grow s (prefix ∷ []) h (omega (arith, full)) in
    let s' = (append grow s (prefix ∷ []) h).0 in
    let h1 = (append grow s (prefix ∷ []) h).1 in
    let fresh : s'.array ≡ h.next = ap (λ x. x.0.array) grown in
    let kept =
      map_in_place_other snake_string s' h1 other.prefixes.array
        (λ e. absurd (omega (arith, fresh, e, known_other)))
      ∙ ap (λ x. x.1.arrays other.prefixes.array) grown
      ∙ update-other h.arrays h.next other.prefixes.array
          (elements h s ++ prefix ∷ [] ++ zeros (grow (capacity h s) (s.len + 1)))
          (λ e. absurd (omega (arith, e, known_other))) in
    (
      ap (λ t. elements h' t) here
          ∙ ap (λ k. elements k s') now
          ∙ respelled-elements grow s (prefix ∷ []) h (omega (arith, full), known),
      ap (λ k. elements k other.prefixes) now ∙ ap (take other.prefixes.len) kept,
    )

-- Two groups that are made one after the other from a group whose array has a place left share that
-- place: their prefixes are one slice, which holds the name of the second.
pub group_shared :
    (grow : ℕ → ℕ → ℕ) (urls : Urls) (g g1 g2 : ServiceGroup) (first second : Bytes)
    (plugins more : List (Option Plugin)) (h h1 h2 : Heap)
    → g.prefixes.len < capacity h g.prefixes
    → g.prefixes.array < h.next
    → group grow urls g first plugins h ≡ done (g1, h1)
    → group grow urls g second more h1 ≡ done (g2, h2)
    → (g1.prefixes ≡ g2.prefixes)
      × (elements h2 g1.prefixes ≡ spelled (elements h g.prefixes ++ second ∷ []))
group_shared grow urls g g1 g2 first second plugins more h h1 h2 room known made1 made2 =
    let s = g.prefixes in
    let (here1, now1) = group_done grow urls g first plugins h h1 g1 made1 in
    let (here2, now2) = group_done grow urls g second more h1 h2 g2 made2 in
    let s' : Slice = record s { len = s.len + 1 } in
    let spelt = respelled grow s (first ∷ []) h in
    let first_here = ap (λ x. x.0) (append_fits grow s (first ∷ []) h (omega (arith, room))) in
    let (same, within) = respelled_segments grow s (first ∷ []) h (omega (arith, room), known) in
    let fits =
      map_in_place_lem snake_string (append grow s (first ∷ []) h).0
        (append grow s (first ∷ []) h).1
        (append_lem grow s (first ∷ []) h (omega (arith, room), known)).1 in
    let left : s.len + 1 ≤ capacity spelt s =
      subst (λ t. t.len ≤ capacity spelt t) first_here fits.1.0 in
    let second_here = ap (λ x. x.0) (append_fits grow s (second ∷ []) spelt left) in
    let again = respelled-elements grow s (second ∷ []) spelt within in
    let shared : g1.prefixes ≡ g2.prefixes =
      here1
      ∙ first_here
      ∙ sym (here2 ∙ ap (λ k. (append grow s (second ∷ []) k).0) now1 ∙ second_here) in
    (
      shared,
      ap₂ (λ t k. elements k t) (shared ∙ here2) now2
          ∙ ap (λ k. elements (respelled grow s (second ∷ []) k) (append grow s (second ∷ []) k).0)
              now1
          ∙ again
          ∙ spelled_alike (elements spelt s) (elements h s) second same,
    )
