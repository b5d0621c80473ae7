-- ===== src/Server/Methods/Paths.antt =====
-- The paths under which a receiver's methods are served.
use myrpc.Base.{
  ℕ, suc, ◌≤◌, zero, Bytes, List, [], ◌∷◌, ◌++◌, length, take, map, ◌≡◌, refl, sym, ap, ◌∙◌, arith,
  map-append, length-take, inl, inr,
}
use mathlib.Core.Path.{ap₂}
use myrpc.Common.Names.{snake_string}
use myrpc.Common.Names.Snake.{snake_string_idempotent}
use myrpc.Server.Slices.{Slice, Heap, elements, IsWithin, append, map_in_place}
use myrpc.Server.Slices.Laws.{
  append_lem, append_place, map_in_place_lem, map_in_place_other, length-map_lem, take_front,
}
use myrpc.Server.Uri.{Urls, uri_of, uri_encode}
use myrpc.Server.Methods.{Method, NormService, suitable_methods, new_each, new_services}

abbrev pub spelled : List Bytes → List Bytes
spelled = map snake_string

pub spelled_twice : (xs : List Bytes) → spelled (spelled xs) ≡ spelled xs
spelled_twice [] = refl
spelled_twice (x ∷ xs) = rw (snake_string_idempotent x, spelled_twice xs) refl

take_shorter : (n m : ℕ) (xs : List Bytes) → n ≤ m → take n xs ≡ take n (take m xs)
take_shorter zero m xs le = refl
take_shorter (suc n) zero xs le = absurd (omega arith)
take_shorter (suc n) (suc m) [] le = refl
take_shorter (suc n) (suc m) (x ∷ xs) le = ap (◌∷◌ x) (take_shorter n m xs (omega arith))

module _ (grow : ℕ → ℕ → ℕ) (s : Slice) (xs : List Bytes) (h : Heap) where
  -- The heap after the segments and what is put behind them were spelled.
  abbrev pub respelled : Heap
  respelled = map_in_place snake_string (append grow s xs h).0 (append grow s xs h).1

  pub respelled-elements :
      IsWithin h s → elements respelled (append grow s xs h).0 ≡ spelled (elements h s ++ xs)
  respelled-elements within =
      let (held, fits) = append_lem grow s xs h within in
      let (spelt, _) =
        map_in_place_lem snake_string (append grow s xs h).0 (append grow s xs h).1 fits in
      spelt ∙ ap spelled held

  -- The segments themselves are as before, or they were spelled.
  pub respelled_segments :
      IsWithin h s
      → (spelled (elements respelled s) ≡ spelled (elements h s)) × IsWithin respelled s
  unfolding map_in_place
  respelled_segments within =
      let s' = (append grow s xs h).0 in
      let h' = (append grow s xs h).1 in
      let (held, fits) = append_lem grow s xs h within in
      let (spelt, fits') = map_in_place_lem snake_string s' h' fits in
      elim (append_place grow s xs h) [
        | inl (same, longer, next) ↦
            let there = ap respelled.arrays (sym same) in
            let front =
              ap (take s.len) there
              ∙ take_shorter s.len s'.len (respelled.arrays s'.array) longer
              ∙ ap (take s.len)
                  (respelled-elements within ∙ map-append snake_string (elements h s) xs)
              ∙ take_front s.len (spelled (elements h s)) (spelled xs) (
                  length-map_lem snake_string (elements h s)
                  ∙ length-take s.len (h.arrays s.array) within.0) in
            (
              ap spelled front ∙ spelled_twice (elements h s),
              (omega (arith, ap length there, longer, fits'.0), omega (arith, next, within.1)),
            )
        | inr (fresh, others, next) ↦
            let there : respelled.arrays s.array ≡ h.arrays s.array =
              map_in_place_other snake_string s' h' s.array
                (λ e. absurd (omega (arith, fresh, e, within.1)))
              ∙ others s.array (λ e. absurd (omega (arith, e, within.1))) in
            (
              ap (λ a. spelled (take s.len a)) there,
              (omega (arith, ap length there, within.0), omega (arith, next, within.1)),
            )
      ]

-- The path of a service whose segments are given.
abbrev pub path_under : Urls → List Bytes → NormService → Bytes
path_under urls segments v = uri_of urls [] (spelled (segments ++ v.method ∷ []))

pub spelled_alike :
    (xs ys : List Bytes) (m : Bytes)
    → spelled xs ≡ spelled ys
    → spelled (xs ++ m ∷ []) ≡ spelled (ys ++ m ∷ [])
spelled_alike xs ys m e =
    map-append snake_string xs (m ∷ [])
    ∙ ap (λ zs. zs ++ snake_string m ∷ []) e
    ∙ sym (map-append snake_string ys (m ∷ []))

module _ (grow : ℕ → ℕ → ℕ) (urls : Urls) where
  pub new_each-paths :
      (vs : List NormService) (names : List Bytes) (s : Slice) (h : Heap)
      → IsWithin h s
      → spelled (elements h s) ≡ spelled names
      → map (λ v. v.path) (new_each grow urls vs s h).0 ≡ map (path_under urls names) vs
  unfolding new_each uri_encode
  new_each-paths [] names s h within alike = refl
  new_each-paths (v ∷ vs) names s h within alike =
      let h'' = respelled grow s (v.method ∷ []) h in
      let (kept, within') = respelled_segments grow s (v.method ∷ []) h within in
      ap₂ (λ a b. a ∷ b)
        (ap (uri_of urls []) (
          respelled-elements grow s (v.method ∷ []) h within
          ∙ spelled_alike (elements h s) names v.method alike))
        (new_each-paths vs names s h'' within' (kept ∙ alike))

-- Whatever spare places the array of the segments has, NewServices gives each method that is served
-- the path of the segments and its own name, all spelled by SnakeString, although it spells them in
-- that array and may put one name after the other into one place of it.
pub new_services_paths :
    (grow : ℕ → ℕ → ℕ) (urls : Urls) (ms : List Method) (s : Slice) (h : Heap)
    → IsWithin h s
    → map (λ v. v.path) (new_services grow urls ms s h).0
      ≡ map (path_under urls (elements h s)) (suitable_methods ms)
unfolding new_services
new_services_paths grow urls ms s h within =
    new_each-paths grow urls (suitable_methods ms) (elements h s) s h within refl
