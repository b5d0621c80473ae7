-- ===== src/Log/File/Whole.antt =====
-- What stays whole of the log files from one record to the next.
use myrpc.Base.{
  Bytes, beq, beq_sound, List, [], ◌∷◌, ◌++◌, append_assoc, Option, none, some, ◌≡◌, ◌≢◌, refl, sym,
  ap, ◌∙◌, Bool-cases, inl, inr, All,
}
use myrpc.Log.File.{Files, put, FileBackend}
use myrpc.Log.File.Kept.{put_same, IsOpen, Kept, appended, archived}

-- The contents of files with names, oldest first.
abbrev pub join : List (Bytes × Bytes) → Bytes
join [] = []
join ((name, b) ∷ files) = b ++ join files

abbrev pub AreApart : List (Bytes × Bytes) → Type 0
AreApart [] = Unit
AreApart ((name, b) ∷ files) = All (λ a. name ≢ a.0) files × AreApart files

-- What records with the lines `text` leave of a backend that was open on the content `b`: the files that
-- were put aside, under names that were free and are all different, and what is in the file now.
pub record Whole (text b : Bytes) (w w' : FileBackend) : Type 0 where
  pub content : Bytes
  pub still : IsOpen content w'
  pub archives : List (Bytes × Bytes)
  pub in_order : join archives ++ content ≡ b ++ text
  pub there : All (λ a. w'.files a.0 ≡ some a.1) archives
  pub free : All (λ a. w.files a.0 ≡ none) archives
  pub apart : AreApart archives
  pub others : (f c : Bytes) → w.filename ≢ f → w.files f ≡ some c → w'.files f ≡ some c

put_free :
    (f c : Bytes) (files : Files) (g : Bytes) → put f (some c) files g ≡ none → files g ≡ none
unfolding put
put_free f c files g h = elim (Bool-cases (beq f g)) [
  | inl same ↦ cc (rw same at h)
  | inr other ↦ rw other at h
]

put_other :
    (f : Bytes) (b : Option Bytes) (files : Files) (g : Bytes) → f ≢ g → put f b files g ≡ files g
unfolding put
put_other f b files g apart = elim (Bool-cases (beq f g)) [
  | inl same ↦ absurd (apart (beq_sound f g same))
  | inr other ↦ rw other refl
]

map_All :
    (P Q : Bytes × Bytes → Type 0) (xs : List (Bytes × Bytes))
    → ((a : Bytes × Bytes) → P a → Q a)
    → All P xs
    → All Q xs
map_All P Q [] f h = tt
map_All P Q (x ∷ xs) f h = (f x h.0, map_All P Q xs f h.1)

-- A path with a file is not a path without one.
there_apart : (files : Files) (f g b : Bytes) → files f ≡ some b → files g ≡ none → f ≢ g
there_apart files f g b there gone same = cc (sym there ∙ ap files same ∙ gone)

appended-Whole :
    (b msg text : Bytes) (w w1 w' : FileBackend)
    → ((f : Bytes) → w1.files f ≡ put w.filename (some (b ++ msg)) w.files f)
    → w1.filename ≡ w.filename
    → Whole text (b ++ msg) w1 w'
    → Whole (msg ++ text) b w w'
appended-Whole b msg text w w1 w' same name h = record {
  content = h.content;
  still = h.still;
  archives = h.archives;
  in_order = h.in_order ∙ append_assoc b msg text;
  there = h.there;
  free =
      map_All (λ a. w1.files a.0 ≡ none) (λ a. w.files a.0 ≡ none) h.archives
        (λ a k. put_free w.filename (b ++ msg) w.files a.0 (sym (same a.0) ∙ k)) h.free;
  apart = h.apart;
  others = λ f c apart there.
      h.others f c (λ e. apart (sym name ∙ e))
        (same f ∙ put_other w.filename (some (b ++ msg)) w.files f apart ∙ there);
}

archived-Whole :
    (b msg text : Bytes) (w w1 w' : FileBackend) (name : Bytes)
    → w.files w.filename ≡ some b
    → w.files name ≡ none
    → ((f : Bytes) → w1.files f ≡ put w.filename (some msg) (put name (some b) w.files) f)
    → w1.filename ≡ w.filename
    → Whole text msg w1 w'
    → Whole (msg ++ text) b w w'
archived-Whole b msg text w w1 w' name file gone same kept_name h =
    let moved = put name (some b) w.files in
    let apart = there_apart w.files w.filename name b file gone in
    let aside : w1.files name ≡ some b =
      same name
      ∙ put_other w.filename (some msg) moved name apart
      ∙ put_same name (some b) w.files in
    record {
      content = h.content;
      still = h.still;
      archives = (name, b) ∷ h.archives;
      in_order = append_assoc b (join h.archives) h.content ∙ ap (λ s. b ++ s) h.in_order;
      there = (h.others name b (λ e. apart (sym kept_name ∙ e)) aside, h.there);
      free = (
        gone,
        map_All (λ a. w1.files a.0 ≡ none) (λ a. w.files a.0 ≡ none) h.archives
            (λ a k.
              put_free name b w.files a.0 (put_free w.filename msg moved a.0 (sym (same a.0) ∙ k)))
            h.free,
      );
      apart = (
        map_All (λ a. w1.files a.0 ≡ none) (λ a. name ≢ a.0) h.archives
            (λ a k. there_apart w1.files name a.0 b aside k) h.free,
        h.apart,
      );
      others = λ f c off there.
          let off_name : name ≢ f = λ e. there_apart w.files f name c there gone (sym e) in
          h.others f c (λ e. off (sym kept_name ∙ e))
            (same f
              ∙ put_other w.filename (some msg) moved f off
              ∙ put_other name (some b) w.files f off_name
              ∙ there);
    }

pub Kept-Whole :
    (b msg text content : Bytes) (w w1 w' : FileBackend)
    → w.files w.filename ≡ some b
    → w1.filename ≡ w.filename
    → Kept w b msg w1 content
    → Whole text content w1 w'
    → Whole (msg ++ text) b w w'
Kept-Whole b msg text _ w w1 w' file name (appended same) h =
    appended-Whole b msg text w w1 w' same name h
Kept-Whole b msg text _ w w1 w' file name (archived n gone same) h =
    archived-Whole b msg text w w1 w' n file gone same name h

pub spared-Whole :
    (b text : Bytes) (w w1 w' : FileBackend)
    → ((f : Bytes) → w1.files f ≡ w.files f)
    → w1.filename ≡ w.filename
    → Whole text b w1 w'
    → Whole text b w w'
spared-Whole b text w w1 w' same name h = record {
  content = h.content;
  still = h.still;
  archives = h.archives;
  in_order = h.in_order;
  there = h.there;
  free =
      map_All (λ a. w1.files a.0 ≡ none) (λ a. w.files a.0 ≡ none) h.archives
        (λ a k. sym (same a.0) ∙ k) h.free;
  apart = h.apart;
  others = λ f c apart there. h.others f c (λ e. apart (sym name ∙ e)) (same f ∙ there);
}
