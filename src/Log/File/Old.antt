-- ===== src/Log/File/Old.antt =====
-- The deletion of old log files.
use myrpc.Base.{
  ℕ, ◌+◌, ◌*◌, Bytes, [], ◌∷◌, ◌++◌, Option, none, Bool, true, false, ◌&&◌, ltb, if◌then◌else◌,
  has_prefix, has_prefix_sound, ◌≡◌, refl, ap, ◌∙◌, arith, Bool-cases, inl, inr,
}
use myrpc.Log.File.Names.{has_slash, base_name, has_suffix}
use myrpc.Log.File.{FileBackend, delete_old_log}

base_name-has_slash : (p : Bytes) → has_slash (base_name p) ≡ false
base_name-has_slash [] = refl
base_name-has_slash (c ∷ s) = elim (Bool-cases (has_slash (c ∷ s))) [
  | inl deep ↦ elim (Bool-cases (has_slash s)) [
    | inl deeper ↦ rw (deep, deeper) (base_name-has_slash s)
    | inr last ↦ rw (deep, last) last
  ]
  | inr flat ↦ rw flat flat
]

has_slash-append : (p r : Bytes) → has_slash p ≡ true → has_slash (p ++ r) ≡ true
has_slash-append [] r h = cc
has_slash-append (c ∷ p) r h = ground (arith, has_slash-append p r)

-- The last part of a path does not begin with something that has a slash.
base_name-has_prefix : (path p : Bytes) → has_slash p ≡ true → has_prefix (base_name path) p ≡ false
base_name-has_prefix path p h = elim (Bool-cases (has_prefix (base_name path) p)) [
  | inl begins ↦
      let (r, e) = has_prefix_sound (base_name path) p begins in
      cc (base_name-has_slash path, ap has_slash e, has_slash-append p r h)
  | inr other ↦ other
]

kept_unless : (a b d : Bool) (o : Option Bytes) → (if a && b && false && d then none else o) ≡ o
kept_unless true true d o = refl
kept_unless true false d o = refl
kept_unless false b d o = refl

-- For a log file whose name has a directory, `deleteOldLog` deletes nothing, however old: it compares the
-- last part of each path with the name of the log and its directory.
pub delete_old_log_keeps :
    (now : ℕ) (walked : Bytes → Bool) (modified : Bytes → ℕ) (w : FileBackend)
    → has_slash w.file_name_only ≡ true
    → (path : Bytes) → (delete_old_log now walked modified w).files path ≡ w.files path
unfolding delete_old_log
delete_old_log_keeps now walked modified w deep path =
    let old = ltb (modified path + 60 * 60 * 24 * w.max_days) now in
    ap
      (λ begins.
        if walked path && old && begins && has_suffix (base_name path) w.suffix
        then none
        else w.files path)
      (base_name-has_prefix path w.file_name_only deep)
    ∙ kept_unless (walked path) old (has_suffix (base_name path) w.suffix) (w.files path)
