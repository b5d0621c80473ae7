-- ===== src/Log/File/Names.antt =====
-- The parts of a path: filepath.Ext and filepath.Base, and strings.TrimSuffix and HasSuffix.
use myrpc.Base.{
  ◌-◌, Bytes, beq, [], ◌∷◌, Bool, false, ◌||◌, ◌==◌, leb, if◌then◌else◌, length, take, drop, ◌&&◌,
}

-- A dot or a slash is among the bytes.
abbrev pub has_break : Bytes → Bool
has_break [] = false
has_break (c ∷ s) = c == 46 || (c == 47 || has_break s)

-- `filepath.Ext`: from the last dot on, if no slash comes behind it.
abbrev pub ext : Bytes → Bytes
ext [] = []
ext (c ∷ s) = let later = ext s in if has_break s then later else if c == 46 then c ∷ s else []

abbrev pub has_slash : Bytes → Bool
has_slash [] = false
has_slash (c ∷ s) = c == 47 || has_slash s

-- `filepath.Base` of the path of a file: what is behind the last slash.
abbrev pub base_name : Bytes → Bytes
base_name [] = []
base_name (c ∷ s) =
    let later = base_name s in
    if has_slash (c ∷ s) then (if has_slash s then later else s) else c ∷ s

-- `strings.HasSuffix`.
abbrev pub has_suffix : Bytes → Bytes → Bool
has_suffix s t = leb (length t) (length s) && beq (drop (length s - length t) s) t

-- `strings.TrimSuffix`.
abbrev pub trim_suffix : Bytes → Bytes → Bytes
trim_suffix s t = if has_suffix s t then take (length s - length t) s else s
