-- ===== src/Common/Trace.antt =====
-- common/utils.go: PanicTrace, from the text that runtime.Stack gives.
pub mod Parts
pub mod Excerpt
mod Tests
use myrpc.Base.{
  ℕ, Bytes, codes, has_prefix, List, [], ◌∷◌, ◌++◌, Option, none, some, Bool, true, false, ◌||◌,
  ◌==◌, if◌then◌else◌,
}

-- The text from the first place on where it has `sep`: `s[bytes.Index(s, sep):]`, or none.
unfoldable pub from : Bytes → Bytes → Option Bytes
from sep [] = if has_prefix [] sep then some [] else none
from sep (c ∷ s) = let later = from sep s in if has_prefix (c ∷ s) sep then some (c ∷ s) else later

-- The text before that place, or all of it.
unfoldable pub before : Bytes → Bytes → Bytes
before sep [] = []
before sep (c ∷ s) = let later = before sep s in if has_prefix (c ∷ s) sep then [] else c ∷ later

-- The text behind the first newline; all of it where there is none, as `bytes.Index` is -1 then.
abbrev pub has_newline : Bytes → Bool
has_newline [] = false
has_newline (c ∷ s) = c == 10 || has_newline s

abbrev pub behind_line : Bytes → Bytes
behind_line [] = []
behind_line (c ∷ s) =
    let later = behind_line s in if c == 10 then s else if has_newline s then later else c ∷ s

-- The text before the last newline, or all of it.
abbrev pub before_last_line : Bytes → Bytes
before_last_line [] = []
before_last_line (c ∷ s) =
    let later = before_last_line s in
    if has_newline s then c ∷ later else if c == 10 then [] else c ∷ s

-- `bytes.TrimRight(s, "\n")`; `keep c s` puts `c` in front of what is left of the bytes behind it.
abbrev pub keep : ℕ → Bytes → Bytes
keep c [] = if c == 10 then [] else c ∷ []
keep c (d ∷ s) = c ∷ d ∷ s

abbrev pub trim_newlines : Bytes → Bytes
trim_newlines [] = []
trim_newlines (c ∷ s) = keep c (trim_newlines s)

abbrev pub marker : Bytes
marker = codes "/src/runtime/panic.go"

abbrev pub goroutine : Bytes
goroutine = 10 ∷ codes "goroutine "

abbrev pub excerpt : Bytes → Bytes
excerpt s = trim_newlines (before goroutine (before_last_line (behind_line s)))

-- `PanicTrace`; a stack without the marker is sliced from -1, which panics.
unfoldable pub panic_trace : Bytes → Option Bytes
unfolding from before
panic_trace stack = elim (from marker stack) [ none ↦ none | some s ↦ some (excerpt s) ]
