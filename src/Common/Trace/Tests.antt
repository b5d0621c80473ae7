-- ===== src/Common/Trace/Tests.antt =====
-- The stack of a goroutine that panicked, and of another one.
use myrpc.Base.{Bytes, codes, has_prefix, ◌∷◌, ◌++◌, none, some, ◌≡◌, ◌⊎◌, refl}
use myrpc.Common.Trace.{from, before, marker, panic_trace}
use myrpc.Common.Trace.Parts.{IsAbsent}
use myrpc.Common.Trace.Excerpt.{IsExcerpt, panic_trace-IsExcerpt}

abbrev frames : Bytes
frames = codes "main.f()" ++ (10 ∷ codes " main.go:9")

abbrev stack : Bytes
stack =
    codes " /src/runtime/panic.go:491"
    ++ (10 ∷ (frames ++ (10 ∷ 10 ∷ (codes "goroutine 7" ++ (10 ∷ codes "main.g()")))))

trace_test : panic_trace stack ≡ some frames
unfolding panic_trace from before has_prefix
trace_test = refl

panic_trace-IsExcerpt_example :
    (IsAbsent marker stack × (panic_trace stack ≡ none))
    ⊎ ((t : Bytes) × (panic_trace stack ≡ some t) × IsExcerpt stack t)
panic_trace-IsExcerpt_example = panic_trace-IsExcerpt stack
