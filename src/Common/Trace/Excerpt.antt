-- ===== src/Common/Trace/Excerpt.antt =====
-- What PanicTrace takes of a stack.
use myrpc.Base.{ℕ, Bytes, codes, ◌++◌, none, some, ◌≡◌, ap, Option-cases, inl, inr, ◌⊎◌}
use myrpc.Common.Trace.{
  from, before, behind_line, before_last_line, marker, goroutine, excerpt, panic_trace,
}
use myrpc.Common.Trace.Parts.{
  IsAbsent, IsFirst, Skips, CutsLast, CutsAt, newlines, EndsBare, from-IsAbsent, from-IsFirst,
  behind_line-Skips, before_last_line-CutsLast, from-before, before_place, trim_newlines_lem,
}

-- `t` is what is to be reported of `stack`.
pub record IsExcerpt (stack t : Bytes) : Type 0 where
  pub from_marker : Bytes
  pub behind : Bytes
  pub cut : Bytes
  pub own : Bytes
  pub trailing : ℕ
  pub found : IsFirst marker stack from_marker
  pub skips : Skips from_marker behind
  pub cuts_last : CutsLast behind cut
  pub cuts_other : CutsAt goroutine cut own
  pub trims : own ≡ t ++ newlines trailing
  pub bare : EndsBare t

-- PanicTrace panics exactly on a stack in which "/src/runtime/panic.go" stands nowhere. Otherwise it gives
-- what follows the line of the first such place, without the last newline and what follows it, up to
-- the first beginning of another goroutine, and without the newlines at its end.
pub panic_trace-IsExcerpt :
    (stack : Bytes)
    → (IsAbsent marker stack × (panic_trace stack ≡ none))
      ⊎ ((t : Bytes) × (panic_trace stack ≡ some t) × IsExcerpt stack t)
unfolding panic_trace
panic_trace-IsExcerpt stack = elim (Option-cases (from marker stack)) [
  | inl absent ↦ inl (
    from-IsAbsent marker stack absent,
    ap (λ o. elim o [ none ↦ none | some s ↦ some (excerpt s) ]) absent,
  )
  | inr (s, found) ↦
      let cut = before_last_line (behind_line s) in
      let ((n, trims), bare) = trim_newlines_lem (before goroutine cut) in
      inr (
        excerpt s,
        ap (λ o. elim o [ none ↦ none | some s ↦ some (excerpt s) ]) found,
        record {
          from_marker = s;
          behind = behind_line s;
          cut = cut;
          own = before goroutine cut;
          trailing = n;
          found = from-IsFirst marker stack s found;
          skips = behind_line-Skips s;
          cuts_last = before_last_line-CutsLast (behind_line s);
          cuts_other = (
            from-IsAbsent goroutine (before goroutine cut)
                (from-before 10 (codes "goroutine ") cut),
            before_place goroutine cut,
          );
          trims = trims;
          bare = bare;
        },
      )
]
