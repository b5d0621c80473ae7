-- ===== src/Server/Grace/Ends.antt =====
-- A way in which `shutdown` returns.
use myrpc.Base.{
  ℕ, zero, suc, ◌+◌, ◌*◌, ◌<◌, List, [], ◌∷◌, Option, none, some, true, ◌≡◌, ◌⊎◌, refl, sym, ap,
  ◌∙◌, length, arith, Bool-cases, inl, inr,
}
use myrpc.Common.Errors.{Error}
use myrpc.Server.Grace.{
  Finalizer, close_all, Ending, new_ending, Event, works, expires, sees_closed, next, work, ended,
  step, run,
}

abbrev pub repeat : ℕ → List Event → List Event
repeat zero es = es
repeat (suc n) es = works ∷ repeat n es

abbrev cost : Option (Option Error) → ℕ
cost none = 0
cost (some e) = 1

-- How many steps the goroutine has still before it.
abbrev to_do : Ending → ℕ
to_do s = 2 * length s.todo + cost s.inside

-- A goroutine that has closed `fchan`.
record Over (s : Ending) : Type 0 where
  closed : s.closed ≡ true
  todo : s.todo ≡ []
  inside : s.inside ≡ none

-- Nothing was called, and no error came.
record Idle (s s' : Ending) : Type 0 where
  flag : s'.flag ≡ s.flag
  begun : s'.begun ≡ s.begun
  inside : s'.inside ≡ none

-- A step of the goroutine leaves the deadline and the result alone, and comes nearer to the end. Behind the
-- deadline it calls nothing.
record Worked (s s' : Ending) : Type 0 where
  expired : s'.expired ≡ s.expired
  result : s'.result ≡ s.result
  late : s.expired ≡ true → s.inside ≡ none → Idle s s'
  nearer : Over s' ⊎ (to_do s' < to_do s)

next-Worked :
    (todo : List Finalizer) (s : Ending) → s.inside ≡ none → s.todo ≡ todo → Worked s (next todo s)
next-Worked [] s out e = record {
  expired = refl;
  result = refl;
  late = λ h k. record { flag = refl; begun = refl; inside = out };
  nearer = inl (record { closed = refl; todo = e; inside = out });
}
next-Worked (none ∷ fs) s out e = record {
  expired = refl;
  result = refl;
  late = λ h k. record { flag = refl; begun = refl; inside = out };
  nearer = inr (omega (arith, ap length e));
}
next-Worked (some x ∷ fs) s out e = elim (Bool-cases s.expired) [
  | inl late ↦ simp late (record {
    expired = sym late;
    result = refl;
    late = λ h k. record { flag = refl; begun = refl; inside = out };
    nearer = inr (omega (arith, ap length e));
  })
  | inr early ↦ simp early (record {
    expired = sym early;
    result = refl;
    late = λ h k. cc (h, early);
    nearer = inr (omega (arith, ap length e, ap cost out));
  })
]

work-Worked :
    (inside : Option (Option Error)) (s : Ending) → s.inside ≡ inside → Worked s (work inside s)
work-Worked none s e = next-Worked s.todo s e refl
work-Worked (some x) s e = record {
  expired = refl;
  result = refl;
  late = λ h k. cc (e, k);
  nearer = inr (omega (arith, ap cost e));
}

Idle-trans : (s t u : Ending) → Idle s t → Idle t u → Idle s u
Idle-trans s t u f g = record {
  flag = g.flag ∙ f.flag;
  begun = g.begun ∙ f.begun;
  inside = g.inside;
}

idle_repeats : (n : ℕ) (es : List Event) (s : Ending) → Over s → run s (repeat n es) ≡ run s es
unfolding run step
idle_repeats zero es s o = refl
idle_repeats (suc n) es s o =
    ap (λ t. run t (repeat n es))
      (ap (λ i. work i s) o.inside
        ∙ ap (λ l. next l s) o.todo
        ∙ ap (λ c. record s { closed = c }) (sym o.closed))
    ∙ idle_repeats n es s o

-- Where the goroutine is when it has gone all its steps.
record Reached (n : ℕ) (s s' : Ending) : Type 0 where
  over : Over s'
  expired : s'.expired ≡ s.expired
  result : s'.result ≡ s.result
  late : s.expired ≡ true → s.inside ≡ none → Idle s s'
  run_lem : (es : List Event) → run s (repeat n es) ≡ run s' es

reaches : (n : ℕ) (s : Ending) → to_do s < n → (s' : Ending) × Reached n s s'
unfolding run step
reaches zero s h = absurd (omega arith)
reaches (suc n) s h =
    let s1 = work s.inside s in
    let w = work-Worked s.inside s refl in
    elim w.nearer [
      | inl over ↦ (
        s1,
        record {
          over = over;
          expired = w.expired;
          result = w.result;
          late = w.late;
          run_lem = λ es. idle_repeats n es s1 over;
        },
      )
      | inr less ↦
          let (s', r) = reaches n s1 (omega (arith, less)) in
          (
            s',
            record {
              over = r.over;
              expired = r.expired ∙ w.expired;
              result = r.result ∙ w.result;
              late = λ k i.
                  let first = w.late k i in
                  Idle-trans s s1 s' first (r.late (w.expired ∙ k) first.inside);
              run_lem = r.run_lem;
            },
          )
    ]

-- The last select of a goroutine that is over.
selected :
    (s : Ending)
    → Over s
    → s.result ≡ none
    → run s (sees_closed ∷ []) ≡ record s { result = some s.flag }
unfolding run step
selected s o undecided =
    ap (λ c. ended c s.result s.flag s) o.closed ∙ ap (λ r. ended true r s.flag s) undecided

-- A deadline that passes between the end of the last server and the first finalizer does not make
-- `shutdown` fail: its goroutine passes over all finalizers and closes `fchan`, and where the last
-- `select` takes that case the result is that of the servers alone.
pub shutdown_skips :
    (closes : List (Option Error)) (fs : List Finalizer)
    → let s =
        run (new_ending closes fs) (expires ∷ repeat (suc (2 * length fs)) (sees_closed ∷ [])) in
      (s.result ≡ some (close_all closes)) × (s.begun ≡ [])
unfolding run step
shutdown_skips closes fs =
    let start : Ending = record (new_ending closes fs) { expired = true } in
    let (s, r) = reaches (suc (2 * length fs)) start (omega arith) in
    let same = r.run_lem (sees_closed ∷ []) ∙ selected s r.over r.result in
    let idle = r.late refl refl in
    (ap (λ t. t.result) same ∙ ap some idle.flag, ap (λ t. t.begun) same ∙ idle.begun)
