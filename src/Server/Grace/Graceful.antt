-- ===== src/Server/Grace/Graceful.antt =====
-- What the result of `shutdown` says of the servers and of the finalizers.
use myrpc.Base.{
  ℕ, suc, List, [], ◌∷◌, ◌++◌, Option, none, some, Bool, true, false, ◌&&◌, ◌≡◌, ◌⊎◌, refl, sym, ap,
  ◌∙◌, append_assoc, append-nil, Bool-cases, inl, inr,
}
use myrpc.Common.Errors.{Error}
use myrpc.Server.Grace.{
  Finalizer, fine, close_all, Ending, new_ending, Event, works, expires, sees_done, sees_closed,
  next, work, ended, step, run,
}

-- The numbers of the finalizers that are functions.
abbrev pub live : ℕ → List Finalizer → List ℕ
live i [] = []
live i (none ∷ fs) = live (suc i) fs
live i (some e ∷ fs) = i ∷ live (suc i) fs

abbrev pub all_fine : List Finalizer → Bool
all_fine [] = true
all_fine (none ∷ fs) = all_fine fs
all_fine (some e ∷ fs) = fine e && all_fine fs

-- What the flag will be after the finalizers that are left.
abbrev pub inside_fine : Option (Option Error) → Bool
inside_fine none = true
inside_fine (some e) = fine e

abbrev pub outlook : Ending → Bool
outlook s = s.flag && (inside_fine s.inside && all_fine s.todo)

module _ (closes : List (Option Error)) (fs : List Finalizer) where
  -- Before the deadline no finalizer was passed over, and no error was forgotten.
  pub record Inv (s : Ending) : Type 0 where
    servers : s.flag ≡ true → close_all closes ≡ true
    pub begun : s.expired ≡ false → s.begun ++ live s.index s.todo ≡ live 0 fs
    pub outlook_lem : s.expired ≡ false → outlook s ≡ (close_all closes && all_fine fs)
    over : s.closed ≡ true → (s.todo ≡ []) × (s.inside ≡ none)
    ended_lem : s.result ≡ some true → (s.flag ≡ true) × (s.closed ≡ true)

  next-Inv :
      (todo : List Finalizer) (s : Ending)
      → s.inside ≡ none
      → s.todo ≡ todo
      → Inv s
      → Inv (next todo s)
  next-Inv [] s out e i = record {
    servers = i.servers;
    begun = i.begun;
    outlook_lem = i.outlook_lem;
    over = λ h. (e, out);
    ended_lem = λ h. ((i.ended_lem h).0, refl);
  }
  next-Inv (none ∷ gs) s out e i = record {
    servers = i.servers;
    begun = λ h. ap (λ l. s.begun ++ live s.index l) (sym e) ∙ i.begun h;
    outlook_lem =
        λ h. ap (λ l. s.flag && (inside_fine s.inside && all_fine l)) (sym e) ∙ i.outlook_lem h;
    over = λ h. cc (e, (i.over h).0);
    ended_lem = i.ended_lem;
  }
  next-Inv (some x ∷ gs) s out e i = elim (Bool-cases s.expired) [
    | inl late ↦ rw late (record {
      servers = i.servers;
      begun = λ h. cc h;
      outlook_lem = λ h. cc h;
      over = λ h. cc (e, (i.over h).0);
      ended_lem = i.ended_lem;
    })
    | inr early ↦ rw early (record {
      servers = i.servers;
      begun = λ h.
          append_assoc s.begun (s.index ∷ []) (live (suc s.index) gs)
          ∙ ap (λ l. s.begun ++ live s.index l) (sym e)
          ∙ i.begun early;
      outlook_lem = λ h.
          ap (λ l. s.flag && (inside_fine none && all_fine l)) (sym e)
          ∙ ap (λ n. s.flag && (inside_fine n && all_fine s.todo)) (sym out)
          ∙ i.outlook_lem early;
      over = λ h. cc (e, (i.over h).0);
      ended_lem = i.ended_lem;
    })
  ]

  and_left : (a b : Bool) → (a && b) ≡ true → a ≡ true
  and_left true b h = refl
  and_left false b h = h

  and_assoc : (a b c : Bool) → ((a && b) && c) ≡ (a && (b && c))
  and_assoc true b c = refl
  and_assoc false b c = refl

  work-Inv :
      (inside : Option (Option Error)) (s : Ending)
      → s.inside ≡ inside
      → Inv s
      → Inv (work inside s)
  work-Inv none s e i = next-Inv s.todo s e refl i
  work-Inv (some x) s e i = record {
    servers = λ h. i.servers (and_left s.flag (fine x) h);
    begun = i.begun;
    outlook_lem = λ h.
        and_assoc s.flag (fine x) (all_fine s.todo)
        ∙ ap (λ n. s.flag && (inside_fine n && all_fine s.todo)) (sym e)
        ∙ i.outlook_lem h;
    over = λ h. cc (e, (i.over h).1);
    ended_lem = λ h. cc (e, (i.over (i.ended_lem h).1).1);
  }

  done-Inv : (r : Option Bool) (s : Ending) → Inv s → Inv (ended s.expired r false s)
  done-Inv (some r) s i = i
  done-Inv none s i = elim (Bool-cases s.expired) [
    | inl late ↦ simp late (record {
      servers = λ h. cc;
      begun = λ h. cc h;
      outlook_lem = λ h. cc h;
      over = i.over;
      ended_lem = λ h. cc;
    })
    | inr early ↦ simp early i
  ]

  closed-Inv : (r : Option Bool) (s : Ending) → Inv s → Inv (ended s.closed r s.flag s)
  closed-Inv (some r) s i = i
  closed-Inv none s i = elim (Bool-cases s.closed) [
    | inl closed ↦ simp closed (record {
      servers = i.servers;
      begun = i.begun;
      outlook_lem = i.outlook_lem;
      over = λ h. i.over closed;
      ended_lem = λ h. (cc, refl);
    })
    | inr open_yet ↦ simp open_yet i
  ]

  step-Inv : (s : Ending) (e : Event) → Inv s → Inv (step s e)
  unfolding step
  step-Inv s works i = work-Inv s.inside s refl i
  step-Inv s expires i = record {
    servers = i.servers;
    begun = λ h. cc;
    outlook_lem = λ h. cc;
    over = i.over;
    ended_lem = i.ended_lem;
  }
  step-Inv s sees_done i = done-Inv s.result s i
  step-Inv s sees_closed i = closed-Inv s.result s i

  pub run-Inv : (s : Ending) (es : List Event) → Inv s → Inv (run s es)
  unfolding run
  run-Inv s [] i = i
  run-Inv s (e ∷ es) i = run-Inv (step s e) es (step-Inv s e i)

  pub new_ending-Inv : Inv (new_ending closes fs)
  new_ending-Inv = record {
    servers = λ h. h;
    begun = λ h. refl;
    outlook_lem = λ h. refl;
    over = λ h. cc;
    ended_lem = λ h. cc;
  }

and_true : (a b : Bool) → (a && b) ≡ true → (a ≡ true) × (b ≡ true)
and_true true b h = (refl, h)
and_true false b h = cc

-- Whenever `shutdown` returns true, every server was closed without an error. If moreover the deadline has
-- not passed, then all the finalizers that are functions were called, once each and in order, and none
-- returned an error.
pub run-Graceful :
    (closes : List (Option Error)) (fs : List Finalizer) (es : List Event)
    → let s = run (new_ending closes fs) es in
      s.result ≡ some true
      → (close_all closes ≡ true)
        × ((s.expired ≡ true) ⊎ ((s.begun ≡ live 0 fs) × (all_fine fs ≡ true)))
run-Graceful closes fs es h =
    let s = run (new_ending closes fs) es in
    let i = run-Inv closes fs (new_ending closes fs) es (new_ending-Inv closes fs) in
    let (flag, closed) = i.ended_lem h in
    let (none_left, out) = i.over closed in
    (
      i.servers flag,
      elim (Bool-cases s.expired) [
        | inl late ↦ inl late
        | inr early ↦ inr (
          sym (append-nil s.begun)
              ∙ ap (λ l. s.begun ++ live s.index l) (sym none_left)
              ∙ i.begun early,
          (and_true (close_all closes) (all_fine fs) (
              sym (i.outlook_lem early)
              ∙ ap (λ f. f && (inside_fine s.inside && all_fine s.todo)) flag
              ∙ ap (λ n. inside_fine n && all_fine s.todo) out
              ∙ ap all_fine none_left)).1,
        )
      ],
    )
