-- ===== src/Server/Serve/Ends.antt =====
-- The end of a connection: its loop ends, and then its goroutines.
use myrpc.Base.{
  ℕ, zero, suc, ◌+◌, ◌<◌, List, [], ◌∷◌, Bool, true, false, Option, none, some, ◌≡◌, refl, arith,
  ap, ◌∙◌, inl, inr, ◌⊎◌, Option-cases, length, if◌then◌else◌,
}
use myrpc.Common.Errors.{Error, error_text}
use myrpc.Common.Wire.{Request}
use myrpc.Server.Context.{Context, HeaderRead, header, Server}
use myrpc.Server.Requests.{Read, read_request}
use myrpc.Server.Requests.Frames.{Went}
use myrpc.Server.Requests.Reading.{Outcome, taken, ended, read_request-Outcome}
use myrpc.Server.Responses.Once.{send_response-headers, call-headers}
use myrpc.Server.Serve.{
  Serving, pick, get_context, group_add, dispatch, serve_round, answer_picked, Event, round, stops,
  answers, step, run,
}

abbrev pub repeat : ℕ → Event → List Event
repeat zero e = []
repeat (suc n) e = e ∷ repeat n e

-- How many rounds of the loop there are among events.
abbrev pub rounds : List Event → ℕ
rounds [] = 0
rounds (round ∷ es) = suc (rounds es)
rounds (stops ∷ es) = rounds es
rounds (answers i ∷ es) = rounds es

-- The WaitGroup counts the requests in flight.
abbrev pub IsCounted : Serving → Type 0
IsCounted s = s.call_group ≡ length s.in_flight

-- The loop has ended, or takes a header in each of the rounds counted.
abbrev Progress : ℕ → Serving → Serving → Type 0
Progress n s s' = (s'.looping ≡ false) ⊎ (n + length s'.conn.headers ≡ length s.conn.headers)

module _ (server : Server) where
  taken-Progress :
      (s : Serving) (r : Read) (q : Request) (hs : List HeaderRead)
      → s.conn.headers ≡ header q ∷ hs
      → Went (record (s.conn) { headers = hs }) q r
      → Progress 1 s (dispatch server r.err r (group_add s))
  taken-Progress s r q hs read went = elim (Option-cases r.err) [
    | inl fine ↦ simp fine (inr (omega (arith, ap length went.headers, ap length read)))
    | inr (e, err) ↦
        let same = send_response-headers server r.conn r.ctx (error_text e) in
        simp (err, went.keep_reading, went.not_send)
          (inr (omega (arith, ap length (same ∙ went.headers), ap length read)))
  ]

  read-Progress :
      (s : Serving) (r : Read)
      → Outcome server s.conn r
      → Progress 1 s (dispatch server r.err r (group_add s))
  read-Progress s r (ended halts e err reads left) = simp (err, halts) (inl refl)
  read-Progress s r (taken q hs read went) = taken-Progress s r q hs read went

  dispatch-IsCounted :
      (e : Option Error) (r : Read) (s : Serving)
      → s.call_group ≡ suc (length s.in_flight)
      → IsCounted (dispatch server e r s)
  dispatch-IsCounted none r s counted = counted
  dispatch-IsCounted (some e) r s counted = ground arith

  -- What a round does.
  serve_round_lem :
      (s : Serving)
      → IsCounted s
      → Progress 1 s (serve_round server s) × IsCounted (serve_round server s)
  unfolding serve_round
  serve_round_lem s counted =
      let (x, s') = get_context s in
      let r = read_request server s.conn x in
      (
        read-Progress s' r (read_request-Outcome server s.conn x),
        dispatch-IsCounted r.err r (group_add s') (ap suc counted),
      )

  pick-length :
      (i : ℕ) (xs : List Context) (x : Context) (rest : List Context)
      → pick i xs ≡ some (x, rest)
      → length xs ≡ suc (length rest)
  pick-length i [] x rest e = ground arith
  pick-length zero (y ∷ ys) x rest e = ground arith
  pick-length (suc i) (y ∷ ys) x rest e = elim (Option-cases (pick i ys)) [
    | inl nothing ↦ ground arith
    | inr ((z, zs), p) ↦ let ih = pick-length i ys z zs p in ground arith
  ]

  -- What an answer does.
  answer_lem :
      (i : ℕ) (s : Serving)
      → IsCounted s
      → let s' = answer_picked server (pick i s.in_flight) s in
        (s'.conn.headers ≡ s.conn.headers) × (s'.looping ≡ s.looping) × IsCounted s'
  answer_lem i s counted = elim (Option-cases (pick i s.in_flight)) [
    | inl nothing ↦ rw nothing (refl, refl, counted)
    | inr ((x, rest), e) ↦
        let shorter = pick-length i s.in_flight x rest e in
        rw e (call-headers server s.conn x, refl, omega (arith, counted, shorter))
  ]

  guarded :
      (n : ℕ) (b : Bool) (s t : Serving)
      → s.looping ≡ b
      → IsCounted s
      → Progress n s t × IsCounted t
      → Progress n s (if b then t else s) × IsCounted (if b then t else s)
  guarded n true s t looping counted after = after
  guarded n false s t over counted after = (inl over, counted)

  step_lem :
      (s : Serving) (e : Event)
      → IsCounted s
      → Progress (rounds (e ∷ [])) s (step server s e) × IsCounted (step server s e)
  unfolding step
  step_lem s round counted =
      guarded 1 s.looping s (serve_round server s) refl counted (serve_round_lem s counted)
  step_lem s stops counted = guarded 0 s.looping s _ refl counted (inl refl, counted)
  step_lem s (answers i) counted =
      let (headers, looping, after) = answer_lem i s counted in
      (inr (omega (arith, ap length headers)), after)

  over_lem :
      (s : Serving) (e : Event)
      → IsCounted s
      → s.looping ≡ false
      → (step server s e).looping ≡ false
  unfolding step
  over_lem s round counted over = rw over refl
  over_lem s stops counted over = rw over refl
  over_lem s (answers i) counted over = (answer_lem i s counted).1 ∙ over

  rounds_lem : (e : Event) (es : List Event) → rounds (e ∷ es) ≡ rounds (e ∷ []) + rounds es
  rounds_lem round es = omega arith
  rounds_lem stops es = omega arith
  rounds_lem (answers i) es = omega arith

  events_end :
      (es : List Event) (s : Serving)
      → IsCounted s
      → (s.looping ≡ false) ⊎ (length s.conn.headers < rounds es)
      → ((run server s es).looping ≡ false) × IsCounted (run server s es)
  unfolding run
  events_end [] s counted (inl over) = (over, counted)
  events_end [] s counted (inr enough) = absurd (omega arith)
  events_end (e ∷ es) s counted (inl over) =
      events_end es (step server s e) (step_lem s e counted).1 (inl (over_lem s e counted over))
  events_end (e ∷ es) s counted (inr enough) =
      let (progress, after) = step_lem s e counted in
      events_end es (step server s e) after (elim progress [
        | inl over ↦ inl over
        | inr fewer ↦ inr (omega (arith, fewer, rounds_lem e es))
      ])

  answers_end :
      (xs : List Context) (s : Serving)
      → s.in_flight ≡ xs
      → s.call_group ≡ length xs
      → let last = run server s (repeat (length xs) (answers 0)) in
        (last.in_flight ≡ []) × (last.call_group ≡ 0) × (last.looping ≡ s.looping)
  unfolding run step
  answers_end [] s flying counted = (flying, counted, refl)
  answers_end (x ∷ xs) s flying counted =
      let s' = answer_picked server (pick 0 (x ∷ xs)) s in
      rw flying (answers_end xs s' refl (omega (arith, counted)))

-- Whatever the hooks, the services and the readings do, and whatever the codec reports for a write,
-- errors included, where the WaitGroup counts the requests in flight: after any events among which
-- there are more rounds than headers to come, the loop has ended and the WaitGroup still counts the
-- requests in flight; and then as many answers as there are requests in flight leave none, with the
-- WaitGroup at zero.
pub run_ends :
    (server : Server) (s : Serving) (es : List Event)
    → IsCounted s
    → length s.conn.headers < rounds es
    → let looped = run server s es in
      let last = run server looped (repeat (length looped.in_flight) (answers 0)) in
      (looped.looping ≡ false)
      × IsCounted looped
      × (last.looping ≡ false)
      × (last.in_flight ≡ [])
      × (last.call_group ≡ 0)
run_ends server s es counted enough =
    let looped = run server s es in
    let (over, after) = events_end server es s counted (inr enough) in
    let (none_left, waited, same) = answers_end server looped.in_flight looped refl after in
    (over, after, same ∙ over, none_left, waited)
