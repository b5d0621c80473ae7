-- ===== src/Server/Listen/Accepts.antt =====
-- What becomes of the connections that a listener accepts.
use myrpc.Base.{◌<◌, List, [], ◌∷◌, Option, none, some, All, ◌≡◌, refl, ap, ◌∙◌}
use myrpc.Common.Errors.{Error, Result, ok, err}
use myrpc.Codec.Wire.{Link}
use myrpc.Codec.Conn.{
  CodecFunc, CompressType, CodecConn, new_codec_conn, ensure_server_codec, set_server_codec,
}
use myrpc.Codec.ConnHooks.{ConnPlugin, IsThere, AreTame, run_conn_hooks-open, run_conn_hooks-closed}
use myrpc.Server.Hooks.{err_post_conn_accept}
use myrpc.Server.Listen.{Accepting, run_accepted, accept_hooked, accept_loop}

-- The connections that were accepted before the first error, oldest first.
abbrev pub accepted_before : List (Result Link) → List Link
accepted_before [] = []
accepted_before (err e ∷ rest) = []
accepted_before (ok link ∷ rest) = link ∷ accepted_before rest

-- The connections that the hooks let pass, with their codecs, and those that they refuse.
abbrev pub if_passed : CodecFunc → CodecConn × Option Error → List CodecConn → List CodecConn
if_passed default (c, none) cs = ensure_server_codec default c ∷ cs
if_passed default (c, some e) cs = cs

abbrev pub passed_of :
    (CodecConn → CodecConn × Option Error) → CodecFunc → List Link → List CodecConn
passed_of hooks default [] = []
passed_of hooks default (l ∷ ls) =
    if_passed default (hooks (new_codec_conn l)) (passed_of hooks default ls)

abbrev pub if_refused : CodecConn × Option Error → List CodecConn → List CodecConn
if_refused (c, none) cs = cs
if_refused (c, some e) cs = c ∷ cs

abbrev pub refused_of : (CodecConn → CodecConn × Option Error) → List Link → List CodecConn
refused_of hooks [] = []
refused_of hooks (l ∷ ls) = if_refused (hooks (new_codec_conn l)) (refused_of hooks ls)

-- A list put in front of another one by one.
abbrev pub reverse_onto : List CodecConn → List CodecConn → List CodecConn
reverse_onto [] cs = cs
reverse_onto (c ∷ more) cs = reverse_onto more (c ∷ cs)

abbrev pub IsFresh : Result Link → Type 0
IsFresh (ok link) = link.closed ≡ 0
IsFresh (err e) = Unit

-- Every served connection is open and has a codec, every refused one was closed.
pub record IsOrderly (s : Accepting) : Type 0 where
  pub served_open : All (λ c. (c.link.closed ≡ 0) × IsThere c.codec) s.served
  pub refused_closed : All (λ c. 0 < c.link.closed) s.refused

ensure_server_codec-open :
    (default : CodecFunc) (l : Link) (layers : Option (List CompressType))
    (codec : Option (CodecFunc × List CompressType))
    → IsThere layers
    → let c : CodecConn = record { link = l; layers = layers; codec = codec } in
      ((ensure_server_codec default c).link ≡ l) × IsThere (ensure_server_codec default c).codec
unfolding ensure_server_codec set_server_codec
ensure_server_codec-open default l none codec there = elim there [ ]
ensure_server_codec-open default l (some layers) none there = (refl, tt)
ensure_server_codec-open default l (some layers) (some x) there = (refl, tt)

hooked-IsOrderly :
    (default : CodecFunc) (x : CodecConn × Option Error) (s : Accepting)
    → IsOrderly s
    → ((e : Error) → x.1 ≡ some e → 0 < x.0.link.closed)
    → (x.1 ≡ none → (x.0.link.closed ≡ 0) × IsThere x.0.layers)
    → IsOrderly (accept_hooked default x s)
hooked-IsOrderly default (c, some e) s orderly failed passed = record {
  served_open = orderly.served_open;
  refused_closed = (failed e refl, orderly.refused_closed);
}
hooked-IsOrderly default (c, none) s orderly failed passed =
    let (untouched, there) = passed refl in
    let (same, made) = ensure_server_codec-open default c.link c.layers c.codec there in
    record {
      served_open = ((ap (λ l. l.closed) same ∙ untouched, made), orderly.served_open);
      refused_closed = orderly.refused_closed;
    }

stays_IsOrderly :
    (default : CodecFunc) (ps : List ConnPlugin) (accepts : List (Result Link)) (s : Accepting)
    → AreTame ps
    → All IsFresh accepts
    → IsOrderly s
    → IsOrderly (accept_loop default ps accepts s)
unfolding accept_loop
stays_IsOrderly default ps [] s tame fresh orderly = orderly
stays_IsOrderly default ps (err e ∷ rest) s tame fresh orderly = orderly
stays_IsOrderly default ps (ok link ∷ rest) s tame (new, fresh) orderly =
    let x = run_accepted ps (new_codec_conn link) in
    stays_IsOrderly default ps rest (accept_hooked default x s) tame fresh (
      hooked-IsOrderly default x s orderly
        (λ e failed. run_conn_hooks-closed err_post_conn_accept ps (new_codec_conn link) e failed)
        (λ passed.
          let (same, there) =
            run_conn_hooks-open err_post_conn_accept ps (new_codec_conn link) tame tt passed in
          (same ∙ new, there)))

-- `s'` is `s` with what is passed and refused put in front.
abbrev IsSettled : List CodecConn → List CodecConn → Accepting → Accepting → Type 0
IsSettled passed refused s s' =
    (s'.served ≡ reverse_onto passed s.served) × (s'.refused ≡ reverse_onto refused s.refused)

one-IsSettled :
    (default : CodecFunc) (x : CodecConn × Option Error) (passed refused : List CodecConn)
    (s s' : Accepting)
    → IsSettled passed refused (accept_hooked default x s) s'
    → IsSettled (if_passed default x passed) (if_refused x refused) s s'
one-IsSettled default (c, none) passed refused s s' settled = settled
one-IsSettled default (c, some e) passed refused s s' settled = settled

accept_loop-IsSettled :
    (default : CodecFunc) (ps : List ConnPlugin) (accepts : List (Result Link)) (s : Accepting)
    → IsSettled
        (passed_of (run_accepted ps) default (accepted_before accepts))
        (refused_of (run_accepted ps) (accepted_before accepts))
        s
        (accept_loop default ps accepts s)
unfolding accept_loop
accept_loop-IsSettled default ps [] s = (refl, refl)
accept_loop-IsSettled default ps (err e ∷ rest) s = (refl, refl)
accept_loop-IsSettled default ps (ok link ∷ rest) s =
    let x = run_accepted ps (new_codec_conn link) in
    one-IsSettled default x _ _ s _
      (accept_loop-IsSettled default ps rest (accept_hooked default x s))

-- From new connections, with hooks that neither close a connection nor take it away: the loop of
-- serveListener starts ServeConn, once each and in order, on the connections accepted before the first
-- error that the hooks let pass, and leaves those that they refuse; what it serves is open and has a
-- codec, what it leaves is closed.
pub accept_loop-IsOrderly :
    (default : CodecFunc) (ps : List ConnPlugin) (accepts : List (Result Link)) (s : Accepting)
    → AreTame ps
    → All IsFresh accepts
    → IsOrderly s
    → let s' = accept_loop default ps accepts s in
      IsOrderly s'
      × (s'.served
          ≡ reverse_onto (passed_of (run_accepted ps) default (accepted_before accepts)) s.served)
      × (s'.refused
          ≡ reverse_onto (refused_of (run_accepted ps) (accepted_before accepts)) s.refused)
accept_loop-IsOrderly default ps accepts s tame fresh orderly =
    let (served, refused) = accept_loop-IsSettled default ps accepts s in
    (stays_IsOrderly default ps accepts s tame fresh orderly, served, refused)
