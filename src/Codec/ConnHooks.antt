-- ===== src/Codec/ConnHooks.antt =====
-- The hooks on a new connection, PostConnected of client/client_plugin.go and PostConnAccept of
-- server/server_plugin.go, which run alike.
use myrpc.Base.{
  Bytes, List, [], ◌∷◌, Option, none, some, ◌≡◌, refl, ◌∙◌, Option-cases, inl, inr, ◌<◌, arith,
}
use myrpc.Common.Errors.{Error, message, error_text, format}
use myrpc.Codec.Conn.{CodecConn, close_codec_conn}

-- A plugin's name and its hook, where it has one.
pub record ConnPlugin : Type 0 where
  pub name : Bytes
  pub hook : Option (CodecConn → CodecConn × Option Error)

-- A plugin without the hook does nothing.
abbrev pub run_hook :
    Option (CodecConn → CodecConn × Option Error) → CodecConn → CodecConn × Option Error
run_hook none c = (c, none)
run_hook (some hook) c = hook c

-- The loop, which closes the connection at the first error and gives it the text of the hook.
unfoldable pub run_conn_hooks : Bytes → List ConnPlugin → CodecConn → CodecConn × Option Error
unfolding format
run_conn_hooks text [] c = (c, none)
run_conn_hooks text (p ∷ ps) c =
    let (c', result) = run_hook p.hook c in
    elim result [
      | none ↦ run_conn_hooks text ps c'
      | some e ↦ (close_codec_conn c', some (message (format text (p.name ∷ error_text e ∷ []))))
    ]

abbrev pub IsThere : {A : Type 0} → Option A → Type 0
IsThere none = ⊥
IsThere (some _) = Unit

-- A nil connection may be left nil.
abbrev pub IsKept : {A : Type 0} → Option A → Option A → Type 0
IsKept none _ = Unit
IsKept (some _) o = IsThere o

-- A hook does not close the connection, and leaves one.
abbrev pub IsTame : Option (CodecConn → CodecConn × Option Error) → Type 0
IsTame none = Unit
IsTame (some hook) =
    (c : CodecConn) → ((hook c).0.link.closed ≡ c.link.closed) × IsKept c.layers (hook c).0.layers

abbrev pub AreTame : List ConnPlugin → Type 0
AreTame [] = Unit
AreTame (p ∷ ps) = IsTame p.hook × AreTame ps

kept-IsThere : {A : Type 0} (a b : Option A) → IsThere a → IsKept a b → IsThere b
kept-IsThere none b there kept = elim there [ ]
kept-IsThere (some _) b there kept = kept

run_hook-open :
    (h : Option (CodecConn → CodecConn × Option Error)) (c : CodecConn)
    → IsTame h
    → IsThere c.layers
    → ((run_hook h c).0.link.closed ≡ c.link.closed) × IsThere (run_hook h c).0.layers
run_hook-open none c tame there = (refl, there)
run_hook-open (some hook) c tame there =
    ((tame c).0, kept-IsThere c.layers (hook c).0.layers there (tame c).1)

pub run_conn_hooks-open :
    (text : Bytes) (ps : List ConnPlugin) (c : CodecConn)
    → AreTame ps
    → IsThere c.layers
    → (run_conn_hooks text ps c).1 ≡ none
    → ((run_conn_hooks text ps c).0.link.closed ≡ c.link.closed)
      × IsThere (run_conn_hooks text ps c).0.layers
unfolding run_conn_hooks
run_conn_hooks-open text [] c tame there passed = (refl, there)
run_conn_hooks-open text (p ∷ ps) c (tame, tames) there passed =
    let (same, left) = run_hook-open p.hook c tame there in
    elim (Option-cases (run_hook p.hook c).1) [
      | inl fine ↦
          let (same', left') =
            run_conn_hooks-open text ps (run_hook p.hook c).0 tames left
              (rw (run_conn_hooks, fine) at passed) in
          rw (run_conn_hooks, fine) (same' ∙ same, left')
      | inr (e, failed) ↦ cc (rw (run_conn_hooks, failed) at passed)
    ]

-- With an error the connection was closed.
pub run_conn_hooks-closed :
    (text : Bytes) (ps : List ConnPlugin) (c : CodecConn) (e : Error)
    → (run_conn_hooks text ps c).1 ≡ some e
    → 0 < (run_conn_hooks text ps c).0.link.closed
unfolding run_conn_hooks
run_conn_hooks-closed text [] c e failed = cc
run_conn_hooks-closed text (p ∷ ps) c e failed = elim (Option-cases (run_hook p.hook c).1) [
  | inl fine ↦
      rw (run_conn_hooks, fine)
        (run_conn_hooks-closed text ps (run_hook p.hook c).0 e
          (rw (run_conn_hooks, fine) at failed))
  | inr (e', here) ↦ rw (run_conn_hooks, here) (omega arith)
]
