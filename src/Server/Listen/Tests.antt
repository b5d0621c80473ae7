-- ===== src/Server/Listen/Tests.antt =====
-- Tests.
-- A listener that gives three connections and closes, with a hook that refuses a client by its first
-- bytes.
use myrpc.Base.{Bytes, codes, beq, List, [], ◌∷◌, Option, none, some, ◌≡◌, refl, if◌then◌else◌, map}
use myrpc.Common.Errors.{Error, message, eof, format, Result, ok, err}
use myrpc.Codec.Wire.{Link}
use myrpc.Codec.Conn.{gob, CompressType, ensure_server_codec, set_server_codec}
use myrpc.Codec.ConnHooks.{ConnPlugin, run_conn_hooks, IsKept}
use myrpc.Server.Listen.{Accepting, run_accepted, accept_loop}
use myrpc.Server.Listen.Accepts.{
  accepted_before, passed_of, refused_of, reverse_onto, IsOrderly, accept_loop-IsOrderly,
}

abbrev link_of : Bytes → Link
link_of b = record { chunks = b ∷ []; ending = eof; takes = []; out = []; closed = 0 }

abbrev judged : List Bytes → Option Error
judged [] = some (message (codes "silent"))
judged (b ∷ _) = if beq b (codes "bad") then some (message (codes "bad")) else none

abbrev hooks : List ConnPlugin
hooks = record { name = codes "Judge"; hook = some (λ c. (c, judged c.link.chunks)) } ∷ []

abbrev accepts : List (Result Link)
accepts =
    ok (link_of (codes "one"))
    ∷ ok (link_of (codes "bad"))
    ∷ ok (link_of (codes "two"))
    ∷ err (message (codes "use of closed network connection"))
    ∷ ok (link_of (codes "late"))
    ∷ []

abbrev nobody : Accepting
nobody = record { served = []; refused = [] }

served_test :
    map (λ c. c.link.chunks) (accept_loop gob hooks accepts nobody).served
    ≡ (codes "two" ∷ []) ∷ (codes "one" ∷ []) ∷ []
unfolding accept_loop run_conn_hooks ensure_server_codec set_server_codec beq format
served_test = refl

accept_loop-IsOrderly_example :
    let s = accept_loop gob hooks accepts nobody in
    IsOrderly s
    × (s.served ≡ reverse_onto (passed_of (run_accepted hooks) gob (accepted_before accepts)) [])
    × (s.refused ≡ reverse_onto (refused_of (run_accepted hooks) (accepted_before accepts)) [])
accept_loop-IsOrderly_example =
    accept_loop-IsOrderly gob hooks accepts nobody ((λ c. (refl, kept c.layers)), tt)
      (refl, (refl, (refl, (tt, (refl, tt))))) (record { served_open = tt; refused_closed = tt })
  where
    kept : (o : Option (List CompressType)) → IsKept o o
    kept none = tt
    kept (some _) = tt
