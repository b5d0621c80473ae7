-- ===== src/Client/Dial/Tests.antt =====
-- Tests.
-- A client with two plugins, of which the second can refuse, over a network that accepts every dial.
use myrpc.Base.{
  ℕ, Bytes, codes, beq, List, [], ◌∷◌, Option, none, some, pos, false, ◌≡◌, refl, ap, sym,
}
use myrpc.Common.Errors.{Error, message, eof, format, Result, ok, err}
use myrpc.Codec.Wire.{Link, read_from, read_error, write, write_taking}
use myrpc.Codec.Conn.{jsonrpc, CompressType, CodecConn, set_client_codec}
use myrpc.Plugin.AppointCodec.{Transport}
use myrpc.Codec.ConnHooks.{ConnPlugin, run_conn_hooks, IsKept}
use myrpc.Client.Dial.{
  Client, Network, connected, init, with_codec, new_xxx_client, new_http_client, new_invoker,
}
use myrpc.Client.Dial.Settled.{IsOpening, Settles, Failed, opened, new_invoker-Settles}

abbrev plain : Transport
plain = record {
  write_through = λ layers b l. write b l;
  read_through = λ layers k l. (
    (read_from k l.chunks).0,
    read_error l.chunks l.ending,
    record l { chunks = (read_from k l.chunks).1 },
  );
  write_plain = λ b l. refl;
  read_plain = λ k l. refl;
}

abbrev fresh_link : Link
fresh_link = record { chunks = []; ending = eof; takes = []; out = []; closed = 0 }

abbrev open_network : Network
open_network = record {
  dial = λ tls network address. ok fresh_link;
  dial_kcp = λ address. err (message (codes "refused"));
  transport = plain;
  read_response = λ c. (ok connected, c);
}

abbrev hooks : Option Error → List ConnPlugin
hooks refusal =
    record { name = codes "Count"; hook = none }
    ∷ record { name = codes "Auth"; hook = some (λ c. (c, refusal)) }
    ∷ []

abbrev closed_times : Option CodecConn → Option ℕ
closed_times none = none
closed_times (some c) = some c.link.closed

abbrev sent : Option CodecConn → List Bytes
sent none = []
sent (some c) = c.link.out

abbrev client_with : Option Error → Client
client_with refusal = record {
  codec_func = some jsonrpc;
  plugins = hooks refusal;
  tls = false;
  http_path = [];
  max_try = pos 0;
}

-- The connection of a refused dial is closed twice, by doPostConnected and by its caller.
refused_test :
    closed_times (new_invoker open_network (init (client_with (some eof))) (codes "tcp") []).conn
    ≡ some 2
unfolding new_invoker new_xxx_client run_conn_hooks init with_codec set_client_codec beq format
refused_test = refl

http_request_test :
    sent (new_invoker open_network (init (client_with none)) (codes "http") []).conn
    ≡ codes "CONNECT /_goRPC_ HTTP/1.0\n\n" ∷ []
unfolding new_invoker new_http_client run_conn_hooks init with_codec set_client_codec beq format
http_request_test = refl

written_open :
    (takes : List (ℕ × Option Error)) (b : Bytes) (l : Link)
    → (write_taking takes b l).2.closed ≡ l.closed
written_open [] b l = refl
written_open ((n, e) ∷ takes) b l = refl

open_network-IsOpening : IsOpening open_network
open_network-IsOpening = record {
  fresh = λ t n a l e. ap closed_of (sym e);
  fresh_kcp = λ a l e. cc;
  write_open = λ ls b l. written_open l.takes b l;
  read_open = λ c. (refl, refl);
}
  where
    closed_of : Result Link → ℕ
    closed_of (ok l) = l.closed
    closed_of (err _) = 0

new_invoker-Settles_example :
    let client = client_with none in
    let d = new_invoker open_network (init client) (codes "tcp") [] in
    Settles
      (Failed client (codes "tcp") (opened open_network client (codes "tcp") []))
      d.result
      d.conn
new_invoker-Settles_example =
    new_invoker-Settles open_network (client_with none) (codes "tcp") [] open_network-IsOpening
      (tt, ((λ c. (refl, kept c.layers)), tt))
  where
    kept : (o : Option (List CompressType)) → IsKept o o
    kept none = tt
    kept (some _) = tt
