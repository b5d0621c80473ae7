-- ===== src/Plugin/Auth.antt =====
-- plugin/auth/authorization.go: a client puts a tag and a token into the query of its service method,
-- and the server's function judges them.
pub mod Arrival
mod Tests
use myrpc.Base.{ℕ, Bytes, codes, beq, List, [], ◌∷◌, ◌++◌, Option, none, some, ◌==◌, if◌then◌else◌}
use myrpc.Common.Errors.{Error, message}
use myrpc.Server.Context.{Query}

-- `server.URIFormator`, with one path segment. A nil query is `none`.
pub record Formator : Type 0 where
  pub uri_encode : Query → Bytes → Bytes
  pub uri_parse : Bytes → Bytes × Option Query × Option Error

-- `url.Values.Add` and `url.Values.Get`.
unfoldable pub query_add : Bytes → Bytes → Query → Query
query_add k v [] = (k, v ∷ []) ∷ []
query_add k v ((k', vs) ∷ q) =
    let rest = query_add k v q in if beq k' k then (k', vs ++ v ∷ []) ∷ q else (k', vs) ∷ rest

abbrev pub first_value : List Bytes → Bytes
first_value [] = []
first_value (v ∷ _) = v

unfoldable pub query_get : Bytes → Query → Bytes
query_get k [] = []
query_get k ((k', vs) ∷ q) = let rest = query_get k q in if beq k' k then first_value vs else rest

-- `strings.Split` at a byte.
abbrev pub prepend : ℕ → List Bytes → List Bytes
prepend b [] = (b ∷ []) ∷ []
prepend b (s ∷ ss) = (b ∷ s) ∷ ss

unfoldable pub split : ℕ → Bytes → List Bytes
split d [] = [] ∷ []
split d (b ∷ s) = let rest = split d s in if b == d then [] ∷ rest else prepend b rest

-- `"\x1f"`.
abbrev pub unit_separator : ℕ
unit_separator = 31

abbrev pub auth_key : Bytes
auth_key = codes "auth"

-- The new service method, an error, or the panic of Add on a nil query.
pub data Authorized : Type 0 where
  authorized : Bytes → Authorized
  unparsed : Error → Authorized
  crashed : Authorized

pub record AuthorizationPlugin : Type 0 where
  pub token : Bytes
  pub tag : Bytes
  pub authorization_func : Option (Bytes → Bytes → Bytes → Option Error)

abbrev pub new_server_authorization_plugin :
    Option (Bytes → Bytes → Bytes → Option Error) → AuthorizationPlugin
new_server_authorization_plugin f = record { token = []; tag = []; authorization_func = f }

abbrev pub new_client_authorization_plugin : Bytes → Bytes → AuthorizationPlugin
new_client_authorization_plugin tag token = record {
  token = token;
  tag = tag;
  authorization_func = none;
}

-- `auth.tag+"\x1f"+auth.token`.
abbrev pub authorization : AuthorizationPlugin → Bytes
authorization auth = auth.tag ++ unit_separator ∷ auth.token

-- `PreWriteRequest`, which changes the service method.
abbrev pub query_authorized :
    Formator → AuthorizationPlugin → Bytes × Option Query × Option Error → Authorized
query_authorized uris auth (p, q, some e) = unparsed e
query_authorized uris auth (p, none, none) = crashed
query_authorized uris auth (p, some q, none) =
    authorized (uris.uri_encode (query_add auth_key (authorization auth) q) p)

unfoldable pub pre_write_request : Formator → AuthorizationPlugin → Bytes → Authorized
unfolding query_add
pre_write_request uris auth service_method =
    query_authorized uris auth (uris.uri_parse service_method)

-- `PreReadRequestBody`, by the path and the query of the context.
abbrev pub judged :
    (Bytes → Bytes → Bytes → Option Error) → Bytes → Bytes → List Bytes → Option Error
judged f path s (tag ∷ token ∷ []) = f path tag token
judged f path s _ = some (message (codes "The authorization is not formatted correctly: " ++ s))

unfoldable pub pre_read_request_body : AuthorizationPlugin → Bytes → Query → Option Error
unfolding query_get split
pre_read_request_body auth path query = elim auth.authorization_func [
  | none ↦ none
  | some f ↦ let s = query_get auth_key query in judged f path s (split unit_separator s)
]
