-- ===== src/Plugin/Auth/Arrival.antt =====
-- What the server's function gets of a client's tag and token.
use myrpc.Base.{
  ℕ, Bytes, beq, beq_refl, [], ◌∷◌, ◌++◌, Option, none, some, ◌≡◌, ◌≢◌, refl, ap, ◌∙◌, All, false,
  arith,
}
use myrpc.Common.Errors.{Error}
use myrpc.Server.Context.{Query}
use myrpc.Plugin.Auth.{
  Formator, query_add, query_get, split, unit_separator, auth_key, authorized,
  new_server_authorization_plugin, new_client_authorization_plugin, authorization, query_authorized,
  pre_write_request, judged, pre_read_request_body,
}

split_whole : (d : ℕ) (s : Bytes) → All (λ b. b ≢ d) s → split d s ≡ s ∷ []
unfolding split
split_whole d [] others = refl
split_whole d (b ∷ s) (other, others) = ground (arith, split_whole d s others)

split_once :
    (d : ℕ) (s t : Bytes)
    → All (λ b. b ≢ d) s
    → All (λ b. b ≢ d) t
    → split d (s ++ d ∷ t) ≡ s ∷ t ∷ []
unfolding split
split_once d [] t apart others = ground (arith, split_whole d t others)
split_once d (b ∷ s) t (other, apart) others = ground (arith, split_once d s t apart others)

-- The keys of a query.
abbrev pub IsWithout : Bytes → Query → Type 0
IsWithout k [] = Unit
IsWithout k ((k', vs) ∷ q) = (beq k' k ≡ false) × IsWithout k q

query_get-add : (k v : Bytes) (q : Query) → IsWithout k q → query_get k (query_add k v q) ≡ v
unfolding query_get query_add
query_get-add k v [] without = rw (beq_refl k) refl
query_get-add k v ((k', vs) ∷ q) (other, without) = rw (other, other) (query_get-add k v q without)

-- Where neither a tag nor a token has the separator, and the service method has no authorization in its
-- query yet: PreWriteRequest of the client's plugin succeeds, and where the server parses what it wrote
-- to a path and a query with that authorization, the function of the server's plugin is asked with
-- this path, the tag and the token, and its answer is that of PreReadRequestBody.
pub authorization_arrives :
    (uris : Formator) (f : Bytes → Bytes → Bytes → Option Error)
    (tag token service_method p path : Bytes) (q received : Query)
    → All (λ b. b ≢ unit_separator) tag
    → All (λ b. b ≢ unit_separator) token
    → uris.uri_parse service_method ≡ (p, some q, none)
    → IsWithout auth_key q
    → let auth = new_client_authorization_plugin tag token in
      let sent = uris.uri_encode (query_add auth_key (authorization auth) q) p in
      uris.uri_parse sent ≡ (path, some received, none)
      → query_get auth_key received ≡ query_get auth_key (query_add auth_key (authorization auth) q)
      → (pre_write_request uris auth service_method ≡ authorized sent)
        × (pre_read_request_body (new_server_authorization_plugin (some f)) path received
            ≡ f path tag token)
unfolding pre_write_request pre_read_request_body
authorization_arrives uris f tag token service_method p path q received tag_ok token_ok parsed
      without arrived same =
    let auth = new_client_authorization_plugin tag token in
    let got = same ∙ query_get-add auth_key (authorization auth) q without in
    (
      ap (query_authorized uris auth) parsed,
      ap (λ s. judged f path s (split unit_separator s)) got
          ∙ ap (judged f path (authorization auth))
              (split_once unit_separator tag token tag_ok token_ok),
    )
