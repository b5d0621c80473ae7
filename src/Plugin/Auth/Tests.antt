-- ===== src/Plugin/Auth/Tests.antt =====
-- Tests.
-- A formator whose queries are only an authorization, behind a question mark.
use myrpc.Base.{
  Bytes, codes, beq, List, [], ◌∷◌, ◌++◌, Option, none, some, if◌then◌else◌, ◌≡◌, refl, ◌&&◌,
}
use myrpc.Common.Errors.{Error, message}
use myrpc.Server.Context.{Query}
use myrpc.Plugin.Auth.{
  Formator, query_add, query_get, split, auth_key, authorized, crashed,
  new_server_authorization_plugin, new_client_authorization_plugin, pre_write_request,
  pre_read_request_body,
}
use myrpc.Plugin.Auth.Arrival.{authorization_arrives}

abbrev parse_parts : List Bytes → Bytes × Option Query × Option Error
parse_parts ([] ∷ []) = ([], none, none)
parse_parts (p ∷ []) = (p, some [], none)
parse_parts (p ∷ v ∷ _) = (p, some ((auth_key, v ∷ []) ∷ []), none)
parse_parts [] = ([], none, none)

abbrev marked : Formator
marked = record {
  uri_encode = λ q p. p ++ codes "?" ++ query_get auth_key q;
  uri_parse = λ uri. parse_parts (split b'?' uri);
}

abbrev check : Bytes → Bytes → Bytes → Option Error
check path tag token =
    if beq tag (codes "bearer") && beq token (codes "secret") then none else some (message path)

-- An empty service method has a nil query.
empty_test : pre_write_request marked (new_client_authorization_plugin [] []) [] ≡ crashed
unfolding pre_write_request split
empty_test = refl

authorization_arrives_example :
    (pre_write_request marked
        (new_client_authorization_plugin (codes "bearer") (codes "secret"))
        (codes "/echo")
      ≡ authorized (codes "/echo?bearer" ++ 31 ∷ codes "secret"))
    × (pre_read_request_body
          (new_server_authorization_plugin (some check))
          (codes "/echo")
          ((auth_key, (codes "bearer" ++ 31 ∷ codes "secret") ∷ []) ∷ [])
        ≡ check (codes "/echo") (codes "bearer") (codes "secret"))
unfolding split query_get query_add beq
authorization_arrives_example =
    authorization_arrives marked check (codes "bearer") (codes "secret") (codes "/echo")
      (codes "/echo") (codes "/echo") []
      ((auth_key, (codes "bearer" ++ 31 ∷ codes "secret") ∷ []) ∷ [])
      ((λ e. cc), ((λ e. cc), ((λ e. cc), ((λ e. cc), ((λ e. cc), ((λ e. cc), tt))))))
      ((λ e. cc), ((λ e. cc), ((λ e. cc), ((λ e. cc), ((λ e. cc), ((λ e. cc), tt)))))) refl tt refl
      refl
