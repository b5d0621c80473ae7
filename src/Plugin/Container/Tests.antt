-- ===== src/Plugin/Container/Tests.antt =====
-- Runs of the plugin container, with a plugin that is its own name.
use myrpc.Common.Errors.{format, Error}
use myrpc.Base.{beq, Bytes, codes, [], ◌∷◌, none, some, ◌≡◌, refl}
use myrpc.Plugin.Container.{add}

abbrev own_name : Bytes → Bytes
own_name n = n

abbrev auth : Bytes
auth = codes "auth"

abbrev codec : Bytes
codec = codes "codec"

add_twice : add own_name none (some auth ∷ some codec ∷ some auth ∷ []) ≡ (
  some (auth ∷ codec ∷ []),
  some (Error.message (codes "Cannot use the same plugin again, 'auth' is already exists")),
)
unfolding add beq format
add_twice = refl
