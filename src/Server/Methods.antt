-- ===== src/Server/Methods.antt =====
-- server/service.go: the methods of a receiver that are served, and their services.
pub mod Paths
pub mod Types
use myrpc.Base.{
  ℕ, Bytes, codes, beq, is_empty, List, [], ◌∷◌, ◌++◌, Option, none, some, Bool, true, false, not,
  ◌&&◌, ◌||◌, if◌then◌else◌, length, ◌==◌,
}
use myrpc.Common.Names.{is_upper}
use myrpc.Server.Slices.{Slice, Heap, append}
use myrpc.Server.Uri.{Urls, uri_encode}

-- `reflect.Type`: a pointer, or a type with its name and the path of its package.
pub data GoType : Type 0 where
  pointer : GoType → GoType
  plain : Bytes → Bytes → GoType

-- `reflect.Method`; the first of the ins is the receiver.
pub record Method : Type 0 where
  pub name : Bytes
  pub pkg_path : Bytes
  pub ins : List GoType
  pub outs : List GoType

-- `NormService`, without its plugins, its counter and its receiver.
pub record NormService : Type 0 where
  pub path : Bytes
  pub method : Bytes
  pub arg_type : GoType
  pub reply_type : GoType

-- `isExported`, of an ASCII name.
abbrev pub is_exported : Bytes → Bool
is_exported [] = false
is_exported (d ∷ _) = is_upper d

unfoldable pub is_exported_or_builtin_type : GoType → Bool
is_exported_or_builtin_type (pointer t) = is_exported_or_builtin_type t
is_exported_or_builtin_type (plain name pkg_path) = is_exported name || is_empty pkg_path

abbrev pub is_pointer : GoType → Bool
is_pointer (pointer _) = true
is_pointer (plain _ _) = false

-- `returnType == typeOfError`: the one type of that name without a package.
abbrev pub is_error_type : GoType → Bool
is_error_type (pointer _) = false
is_error_type (plain name pkg_path) = beq name (codes "error") && is_empty pkg_path

-- The tests on the arguments and on the result.
abbrev pub ins_suit : List GoType → Bool
ins_suit (receiver ∷ arg ∷ reply ∷ []) =
    is_exported_or_builtin_type arg && is_pointer reply && is_exported_or_builtin_type reply
ins_suit _ = false

abbrev pub outs_suit : List GoType → Bool
outs_suit (out ∷ []) = is_error_type out
outs_suit _ = false

-- The iteration of `suitableMethods`: `continue`, or the service of the method.
abbrev pub suit_of : Method → List GoType → List NormService
suit_of m (receiver ∷ arg ∷ reply ∷ []) =
    record { path = []; method = m.name; arg_type = arg; reply_type = reply } ∷ []
suit_of m _ = []

-- `suitableMethods`. A receiver's methods have different names, so none replaces another in the map,
-- and the list stands for the map in the order in which it is ranged over, which can be any.
unfoldable pub suitable_methods : List Method → List NormService
unfolding is_exported_or_builtin_type
suitable_methods [] = []
suitable_methods (m ∷ ms) =
    let rest = suitable_methods ms in
    if is_empty m.pkg_path && ins_suit m.ins && outs_suit m.outs
    then suit_of m m.ins ++ rest
    else rest

module _ (grow : ℕ → ℕ → ℕ) (urls : Urls) where
  -- The loop of `NewServices`.
  unfoldable pub new_each : List NormService → Slice → Heap → List NormService × Heap
  unfolding append uri_encode
  new_each [] segments h = ([], h)
  new_each (v ∷ vs) segments h =
      let (named, h') = append grow segments (v.method ∷ []) h in
      let (path, h'') = uri_encode urls [] named h' in
      let (rest, last) = new_each vs segments h'' in (record v { path = path } ∷ rest, last)

  -- `(*NormServiceBuilder).NewServices`.
  unfoldable pub new_services : List Method → Slice → Heap → List NormService × Heap
  unfolding suitable_methods new_each
  new_services ms segments h = new_each (suitable_methods ms) segments h

-- The type of `reflect.New(t)`, and that of `v.Elem()` for a value of type `t`; the Elem of another value
-- than a pointer panics.
abbrev pub new_of : GoType → GoType
new_of t = pointer t

abbrev pub elem_of : GoType → Option GoType
elem_of (pointer t) = some t
elem_of (plain _ _) = none

-- The type of the argument that `readRequest` makes for a service: a pointer to what its type points to,
-- or what is behind a pointer to its type.
unfoldable pub argument_made : GoType → Option GoType
argument_made (pointer t) = some (new_of t)
argument_made (plain name pkg_path) = elem_of (new_of (plain name pkg_path))

-- The type of the reply that `Call` makes.
unfoldable pub reply_made : GoType → Option GoType
reply_made (pointer t) = some (new_of t)
reply_made (plain name pkg_path) = elem_of (new_of (plain name pkg_path))

-- The types of the values that `Call` passes to the method's function, for a receiver of type `rcvr`.
unfoldable pub call_types : GoType → NormService → Option (List GoType)
unfolding argument_made reply_made
call_types rcvr v = elim (argument_made v.arg_type) [
  | none ↦ none
  | some argv ↦ elim (reply_made v.reply_type) [
    | none ↦ none
    | some replyv ↦ some (rcvr ∷ argv ∷ replyv ∷ [])
  ]
]
