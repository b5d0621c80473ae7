-- ===== src/Server/Register/Tests.antt =====
-- Tests.
-- A program that nests groups, and registers receivers below them.
use myrpc.Base.{
  beq, has_prefix, ℕ_discrete, if◌then◌else◌, ◌==◌, ℕ, ◌-◌, ◌*◌, Bytes, codes, List, [], ◌∷◌, ◌++◌,
  none, some, map, ◌≡◌, refl, All, arith,
}
use mathlib.Core.List.Perm
use myrpc.Common.Names.{snake_string, snake_from, to_lower, check_sname, name_matches}
use myrpc.Common.Sorting.{sort, insert_sorted, is_at_most}
use myrpc.Plugin.Container.{add, add_each, get_by_name, find_name}
use myrpc.Server.Hooks.{do_register}
use myrpc.Server.Slices.{Slice, Heap, new_heap, elements, allocate, append, map_in_place}
use myrpc.Server.Uri.{Urls, uri_encode}
use myrpc.Server.Methods.Types.{IsOf, suitable_methods-IsTyped}
use myrpc.Server.Methods.{
  GoType, pointer, plain, Method, suitable_methods, is_exported_or_builtin_type, new_each,
  new_services,
}
use myrpc.Server.Methods.Paths.{path_under, new_services_paths, spelled}
use myrpc.Server.Register.{
  Outcome, done, fatal, Registry, ServiceGroup, init, lookup, put, register, register_each,
  register_one, group,
}
use myrpc.Server.Register.Keys.{keys, paths}
use myrpc.Server.Register.Routes.{IsConsistent, register-IsConsistent, register_succeeds}
use myrpc.Server.Register.Groups.{group_shared, group_full}

-- Go doubles the capacity of a small slice.
abbrev doubling : ℕ → ℕ → ℕ
doubling c n = 2 * c - n

abbrev slashed : List Bytes → Bytes
slashed [] = []
slashed (s ∷ []) = s
slashed (s ∷ t ∷ ss) = s ++ codes "/" ++ slashed (t ∷ ss)

abbrev plain_urls : Urls
plain_urls = record { join = slashed; encode = λ q. []; string = λ p q. p }

abbrev word : GoType
word = plain (codes "string") []

-- `func (Arith) <name>(string, *string) error`.
abbrev method_named : Bytes → Method
method_named name = record {
  name = name;
  pkg_path = [];
  ins = plain (codes "Arith") (codes "main") ∷ word ∷ pointer word ∷ [];
  outs = plain (codes "error") [] ∷ [];
}

abbrev arith_methods : List Method
arith_methods =
    method_named (codes "MulTwo")
    ∷ record (method_named (codes "Wrong")) { outs = [] }
    ∷ method_named (codes "Add")
    ∷ []

-- One segment, in an array with two places to spare.
abbrev roomy : Slice × Heap
roomy = allocate (codes "Arith" ∷ []) ([] ∷ [] ∷ []) new_heap

paths_test :
    paths (new_services doubling plain_urls arith_methods roomy.0 roomy.1).0
    ≡ codes "/arith/mul_two" ∷ codes "/arith/add" ∷ []
unfolding new_services new_each suitable_methods is_exported_or_builtin_type append uri_encode
    map_in_place snake_string snake_from to_lower has_prefix beq ℕ_discrete
paths_test = refl

suitable_methods-IsTyped_example :
    All (IsOf (plain (codes "Arith") (codes "main")) arith_methods) (suitable_methods arith_methods)
suitable_methods-IsTyped_example =
    suitable_methods-IsTyped (plain (codes "Arith") (codes "main")) arith_methods
      ((_, refl), ((_, refl), ((_, refl), tt)))

new_services_paths_example :
    map (λ v. v.path) (new_services doubling plain_urls arith_methods roomy.0 roomy.1).0
    ≡ map (path_under plain_urls (codes "Arith" ∷ [])) (suitable_methods arith_methods)
unfolding ℕ_discrete
new_services_paths_example =
    new_services_paths doubling plain_urls arith_methods roomy.0 roomy.1 (omega arith, omega arith)

abbrev empty_server : Registry
empty_server = init new_heap []

abbrev done_or : {A : Type 0} → A → Outcome A → A
done_or a (done b) = b
done_or a (fatal _) = a

-- What the registration of the receiver gives.
abbrev registered : Registry
registered = done_or empty_server (
    register doubling plain_urls roomy.0 arith_methods (codes "Arith") [] []
      (record empty_server { heap = roomy.1 }))

routes_test : registered.routers ≡ codes "/arith/add" ∷ codes "/arith/mul_two" ∷ []
unfolding register register_each register_one new_services new_each suitable_methods
    is_exported_or_builtin_type append uri_encode map_in_place snake_string snake_from to_lower
    has_prefix beq do_register lookup put sort insert_sorted is_at_most ℕ_discrete
routes_test = refl

register-IsConsistent_example :
    let services = (new_services doubling plain_urls arith_methods roomy.0 roomy.1).0 in
    IsConsistent registered
    × (keys registered.services ≡ paths services)
    × All (λ s. lookup s.path registered.services ≡ some (s, [])) services
unfolding register register_each register_one new_services new_each suitable_methods
    is_exported_or_builtin_type append uri_encode map_in_place snake_string snake_from to_lower
    has_prefix beq do_register lookup put sort insert_sorted is_at_most ℕ_discrete
register-IsConsistent_example =
    register-IsConsistent doubling plain_urls roomy.0 arith_methods (codes "Arith") [] []
      (record empty_server { heap = roomy.1 }) registered (tt, Perm.rfl, tt) refl

register_succeeds_example :
    (r' : Registry) × (register doubling plain_urls roomy.0 arith_methods
        (codes "Arith")
        []
        []
        (record empty_server { heap = roomy.1 })
      ≡ done r')
unfolding register register_each register_one new_services new_each suitable_methods
    is_exported_or_builtin_type append uri_encode map_in_place snake_string snake_from to_lower
    has_prefix beq do_register lookup put sort insert_sorted is_at_most ℕ_discrete
register_succeeds_example =
    register_succeeds doubling plain_urls roomy.0 arith_methods (codes "Arith") [] []
      (record empty_server { heap = roomy.1 }) (λ path metadata. refl) (λ path metadata. refl)
      (λ e. cc) (((λ e. cc), tt), (tt, tt))

-- A group of three segments in an array of four places, and one of four that fills its array.
abbrev four : ℕ → List Bytes
four i = if i == 1 then codes "a" ∷ codes "b" ∷ codes "c" ∷ codes "d" ∷ [] else []

abbrev nested : ServiceGroup × Heap
nested = (
  record { prefixes = record { array = 1; len = 3 }; container = none },
  record { arrays = four; next = 2 },
)

abbrev filled : ServiceGroup
filled = record { prefixes = record { array = 1; len = 4 }; container = none }

abbrev made : ServiceGroup → Bytes → Heap → ServiceGroup × Heap
made g prefix h = done_or (g, h) (group doubling plain_urls g prefix [] h)

abbrev once : ServiceGroup × Heap
once = made nested.0 (codes "X") nested.1

abbrev twice : ServiceGroup × Heap
twice = made nested.0 (codes "Y") once.1

group_shared_example :
    (once.0.prefixes ≡ twice.0.prefixes)
    × (elements twice.1 once.0.prefixes
        ≡ spelled (elements nested.1 nested.0.prefixes ++ codes "Y" ∷ []))
unfolding group check_sname add add_each get_by_name find_name name_matches append uri_encode
    map_in_place snake_string snake_from to_lower has_prefix beq ℕ_discrete
group_shared_example =
    group_shared doubling plain_urls nested.0 once.0 twice.0 (codes "X") (codes "Y") [] [] nested.1
      once.1 twice.1 (omega arith) (omega arith) refl refl

abbrev deeper : ServiceGroup × Heap
deeper = made filled (codes "E") nested.1

group_full_example :
    (elements deeper.1 deeper.0.prefixes
      ≡ spelled (elements nested.1 filled.prefixes ++ codes "E" ∷ []))
    × (elements deeper.1 nested.0.prefixes ≡ elements nested.1 nested.0.prefixes)
unfolding group check_sname add add_each get_by_name find_name name_matches append uri_encode
    map_in_place snake_string snake_from to_lower has_prefix beq ℕ_discrete
group_full_example =
    group_full doubling plain_urls filled deeper.0 (codes "E") [] nested.1 deeper.1 nested.0 refl
      (omega arith) (omega arith) refl
