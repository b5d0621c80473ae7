-- ===== src/Server/Register.antt =====
-- The registration of services: Group, Register, NamedRegister and Routers of server/server.go, with
-- the default builder of services. Where the code calls `log.Fatal`, which ends the program, the model
-- gives its text.
pub mod Keys
pub mod Routes
pub mod Groups
mod Tests
use myrpc.Base.{
  ℕ, suc, Bytes, codes, beq, List, [], ◌∷◌, ◌++◌, Option, none, some, is_some, if◌then◌else◌, map,
  length,
}
use myrpc.Common.Errors.{Error, message, error_text, new_error, format}
use myrpc.Common.Names.{check_sname}
use myrpc.Common.Sorting.{sort}
use myrpc.Plugin.Container.{elements, add}
use myrpc.Server.Context.{Plugin}
use myrpc.Server.Hooks.{do_register, multi_error}
use myrpc.Server.Slices.{Slice, Heap, nil, allocate, append}
use myrpc.Server.Uri.{Urls, uri_encode}
use myrpc.Server.Methods.{Method, NormService, new_services}

pub data Outcome (A : Type 0) : Type 0 where
  done : A → Outcome A
  fatal : Bytes → Outcome A

-- A service with its container of plugins.
abbrev pub Registered : Type 0
Registered = NormService × List Plugin

-- What the registration reads and writes of a Server, with the arrays of its path segments.
pub record Registry : Type 0 where
  pub heap : Heap
  pub services : List (Bytes × Registered)
  pub routers : List Bytes
  pub base_metadata : Bytes
  pub plugins : List Plugin

-- A nil container is `none`.
pub record ServiceGroup : Type 0 where
  pub prefixes : Slice
  pub container : Option (List Plugin)

-- `init`, with the heap of the program.
abbrev pub init : Heap → List Plugin → Registry
init h plugins = record {
  heap = h;
  services = [];
  routers = [];
  base_metadata = [];
  plugins = plugins;
}

abbrev pub set_base_metadata : Bytes → Registry → Registry
set_base_metadata metadata r = record r { base_metadata = metadata }

-- `serviceMap[path]`, and `serviceMap[path] = service`.
unfoldable pub lookup : Bytes → List (Bytes × Registered) → Option Registered
lookup path [] = none
lookup path ((k, s) ∷ services) =
    let rest = lookup path services in if beq k path then some s else rest

unfoldable pub put : Bytes → Registered → List (Bytes × Registered) → List (Bytes × Registered)
put path s [] = (path, s) ∷ []
put path s ((k, s') ∷ services) =
    let rest = put path s services in if beq k path then (path, s) ∷ services else (k, s') ∷ rest

abbrev pub err_service_already_exists : Bytes
err_service_already_exists = codes "Cannot use the same service again, '%s' is already exists"

abbrev pub rpc_text : Bytes → Bytes
rpc_text text = codes "rpc: " ++ text

-- An error of plugins, by its text.
abbrev pub hook_errors : Option Error → List Error
hook_errors none = []
hook_errors (some e) = new_error (error_text e) ∷ []

abbrev pub present_errors : Bytes → Option Registered → List Error
present_errors path none = []
present_errors path (some _) = message (format err_service_already_exists (path ∷ [])) ∷ []

-- An iteration of the loop of `register`: its errors and the state.
unfoldable pub register_one :
    NormService → List Bytes → List Plugin → Registry → List Error × Registry
unfolding lookup put do_register format
register_one s metadata p r = (
  present_errors s.path (lookup s.path r.services)
      ++ hook_errors (do_register s.path metadata r.plugins)
      ++ hook_errors (do_register s.path metadata p),
  record r { routers = r.routers ++ s.path ∷ []; services = put s.path (s, p) r.services },
)

-- The loop, which appends the base metadata in every iteration.
unfoldable pub register_each :
    List NormService → List Bytes → List Plugin → Registry → List Error × Registry
unfolding register_one
register_each [] metadata p r = ([], r)
register_each (s ∷ ss) metadata p r =
    let metadata' = metadata ++ r.base_metadata ∷ [] in
    let (errs, r') = register_one s metadata' p r in
    let (rest, last) = register_each ss metadata' p r' in (errs ++ rest, last)

-- The end of `register`.
abbrev pub settled : List Error × Registry → Outcome Registry
settled (e ∷ errs, r) = fatal (rpc_text (error_text (multi_error (e ∷ errs))))
settled ([], r) = done (record r { routers = sort r.routers })

-- The test that some method is served.
abbrev pub served :
    Bytes → List NormService → List Bytes → List Plugin → Registry → Outcome Registry
served text [] metadata p r =
    fatal (rpc_text (codes "can not register invalid service: '" ++ text ++ codes "'"))
served text (s ∷ ss) metadata p r = settled (register_each (s ∷ ss) metadata p r)

module _ (grow : ℕ → ℕ → ℕ) (urls : Urls) where
  -- `(*Server).register`. A receiver is its methods, and its text by `reflect`.
  unfoldable pub register :
      Slice → List Method → Bytes → List Plugin → List Bytes → Registry → Outcome Registry
  unfolding new_services register_each multi_error sort
  register segments ms text p metadata r =
      let (services, h) = new_services grow urls ms segments r.heap in
      served text services metadata p (record r { heap = h })

  -- `(*Server).NamedRegister`; Register calls it with the name of the receiver's type.
  unfoldable pub named_register :
      Bytes → List Method → Bytes → List Bytes → Registry → Outcome Registry
  unfolding check_sname register
  named_register name ms text metadata r = elim (check_sname name) [
    | some e ↦ fatal (rpc_text (error_text e))
    | none ↦
        let (segments, h) = allocate (name ∷ []) [] r.heap in
        register segments ms text [] metadata (record r { heap = h })
  ]

  -- `(*ServiceGroup).NamedRegister`.
  unfoldable pub group_named_register :
      ServiceGroup → Bytes → List Method → Bytes → List Bytes → Registry → Outcome Registry
  unfolding check_sname register append
  group_named_register g name ms text metadata r = elim (check_sname name) [
    | some e ↦ fatal (rpc_text (error_text e))
    | none ↦
        let (segments, h) = append grow g.prefixes (name ∷ []) r.heap in
        register segments ms text (elements g.container) metadata (record r { heap = h })
  ]

  -- The container of a group's own plugins: those of its parent and those that are given.
  abbrev pub group_container :
      Option (List Plugin) → List (Option Plugin) → Option (List Plugin) × Option Error
  group_container container plugins =
      let (inherited, _) = add (λ p. p.name) none (map some (elements container)) in
      add (λ p. p.name) inherited plugins

  -- `(*ServiceGroup).Group`, which encodes its path for the log.
  abbrev pub group_made :
      Slice → Option (List Plugin) × Option Error → Heap → Bytes → Outcome (ServiceGroup × Heap)
  group_made prefixes (container, some e) h prefix = fatal (rpc_text (error_text e))
  group_made prefixes (container, none) h prefix =
      let (segments, h') = append grow prefixes (prefix ∷ []) h in
      let (path, h'') = uri_encode urls [] segments h' in
      done (record { prefixes = segments; container = container }, h'')

  unfoldable pub group :
      ServiceGroup → Bytes → List (Option Plugin) → Heap → Outcome (ServiceGroup × Heap)
  unfolding check_sname append uri_encode
  group g prefix plugins h = elim (check_sname prefix) [
    | some e ↦ fatal (rpc_text (error_text e))
    | none ↦ group_made g.prefixes (group_container g.container plugins) h prefix
  ]

  -- `(*Server).Group`.
  unfoldable pub server_group : Bytes → List (Option Plugin) → Heap → Outcome (ServiceGroup × Heap)
  unfolding group
  server_group prefix plugins h =
      group (record { prefixes = nil; container = none }) prefix plugins h
