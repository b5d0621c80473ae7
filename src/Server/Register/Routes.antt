-- ===== src/Server/Register/Routes.antt =====
-- What `register` does to the services and the routers.
use myrpc.Base.{
  ℕ, Bytes, List, [], ◌∷◌, ◌++◌, Option, none, some, ◌≡◌, ◌≢◌, refl, sym, ap, ◌∙◌, subst, All,
  append_assoc, append-nil,
}
use mathlib.Core.List.{Perm}
use mathlib.Core.List.Perm
use myrpc.Common.Errors.{Error}
use myrpc.Common.Sorting.{sort, IsSorted, sort-IsSorted, sort-perm}
use myrpc.Server.Context.{Plugin}
use myrpc.Server.Hooks.{do_register}
use myrpc.Server.Slices.{Slice}
use myrpc.Server.Uri.{Urls}
use myrpc.Server.Methods.{Method, NormService, new_services}
use myrpc.Server.Register.{
  Outcome, done, fatal, Registered, Registry, lookup, present_errors, hook_errors, register_one,
  register_each, settled, served, register,
}
use myrpc.Server.Register.Keys.{
  Distinct, keys, paths, Distinct-append, Distinct-others, lookup-absent, absent-lookup, put-keys,
  lookup-put, lookup-put_other,
}

append_empty : (xs ys : List Error) → xs ++ ys ≡ [] → (xs ≡ []) × (ys ≡ [])
append_empty [] ys h = (refl, h)
append_empty (x ∷ xs) ys h = cc

present_empty : (path : Bytes) (o : Option Registered) → present_errors path o ≡ [] → o ≡ none
present_empty path none h = refl
present_empty path (some s) h = cc

-- An iteration without an error found no service at its path.
one-absent :
    (s : NormService) (metadata : List Bytes) (p : List Plugin) (r : Registry)
    → (register_one s metadata p r).0 ≡ []
    → lookup s.path r.services ≡ none
unfolding register_one
one-absent s metadata p r h =
    let present = present_errors s.path (lookup s.path r.services) in
    let first = hook_errors (do_register s.path metadata r.plugins) in
    present_empty s.path (lookup s.path r.services)
      (append_empty present first
        (append_empty (present ++ first) (hook_errors (do_register s.path metadata p)) h).0).0

module _ (p : List Plugin) where
  each-routers :
      (ss : List NormService) (metadata : List Bytes) (r : Registry)
      → (register_each ss metadata p r).1.routers ≡ r.routers ++ paths ss
  unfolding register_each register_one
  each-routers [] metadata r = sym (append-nil r.routers)
  each-routers (s ∷ ss) metadata r =
      let metadata' = metadata ++ r.base_metadata ∷ [] in
      each-routers ss metadata' (register_one s metadata' p r).1
      ∙ append_assoc r.routers (s.path ∷ []) (paths ss)

  -- What the loop does without an error.
  record Extends (ss : List NormService) (r r' : Registry) : Type 0 where
    keys_after : keys r'.services ≡ keys r.services ++ paths ss
    distinct : Distinct (keys r'.services)
    found : All (λ s. lookup s.path r'.services ≡ some (s, p)) ss

  each-keeps :
      (ss : List NormService) (metadata : List Bytes) (r : Registry) (k : Bytes) (x : Registered)
      → (register_each ss metadata p r).0 ≡ []
      → lookup k r.services ≡ some x
      → lookup k (register_each ss metadata p r).1.services ≡ some x
  unfolding register_each register_one
  each-keeps [] metadata r k x clean found = found
  each-keeps (s ∷ ss) metadata r k x clean found =
      let metadata' = metadata ++ r.base_metadata ∷ [] in
      let one = register_one s metadata' p r in
      let (clean_one, clean_rest) =
        append_empty one.0 (register_each ss metadata' p one.1).0 clean in
      each-keeps ss metadata' one.1 k x clean_rest
        (lookup-put_other k s.path (s, p) x r.services (one-absent s metadata' p r clean_one) found)

  each-Extends :
      (ss : List NormService) (metadata : List Bytes) (r : Registry)
      → (register_each ss metadata p r).0 ≡ []
      → Distinct (keys r.services)
      → Extends ss r (register_each ss metadata p r).1
  unfolding register_each register_one
  each-Extends [] metadata r clean distinct = record {
    keys_after = sym (append-nil (keys r.services));
    distinct = distinct;
    found = tt;
  }
  each-Extends (s ∷ ss) metadata r clean distinct =
      let metadata' = metadata ++ r.base_metadata ∷ [] in
      let one = register_one s metadata' p r in
      let (clean_one, clean_rest) =
        append_empty one.0 (register_each ss metadata' p one.1).0 clean in
      let absent = one-absent s metadata' p r clean_one in
      let added = put-keys s.path (s, p) r.services absent in
      let apart = subst Distinct (sym added) (
        Distinct-append (keys r.services) s.path distinct
          (lookup-absent s.path r.services absent)) in
      let rest = each-Extends ss metadata' one.1 clean_rest apart in
      record {
        keys_after =
            rest.keys_after
            ∙ ap (λ ks. ks ++ paths ss) added
            ∙ append_assoc (keys r.services) (s.path ∷ []) (paths ss);
        distinct = rest.distinct;
        found = (
          each-keeps ss metadata' one.1 s.path (s, p) clean_rest
              (lookup-put s.path (s, p) r.services),
          rest.found,
        );
      }

settled_done :
    (x : List Error × Registry) (r' : Registry)
    → settled x ≡ done r'
    → (x.0 ≡ []) × (record x.1 { routers = sort x.1.routers } ≡ r')
settled_done ([], r) r' h = (refl, ap (outcome_or r') h)
  where
    outcome_or : Registry → Outcome Registry → Registry
    outcome_or r (done r') = r'
    outcome_or r (fatal _) = r
settled_done (e ∷ errs, r) r' h = cc

-- The services have different paths, and the routers are their paths in order.
abbrev pub IsConsistent : Registry → Type 0
IsConsistent r = Distinct (keys r.services) × Perm r.routers (keys r.services) × IsSorted r.routers

served_done :
    (text : Bytes) (ss : List NormService) (metadata : List Bytes) (p : List Plugin)
    (r r' : Registry)
    → served text ss metadata p r ≡ done r'
    → settled (register_each ss metadata p r) ≡ done r'
served_done text [] metadata p r r' h = cc
served_done text (s ∷ ss) metadata p r r' h = h

-- Where the services have different paths and the routers are these paths in order, that is so again
-- after every register that does not end the program; then the paths of the receiver's methods have
-- been added to those that were there, and each leads to its service with the plugins that were given.
pub register-IsConsistent :
    (grow : ℕ → ℕ → ℕ) (urls : Urls) (segments : Slice) (ms : List Method) (text : Bytes)
    (p : List Plugin) (metadata : List Bytes) (r r' : Registry)
    → IsConsistent r
    → register grow urls segments ms text p metadata r ≡ done r'
    → let services = (new_services grow urls ms segments r.heap).0 in
      IsConsistent r'
      × (keys r'.services ≡ keys r.services ++ paths services)
      × All (λ s. lookup s.path r'.services ≡ some (s, p)) services
unfolding register
register-IsConsistent grow urls segments ms text p metadata r r' (distinct, listed, sorted) h =
    let services = (new_services grow urls ms segments r.heap).0 in
    let r0 = record r { heap = (new_services grow urls ms segments r.heap).1 } in
    let x = register_each services metadata p r0 in
    let (clean, after) = settled_done x r' (served_done text services metadata p r0 r' h) in
    let extended = each-Extends p services metadata r0 clean distinct in
    let routers = each-routers p services metadata r0 in
    let all = Perm.trans (sort-perm x.1.routers) (
      subst (λ a. Perm a (keys x.1.services)) (sym routers)
        (subst (λ b. Perm (r.routers ++ paths services) b) (sym extended.keys_after)
          (Perm.append_right (paths services) listed))) in
    let result : IsConsistent (record x.1 { routers = sort x.1.routers })
        × (keys x.1.services ≡ keys r.services ++ paths services)
        × All (λ s. lookup s.path x.1.services ≡ some (s, p)) services =
      ((extended.distinct, all, sort-IsSorted x.1.routers), extended.keys_after, extended.found) in
    subst
      (λ r'.
        IsConsistent r'
        × (keys r'.services ≡ keys r.services ++ paths services)
        × All (λ s. lookup s.path r'.services ≡ some (s, p)) services)
      after result

-- No plugin refuses a registration.
abbrev pub IsQuiet : List Plugin → Type 0
IsQuiet ps = (path : Bytes) (metadata : List Bytes) → do_register path metadata ps ≡ none

each-quiet :
    (p : List Plugin) (ss : List NormService) (metadata : List Bytes) (r : Registry)
    → IsQuiet r.plugins
    → IsQuiet p
    → Distinct (keys r.services ++ paths ss)
    → (register_each ss metadata p r).0 ≡ []
unfolding register_each register_one
each-quiet p [] metadata r quiet quiet_p distinct = refl
each-quiet p (s ∷ ss) metadata r quiet quiet_p distinct =
    let metadata' = metadata ++ r.base_metadata ∷ [] in
    let one = register_one s metadata' p r in
    let absent =
      absent-lookup s.path r.services
        (Distinct-others (keys r.services) (paths ss) s.path distinct) in
    let apart =
      subst Distinct
        (sym (append_assoc (keys r.services) (s.path ∷ []) (paths ss))
          ∙ ap (λ ks. ks ++ paths ss) (sym (put-keys s.path (s, p) r.services absent)))
        distinct in
    rw (absent, quiet s.path metadata', quiet_p s.path metadata')
      (each-quiet p ss metadata' one.1 quiet quiet_p apart)

settled_clean :
    (x : List Error × Registry)
    → x.0 ≡ []
    → settled x ≡ done (record x.1 { routers = sort x.1.routers })
settled_clean (errs, r) h = rw h refl

served_some :
    (text : Bytes) (ss : List NormService) (metadata : List Bytes) (p : List Plugin) (r : Registry)
    → ss ≢ []
    → served text ss metadata p r ≡ settled (register_each ss metadata p r)
served_some text [] metadata p r some_served = absurd (some_served refl)
served_some text (s ∷ ss) metadata p r some_served = refl

-- Where a receiver has a method that is served, the paths of its methods are different from each
-- other and from those of the services, and no plugin refuses, register succeeds.
pub register_succeeds :
    (grow : ℕ → ℕ → ℕ) (urls : Urls) (segments : Slice) (ms : List Method) (text : Bytes)
    (p : List Plugin) (metadata : List Bytes) (r : Registry)
    → IsQuiet r.plugins
    → IsQuiet p
    → (new_services grow urls ms segments r.heap).0 ≢ []
    → Distinct (keys r.services ++ paths (new_services grow urls ms segments r.heap).0)
    → (r' : Registry) × (register grow urls segments ms text p metadata r ≡ done r')
unfolding register
register_succeeds grow urls segments ms text p metadata r quiet quiet_p some_served distinct =
    let services = (new_services grow urls ms segments r.heap).0 in
    let r0 = record r { heap = (new_services grow urls ms segments r.heap).1 } in
    let x = register_each services metadata p r0 in
    (
      record x.1 { routers = sort x.1.routers },
      served_some text services metadata p r0 some_served
          ∙ settled_clean x (each-quiet p services metadata r0 quiet quiet_p distinct),
    )
