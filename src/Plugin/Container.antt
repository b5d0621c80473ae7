-- ===== src/Plugin/Container.antt =====
-- PluginContainer. `none` is a nil slice, and a nil plugin.
pub mod Laws
mod Tests
use myrpc.Base.{
  ℕ, zero, suc, Bytes, codes, beq, is_empty, List, [], ◌∷◌, ◌++◌, Option, none, some, Bool, true,
  false, not, ◌&&◌, if◌then◌else◌, is_some,
}
use myrpc.Common.Errors.{Error, message, format, return_error}

abbrev pub err_plugin_is_nil : Bytes
err_plugin_is_nil = codes "The plugin cannot be nil!"

abbrev pub err_plugin_already_exists : Bytes
err_plugin_already_exists = codes "Cannot use the same plugin again, '%s' is already exists"

abbrev pub err_plugin_remove_no_plugins : Bytes
err_plugin_remove_no_plugins =
    codes "No plugins are registed yet, you cannot remove a plugin from an empty list!"

abbrev pub err_plugin_remove_empty_name : Bytes
err_plugin_remove_empty_name = codes "Plugin with an empty name cannot be removed"

abbrev pub err_plugin_remove_not_found : Bytes
err_plugin_remove_not_found = codes "Cannot remove a plugin which doesn't exists"

-- `p.Plugins` as a range loop sees it: a nil slice has no elements.
abbrev pub elements {ℓ} : {P : Type ℓ} → Option (List P) → List P
elements none = []
elements (some ps) = ps

module _ {ℓ} {P : Type ℓ} (name : P → Bytes) where
  -- The loop of `GetByName`.
  unfoldable pub find_name : Bytes → List P → Option P
  find_name n [] = none
  find_name n (p ∷ ps) = if beq (name p) n then some p else find_name n ps

  unfoldable pub get_by_name : Option (List P) → Bytes → Option P
  unfolding find_name
  get_by_name c n = find_name n (elements c)

  -- The loop of `Add`, which stops at the first plugin that it refuses.
  unfoldable pub add_each : List P → List (Option P) → List P × Option Error
  unfolding get_by_name
  add_each ps [] = (ps, none)
  add_each ps (none ∷ _) = (ps, some (message err_plugin_is_nil))
  add_each ps (some p ∷ rest) =
      let added = add_each (ps ++ p ∷ []) rest in
      if not (is_empty (name p)) && is_some (get_by_name (some ps) (name p))
      then (ps, some (message (format err_plugin_already_exists (name p ∷ []))))
      else added

  unfoldable pub add : Option (List P) → List (Option P) → Option (List P) × Option Error
  unfolding add_each
  add c plugins = let (ps, err) = add_each (elements c) plugins in (some ps, err)

  -- The index that the loop of `Remove` stops at; `none` stands for -1.
  pub index_of : Bytes → List P → Option ℕ
  index_of n [] = none
  index_of n (p ∷ ps) =
      if beq (name p) n
      then some zero
      else elim (index_of n ps) [ none ↦ none | some i ↦ some (suc i) ]

  -- `append(ps[:i], ps[i+1:]...)`.
  pub remove_at : ℕ → List P → List P
  remove_at i [] = []
  remove_at zero (_ ∷ ps) = ps
  remove_at (suc i) (p ∷ ps) = p ∷ remove_at i ps

  pub remove_found : List P → Option ℕ → Option (List P) × Option Error
  unfolding remove_at return_error
  remove_found ps none = (some ps, some (return_error err_plugin_remove_not_found))
  remove_found ps (some i) = (some (remove_at i ps), none)

  pub remove : Option (List P) → Bytes → Option (List P) × Option Error
  unfolding remove_found index_of
  remove none n = (none, some (return_error err_plugin_remove_no_plugins))
  remove (some ps) n =
      if is_empty n
      then (some ps, some (return_error err_plugin_remove_empty_name))
      else remove_found ps (index_of n ps)
