-- ===== src/Server/Store.antt =====
-- The data store of a context, `Store` of server/server_context.go. Keys and values, which are of any
-- type in the program, are byte strings here.
use myrpc.Base.{
  Bytes, beq, beq_iff, List, [], ◌∷◌, Option, none, some, Bool, true, if◌then◌else◌, is_some, ◌≡◌,
  refl, arith,
}

abbrev pub Store : Type 0
Store = List (Bytes × Bytes)

-- `Get`; a missing key gives nil.
unfoldable pub get : Bytes → Store → Option Bytes
get key [] = none
get key ((k, v) ∷ store) = if beq k key then some v else get key store

-- `Set`.
unfoldable pub set : Bytes → Bytes → Store → Store
set key val [] = (key, val) ∷ []
set key val ((k, v) ∷ store) = if beq k key then (key, val) ∷ store else (k, v) ∷ set key val store

-- `Has`.
unfoldable pub has : Bytes → Store → Bool
unfolding get
has key store = is_some (get key store)

get-set_at :
    (key other val : Bytes) (store : Store)
    → get other (set key val store) ≡ (if beq key other then some val else get other store)
unfolding get set
get-set_at key other val [] = refl
get-set_at key other val ((k, v) ∷ store) =
    ground
      (arith, beq_iff k key, beq_iff k other, beq_iff key other, get-set_at key other val store)

-- After a Set, Get gives the value for its key, and Has is true of it; for every other key both
-- give what they gave before.
pub get-set :
    (key other val : Bytes) (store : Store)
    → (get other (set key val store) ≡ (if beq key other then some val else get other store))
      × (has other (set key val store) ≡ (if beq key other then true else has other store))
unfolding has
get-set key other val store =
    (get-set_at key other val store, ground (arith, get-set_at key other val store))
