-- ===== src/Client/Selector.antt =====
-- client/selector.go: the interface of a selector, over the state `S` that it keeps. An invoker is
-- known by a number.
use myrpc.Base.{Bytes, codes, ℕ, List, Option, none, some}
use myrpc.Common.Errors.{Error}

-- `SelectMode`.
pub data SelectMode : Type 0 where
  random_select round_robin weighted_round_robin weighted_icmp consistent_hash closest : SelectMode

-- `SelectMode.String`.
abbrev pub select_mode_string : SelectMode → Bytes
select_mode_string random_select = codes "RandomSelect"
select_mode_string round_robin = codes "RoundRobin"
select_mode_string weighted_round_robin = codes "WeightedRoundRobin"
select_mode_string weighted_icmp = codes "WeightedICMP"
select_mode_string consistent_hash = codes "ConsistentHash"
select_mode_string closest = codes "Closest"

-- What `Select` returns: an invoker or nil, and an error or nil.
pub record Selection : Type 0 where
  pub invoker : Option ℕ
  pub err : Option Error

pub record Selector (S : Type 0) : Type 0 where
  pub select : S → S × Selection
  pub list : S → List ℕ
  pub handle_failed : ℕ → S → S

-- Of an invoker and an error just one is there.
abbrev pub IsChosen : Option ℕ → Option Error → Type 0
IsChosen none none = ⊥
IsChosen none (some _) = Unit
IsChosen (some _) none = Unit
IsChosen (some _) (some _) = ⊥

-- A selector whose `Select` gives an invoker or an error, never both and never neither.
abbrev pub IsSound : {S : Type 0} → Selector S → Type 0
IsSound {S} sel = (s : S) → IsChosen (sel.select s).1.invoker (sel.select s).1.err
