-- ===== src/Client/Direct.antt =====
-- client/selector/direct.go: DirectSelector. `NewInvokerFunc` dials, which is not the program's: what
-- the dials give is the parameter `dial`, an error or none for an invoker, which takes a new number.
use myrpc.Base.{ℕ, suc, List, [], ◌∷◌, Option, none, some, Option-cases, inl, inr}
use myrpc.Common.Errors.{Error}
use myrpc.Client.Selector.{Selection, Selector, SelectMode, IsChosen, IsSound}

pub record DirectSelector : Type 0 where
  pub invoker : Option ℕ
  -- How often it dialled; the invoker of a dial is known by the number of dials before.
  pub dials : ℕ
  -- The invokers whose `Close` was called.
  pub closed : List ℕ

-- `SetSelectMode` does nothing.
abbrev pub set_select_mode : SelectMode → DirectSelector → DirectSelector
set_select_mode _ s = s

-- `List`.
abbrev pub list : DirectSelector → List ℕ
list s = elim s.invoker [ none ↦ [] | some i ↦ i ∷ [] ]

-- `HandleFailed` closes the invoker that it is given and forgets its own.
unfoldable pub handle_failed : ℕ → DirectSelector → DirectSelector
handle_failed i s = record s { invoker = none; closed = i ∷ s.closed }

module _ (dial : ℕ → Option Error) where
  abbrev select_new : Option Error → DirectSelector → DirectSelector × Selection
  select_new none s = (
    record s { invoker = some s.dials; dials = suc s.dials },
    record { invoker = some s.dials; err = none },
  )
  select_new (some e) s =
      (record s { invoker = none; dials = suc s.dials }, record { invoker = none; err = some e })

  abbrev select_from : Option ℕ → DirectSelector → DirectSelector × Selection
  select_from (some i) s = (s, record { invoker = some i; err = none })
  select_from none s = select_new (dial s.dials) s

  -- `Select`.
  unfoldable pub select : DirectSelector → DirectSelector × Selection
  select s = select_from s.invoker s

  abbrev pub direct : Selector DirectSelector
  direct = record { select = select; list = list; handle_failed = handle_failed }

  select_from-IsChosen :
      (o : Option ℕ) (s : DirectSelector)
      → IsChosen (select_from o s).1.invoker (select_from o s).1.err
  select_from-IsChosen (some i) s = tt
  select_from-IsChosen none s = elim (Option-cases (dial s.dials)) [
    | inl reached ↦ rw reached tt
    | inr (e, refused) ↦ rw refused tt
  ]

  pub direct-IsSound : IsSound direct
  unfolding select
  direct-IsSound s = select_from-IsChosen s.invoker s
