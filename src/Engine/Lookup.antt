-- ===== src/Engine/Lookup.antt =====
-- src/ioproxy/Engine.cpp, `getIOHandler`: the first handler whose name is the same up to case.
pub mod Spec
use ioproxy.Base.{
  ℕ, ◌+◌, String, Bool, List, [], ◌∷◌, str_eq, if◌then◌else◌, Expected, ok, err, cannot_find_io,
}
use ioproxy.Handler.{Handler}

-- `compare(id, Qt::CaseInsensitive) == 0` compares what Qt's case folding makes of the two texts.
abbrev pub same_id : (String → String) → String → String → Bool
same_id fold_case a b = str_eq (fold_case a) (fold_case b)

module _ {S : Type 0} (fold_case : String → String) where
  unfoldable pub find_from : ℕ → List (Handler S) → String → Expected ℕ
  find_from i [] id = err (cannot_find_io id)
  find_from i (h ∷ hs) id =
      let rest = find_from (i + 1) hs id in
      if same_id fold_case h.unique_name id then ok i else rest

  -- The position of the handler in the list.
  unfoldable pub get_io_handler : List (Handler S) → String → Expected ℕ
  unfolding find_from
  get_io_handler hs id = find_from 0 hs id
