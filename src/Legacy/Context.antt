-- ===== src/Legacy/Context.antt =====
-- legacy/IOHandler.hpp, IOHandler.cpp and AppContext.hpp: the handlers of an older application, and where
-- the data of their IOs goes. A handler is named by its position, which no operation changes. The context
-- owns the handlers, so that a weak pointer to one of them can be locked exactly if it is there.
use ioproxy.Base.{
  ℕ, ◌+◌, String, Option, none, some, List, [], ◌∷◌, ◌++◌, get_elem?, if◌then◌else◌, str_eq,
}
use ioproxy.Io.{DataPack}
use ioproxy.Engine.Signals.{at}

-- The handler of an IO, with its name and what it was created with, and its targets.
pub record IoHandler (O : Type 0) : Type 0 where
  pub unique_name : String
  pub options : O
  pub targets : List ℕ

pub record AppContext (O : Type 0) : Type 0 where
  pub handlers : List (IoHandler O)

module _ {O : Type 0} where
  -- `std::find_if` over the names.
  unfoldable pub find_named : String → List (IoHandler O) → Option ℕ
  find_named id [] = none
  find_named id (h ∷ hs) =
      let below = find_named id hs in
      if str_eq id h.unique_name then some 0 else elim below [ none ↦ none | some i ↦ some (i + 1) ]

  unfoldable pub find_handler_by_id : String → AppContext O → Option ℕ
  unfolding find_named
  find_handler_by_id id c = find_named id c.handlers

  unfoldable pub add : IoHandler O → AppContext O → AppContext O
  add h c = record c { handlers = c.handlers ++ (h ∷ []) }

  -- `src->addTarget(dst)`
  unfoldable pub add_target : ℕ → ℕ → AppContext O → AppContext O
  add_target src dst c = record c {
    handlers = at src (λ h. record h { targets = h.targets ++ (dst ∷ []) }) c.handlers;
  }

  module _ {W : Type 0} (write_data : ℕ → DataPack → W → W) where
    -- The loop over the targets, where `write_data` is `writeData` of the IO at a position.
    unfoldable pub write_targets : List ℕ → AppContext O → DataPack → W → W
    write_targets [] c pack w = w
    write_targets (t ∷ targets) c pack w =
        write_targets targets c pack
          (elim (get_elem? c.handlers t) [ none ↦ w | some _ ↦ write_data t pack w ])

    -- `onNewData` of the handler at a position.
    unfoldable pub on_new_data : ℕ → AppContext O → DataPack → W → W
    unfolding write_targets
    on_new_data i c pack w = elim (get_elem? c.handlers i) [
      | none ↦ w
      | some h ↦ write_targets h.targets c pack w
    ]
