-- ===== src/Engine/Connecting.antt =====
-- src/ioproxy/Engine.cpp, `addConnection`.
use ioproxy.Base.{
  ℕ, ◌≡◌, refl, ◌⊎◌, inl, inr, String, List, [], ◌∷◌, ◌++◌, length, All, ok, err, cannot_find_io,
}
use ioproxy.Handler.{Handler}
use ioproxy.Engine.{Engine, add_connection}
use ioproxy.Engine.Lookup.Spec.{Differs, Matches, get_io_handler_lem}

module _ {S : Type 0} (fold_case : String → String) where
  -- `hs` holds no handler of the name, or its first one stands behind `k` others.
  abbrev pub IsMissing : String → List (Handler S) → Type 0
  IsMissing id hs = All (Differs fold_case id) hs

  abbrev pub IsFirst : String → List (Handler S) → ℕ → Type 0
  IsFirst id hs k =
      (before after : List (Handler S)) × (h : Handler S) × (hs ≡ before ++ (h ∷ after))
      × All (Differs fold_case id) before
      × Matches fold_case id h
      × (length before ≡ k)

module _ {F S : Type 0} (fold_case : String → String) where
  -- A connection is added behind those that are there, between the first handlers of the two names,
  -- compared without case; nothing else changes. If a name is missing, the error says which, the
  -- source's first.
  pub add_connection_lem :
      (e : Engine F S) (src dst : String)
      → (IsMissing fold_case src e.handlers
          × (add_connection fold_case e src dst ≡ err (cannot_find_io src)))
        ⊎ (((s : ℕ) × IsFirst fold_case src e.handlers s
              × IsMissing fold_case dst e.handlers
              × (add_connection fold_case e src dst ≡ err (cannot_find_io dst)))
            ⊎ ((s d : ℕ) × IsFirst fold_case src e.handlers s
                × IsFirst fold_case dst e.handlers d
                × (add_connection fold_case e src dst
                    ≡ ok (record e { links = e.links ++ ((s, d) ∷ []) }))))
  unfolding add_connection
  add_connection_lem e src dst = elim (get_io_handler_lem fold_case src e.handlers) [
    | inl (miss, q) ↦ inl (miss, rw q)
    | inr (b, a, h, p, all, m, q) ↦ elim (get_io_handler_lem fold_case dst e.handlers) [
      | inl (miss, r) ↦ inr (inl (length b, (b, a, h, p, all, m, refl), miss, rw q (rw r)))
      | inr (b', a', h', p', all', m', r) ↦ inr (
          inr (
            length b,
            length b',
            (b, a, h, p, all, m, refl),
            (b', a', h', p', all', m', refl),
            rw q (rw r),
          ))
    ]
  ]
