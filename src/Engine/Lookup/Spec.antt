-- ===== src/Engine/Lookup/Spec.antt =====
-- src/ioproxy/Engine.cpp, `getIOHandler`: which handler is found.
use ioproxy.Base.{
  ℕ, suc, ◌+◌, ◌<◌, ◌≡◌, refl, ◌⊎◌, inl, inr, true, false, String, List, [], ◌∷◌, ◌++◌, length, All,
  arith, Bool-cases, ok, err, cannot_find_io,
}
use ioproxy.Handler.{Handler}
use ioproxy.Engine.Lookup.{same_id, find_from, get_io_handler}

module _ {S : Type 0} (fold_case : String → String) (id : String) where
  abbrev pub Matches : Handler S → Type 0
  Matches h = same_id fold_case h.unique_name id ≡ true

  abbrev pub Differs : Handler S → Type 0
  Differs h = same_id fold_case h.unique_name id ≡ false

  find_from_lem :
      (i : ℕ) (hs : List (Handler S))
      → (All Differs hs × (find_from fold_case i hs id ≡ err (cannot_find_io id)))
        ⊎ ((before after : List (Handler S)) × (h : Handler S) × (hs ≡ before ++ (h ∷ after))
            × All Differs before
            × Matches h
            × (find_from fold_case i hs id ≡ ok (i + length before)))
  unfolding find_from
  find_from_lem i [] = inl (tt, refl)
  find_from_lem i (h ∷ hs) = elim (Bool-cases (same_id fold_case h.unique_name id)) [
    | inl hit ↦ inr ([], hs, h, refl, tt, hit, let e : i ≡ i + 0 = omega arith in rw hit (rw (← e)))
    | inr miss ↦ elim (find_from_lem (i + 1) hs) [
      | inl (all, e) ↦ inl ((miss, all), rw miss e)
      | inr (before, after, g, q, all, hit, e) ↦
          let shift : i + 1 + length before ≡ i + suc (length before) = omega arith in
          inr (h ∷ before, after, g, rw q, (miss, all), hit, rw miss (rw e (rw shift)))
    ]
  ]

  -- The first handler whose name agrees with the id up to case is found, by its position; if no name
  -- agrees, the error names the id.
  pub get_io_handler_lem :
      (hs : List (Handler S))
      → (All Differs hs × (get_io_handler fold_case hs id ≡ err (cannot_find_io id)))
        ⊎ ((before after : List (Handler S)) × (h : Handler S) × (hs ≡ before ++ (h ∷ after))
            × All Differs before
            × Matches h
            × (get_io_handler fold_case hs id ≡ ok (length before)))
  unfolding get_io_handler
  get_io_handler_lem hs = elim (find_from_lem 0 hs) [
    | inl found ↦ inl found
    | inr (before, after, h, q, all, hit, e) ↦
        let shift : 0 + length before ≡ length before = omega arith in
        inr (before, after, h, q, all, hit, rw e (rw shift))
  ]

  find_from-lt :
      (i : ℕ) (hs : List (Handler S)) (j : ℕ)
      → find_from fold_case i hs id ≡ ok j
      → j < i + length hs
  unfolding find_from
  find_from-lt i [] j e = cc
  find_from-lt i (h ∷ hs) j e = ground (arith, find_from-lt (i + 1) hs j)

  -- What is found lies in the list.
  pub get_io_handler-lt :
      (hs : List (Handler S)) (j : ℕ) → get_io_handler fold_case hs id ≡ ok j → j < length hs
  unfolding get_io_handler
  get_io_handler-lt hs j e = omega (arith, find_from-lt 0 hs j e)
