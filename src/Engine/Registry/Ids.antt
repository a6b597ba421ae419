-- ===== src/Engine/Registry/Ids.antt =====
-- src/ioproxy/Engine.cpp: every factory of a registry stands under its own id.
use ioproxy.Base.{
  ◌≡◌, sym, ap, ◌∙◌, String, some, List, [], ◌∷◌, inl, inr, str_eq, eq_iff, Bool-cases,
  Option-cases, ok, >>=-eq-ok,
}
use ioproxy.Base.Maps.{lookup, insert, contains, lookup-insert}
use ioproxy.Engine.Registry.{Factories, register_io_factory, find_factory_by_id, register_all}

module _ {F : Type 0} (id_of : F → String) where
  unfoldable pub HasIds : Factories F → Type 0
  HasIds m = (id : String) (f : F) → lookup id m ≡ some f → id_of f ≡ id

  pub empty-HasIds : HasIds []
  unfolding HasIds lookup
  empty-HasIds id f h = cc

  register_io_factory-HasIds :
      (g : F) (m m' : Factories F)
      → register_io_factory id_of (some g) m ≡ ok m'
      → HasIds m
      → HasIds m'
  unfolding register_io_factory HasIds
  register_io_factory-HasIds g m m' r h id f e = elim (Bool-cases (contains (id_of g) m)) [
    | inl taken ↦ let bad = rw taken at r in cc
    | inr free ↦
        let r' = rw free at r in
        let x : insert (id_of g) g m ≡ m' = cc in
        let e' = sym (lookup-insert (id_of g) id g m) ∙ (ap (lookup id) x ∙ e) in
        elim (Bool-cases (str_eq (id_of g) id)) [
          | inl same ↦
              let e'' = rw same at e' in
              let y : g ≡ f = cc in sym (ap id_of y) ∙ (eq_iff (id_of g) id).0 same
          | inr other ↦ h id f (rw other at e')
        ]
  ]

  pub register_all-HasIds :
      (gs : List F) (m m' : Factories F) → register_all id_of gs m ≡ ok m' → HasIds m → HasIds m'
  unfolding register_all
  register_all-HasIds [] m m' r h = let x : m ≡ m' = cc in rw x at h
  register_all-HasIds (g ∷ gs) m m' r h =
      let (m1, a, b) = >>=-eq-ok (register_io_factory id_of (some g) m) (register_all id_of gs) r in
      register_all-HasIds gs m1 m' b (register_io_factory-HasIds g m m1 a h)

  -- A factory that is found has the id it was looked up by.
  pub find_factory_by_id-id :
      (m : Factories F) (id : String) (f : F)
      → HasIds m
      → find_factory_by_id id_of m id ≡ ok f
      → id_of f ≡ id
  unfolding find_factory_by_id HasIds
  find_factory_by_id-id m id f h e = elim (Option-cases (lookup id m)) [
    | inl q ↦ let bad = rw (q, find_factory_by_id) at e in cc
    | inr (g, q) ↦
        let e' = rw (q, find_factory_by_id) at e in let x : g ≡ f = cc in rw x at (h id g q)
  ]
