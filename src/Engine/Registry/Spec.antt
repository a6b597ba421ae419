-- ===== src/Engine/Registry/Spec.antt =====
-- src/ioproxy/Engine.cpp: what the registry of factories holds.
use ioproxy.Base.{
  ◌≡◌, refl, String, true, false, Option, none, some, List, [], ◌∷◌, map, ◌⊎◌, inl, inr, arith,
  str_eq, if◌then◌else◌, Expected, ok, err, already_registered, not_registered,
}
use ioproxy.Base.Maps.{lookup, insert, contains, lookup-insert}
use ioproxy.Factory.Builtin.{Kind, byte_generator, echo, get_id}
use ioproxy.Engine.Registry.{
  Factories, register_io_factory, find_factory_by_id, built_in, register_built_in,
}

contains-lookup {ℓ} :
    {V : Type ℓ} (k : String) (m : List (String × V))
    → contains k m ≡ elim (lookup k m) [ none ↦ false | some _ ↦ true ]
unfolding contains lookup
contains-lookup k [] = refl
contains-lookup k ((j, v) ∷ m) = ground (arith, contains-lookup k m)

module _ {F : Type 0} (id_of : F → String) where
  -- A factory is registered exactly if none with its id is. Then it is found by its id, and what was
  -- found by any other id before still is; if it is refused, the error names the id that is taken.
  pub register_io_factory_lem :
      (f : F) (m : Factories F)
      → ((g : F) × (find_factory_by_id id_of m (id_of f) ≡ ok g)
          × (register_io_factory id_of (some f) m ≡ err (already_registered (id_of f))))
        ⊎ ((m' : Factories F) × (find_factory_by_id id_of m (id_of f)
              ≡ err (not_registered (id_of f)))
            × (register_io_factory id_of (some f) m ≡ ok m')
            × ((id : String)
                → find_factory_by_id id_of m' id
                  ≡ (if str_eq (id_of f) id then ok f else find_factory_by_id id_of m id)))
  unfolding register_io_factory find_factory_by_id
  register_io_factory_lem f m = go (lookup (id_of f) m) refl
    where
      found :
          (id : String)
          → find_factory_by_id id_of (insert (id_of f) f m) id
            ≡ (if str_eq (id_of f) id then ok f else find_factory_by_id id_of m id)
      found id = ground (arith, lookup-insert (id_of f) id f m)

      go :
          (o : Option F)
          → lookup (id_of f) m ≡ o
          → ((g : F) × (find_factory_by_id id_of m (id_of f) ≡ ok g)
              × (register_io_factory id_of (some f) m ≡ err (already_registered (id_of f))))
            ⊎ ((m' : Factories F) × (find_factory_by_id id_of m (id_of f)
                  ≡ err (not_registered (id_of f)))
                × (register_io_factory id_of (some f) m ≡ ok m')
                × ((id : String)
                    → find_factory_by_id id_of m' id
                      ≡ (if str_eq (id_of f) id then ok f else find_factory_by_id id_of m id)))
      go (some g) e = inl (g, rw (e, find_factory_by_id), rw (contains-lookup (id_of f) m) (rw e))
      go none e = inr (
        insert (id_of f) f m,
        rw (e, find_factory_by_id),
        rw (contains-lookup (id_of f) m) (rw e),
        found,
      )

-- What is found by the id of a kind once the built-in factories are registered.
abbrev pub by_id : Kind → Expected Kind
by_id echo = err (not_registered "echo")
by_id byte_generator = ok byte_generator
by_id k = ok k

registered : Factories Kind
unfolding get_id
registered = map (λ k. (get_id k, k)) built_in

found : (k : Kind) → find_factory_by_id get_id registered (get_id k) ≡ by_id k
unfolding registered find_factory_by_id
found byte_generator = refl
found k = refl

-- On an empty registry all eight built-in factories register, and then each is found by its id; the
-- id of the echo plugin is not. A second registration fails.
pub register_built_in_lem :
    (m : Factories Kind) × (register_built_in [] ≡ ok m)
    × ((k : Kind) → find_factory_by_id get_id m (get_id k) ≡ by_id k)
    × (register_built_in m ≡ err (already_registered "bytes_generator"))
unfolding register_built_in registered
register_built_in_lem = (registered, refl, found, refl)
