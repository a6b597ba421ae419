-- ===== src/Application/Wiring.antt =====
-- Proofs on the loops of IOProxyConsoleApplication.cpp over the IOs and connections of a command line.
use ioproxy.Base.{
  ℕ, suc, ◌+◌, ◌≡◌, refl, sym, ap, ◌∙◌, String, false, some, List, [], ◌∷◌, ◌++◌, length, All,
  length-append, arith, ok, >>=-eq-ok,
}
use ioproxy.Params.{IoParams}
use ioproxy.Io.{Io}
use ioproxy.Handler.{Handler, new_handler}
use ioproxy.CmdLine.{IoConfig}
use ioproxy.Engine.{Engine, add_io, add_connection}
use ioproxy.Engine.Names.{names}
use ioproxy.Engine.Lookup.{get_io_handler}
use ioproxy.Engine.Registry.{find_factory_by_id}
use ioproxy.Engine.Registry.Ids.{HasIds, find_factory_by_id-id}
use ioproxy.Application.Result.{Run, expected, Ends, in_value, Ends-expected, Ends->>=, Ends-weaken}
use ioproxy.Application.{register_ios, connect_all, set_up}

abbrev pub ids : List IoConfig → List String
ids [] = []
ids (c ∷ cs) = c.id ∷ ids cs

names-append : {S : Type 0} (hs gs : List (Handler S)) → names (hs ++ gs) ≡ names hs ++ names gs
names-append [] gs = refl
names-append (h ∷ hs) gs = ap (λ l. h.unique_name ∷ l) (names-append hs gs)

append_assoc_one :
    (xs : List String) (y : String) (ys : List String) → (xs ++ (y ∷ [])) ++ ys ≡ xs ++ (y ∷ ys)
append_assoc_one [] y ys = refl
append_assoc_one (x ∷ xs) y ys = ap (λ l. x ∷ l) (append_assoc_one xs y ys)

append_none : (xs : List String) → xs ≡ xs ++ []
append_none [] = refl
append_none (x ∷ xs) = ap (λ l. x ∷ l) (append_none xs)

module _ {S : Type 0} where
  pub names-snoc :
      (name : String) (s : S) (hs : List (Handler S)) (rest : List String)
      → names (hs ++ (new_handler name s ∷ [])) ++ rest ≡ names hs ++ (name ∷ rest)
  unfolding new_handler
  names-snoc name s hs rest =
      ap (λ l. l ++ rest) (names-append hs (new_handler name s ∷ []))
      ∙ append_assoc_one (names hs) name rest

module _ {F S : Type 0} where
  -- What registering some IOs adds: a handler for each, in their order and with their names.
  abbrev pub Registered : List IoConfig → Engine F S → Engine F S → Type 0
  Registered ios e e' =
      (names e'.handlers ≡ names e.handlers ++ ids ios)
      × (e'.started ≡ false)
      × (e'.links ≡ e.links)

  -- And what the connections add to that: a link for each.
  abbrev pub Wired : List IoConfig → List (String × String) → Engine F S → Engine F S → Type 0
  Wired ios connections e e' =
      (names e'.handlers ≡ names e.handlers ++ ids ios)
      × (e'.started ≡ false)
      × (length e'.links ≡ length e.links + length connections)

  -- The `create` of the factory that an IO names ends without an exception for its parameters.
  abbrev pub Creates : (F → String) → (F → IoParams → Run S) → IoConfig → Type 0
  Creates id_of create c = (f : F) → id_of f ≡ c.type → Ends (λ s. Unit {0}) (create f c.parameters)

module _ {F S : Type 0} (io : Io S) (fuel : ℕ) where
  -- Before the engine starts, a new handler is just appended.
  pub add_io_idle :
      (name : String) (s : S) (e : Engine F S)
      → e.started ≡ false
      → add_io io fuel name s e
        ≡ some (record e { handlers = e.handlers ++ (new_handler name s ∷ []) })
  unfolding add_io
  add_io_idle name s e h = rw (h, add_io) refl

module _ {F S : Type 0} (id_of : F → String) (create : F → IoParams → Run S) (io : Io S)
    (fuel : ℕ) where
  pub register_ios-Registered :
      (ios : List IoConfig) (e : Engine F S)
      → e.started ≡ false
      → HasIds id_of e.io_factories
      → All (Creates id_of create) ios
      → Ends (Registered ios e) (register_ios id_of create io fuel ios e)
  unfolding register_ios
  register_ios-Registered [] e h ids_hold all = in_value e (append_none (names e.handlers), h, refl)
  register_ios-Registered (c ∷ cs) e h ids_hold (creates, all) =
      let Q = Registered (c ∷ cs) e in
      Ends->>= Q (expected (find_factory_by_id id_of e.io_factories c.type)) _
        (Ends-expected (λ f. id_of f ≡ c.type) (find_factory_by_id id_of e.io_factories c.type)
          (λ f. find_factory_by_id-id id_of e.io_factories c.type f ids_hold))
        λ f q. Ends->>= Q (create f c.parameters) _ (creates f q) λ s q'.
          let e1 = record e { handlers = e.handlers ++ (new_handler c.id s ∷ []) } in
          rw (add_io_idle io fuel c.id s e h) (
            Ends-weaken (Registered cs e1) Q _
              (λ e2 (n, st, l). (n ∙ names-snoc c.id s e.handlers (ids cs), st, l))
              (register_ios-Registered cs e1 h ids_hold all))

module _ {F S : Type 0} (fold_case : String → String) where
  add_connection-adds :
      (src dst : String) (e e1 : Engine F S)
      → add_connection fold_case e src dst ≡ ok e1
      → (e1.handlers ≡ e.handlers)
        × (e1.started ≡ e.started)
        × (length e1.links ≡ length e.links + 1)
  unfolding add_connection
  add_connection-adds src dst e e1 a =
      let (s, es, r) = >>=-eq-ok (get_io_handler fold_case e.handlers src) _ a in
      let (d, ed, r') = >>=-eq-ok (get_io_handler fold_case e.handlers dst) _ r in
      let x : record e { links = e.links ++ ((s, d) ∷ []) } ≡ e1 = cc in
      let n = ap (λ (k : Engine F S). length k.links) x in
      (
        ap (λ k. k.handlers) (sym x),
        ap (λ k. k.started) (sym x),
        omega (arith, n, length-append e.links ((s, d) ∷ [])),
      )

  pub connect_all-Ends :
      (cs : List (String × String)) (e : Engine F S)
      → Ends
          (λ e'.
            (e'.handlers ≡ e.handlers)
            × (e'.started ≡ e.started)
            × (length e'.links ≡ length e.links + length cs))
          (connect_all fold_case cs e)
  unfolding connect_all
  connect_all-Ends [] e = in_value e (refl, refl, omega arith)
  connect_all-Ends ((src, dst) ∷ rest) e =
      let Q = λ (e' : Engine F S).
        (e'.handlers ≡ e.handlers)
        × (e'.started ≡ e.started)
        × (length e'.links ≡ length e.links + suc (length rest)) in
      Ends->>= Q (expected (add_connection fold_case e src dst)) _
        (Ends-expected
          (λ e1.
            (e1.handlers ≡ e.handlers)
            × (e1.started ≡ e.started)
            × (length e1.links ≡ length e.links + 1))
          (add_connection fold_case e src dst) (add_connection-adds src dst e))
        λ e1 (hs, st, l).
          Ends-weaken _ Q _ (λ e2 (hs', st', l'). (hs' ∙ hs, st' ∙ st, omega (arith, l, l')))
            (connect_all-Ends rest e1)

module _ {F S : Type 0} (id_of : F → String) (create : F → IoParams → Run S)
    (fold_case : String → String) (io : Io S) (fuel : ℕ) where
  -- Before the engine starts, the IOs and connections of a command line end in an error, or in an
  -- engine that is not started and has, behind what it had, one handler for each IO, in their order
  -- and with their names, and one link more for each connection.
  pub set_up_lem :
      (ios : List IoConfig) (connections : List (String × String)) (e : Engine F S)
      → e.started ≡ false
      → HasIds id_of e.io_factories
      → All (Creates id_of create) ios
      → Ends (Wired ios connections e) (set_up id_of create fold_case io fuel ios connections e)
  unfolding set_up
  set_up_lem ios connections e h ids_hold all =
      Ends->>= (Wired ios connections e) (register_ios id_of create io fuel ios e) _
        (register_ios-Registered id_of create io fuel ios e h ids_hold all)
        λ e1 (n, st, l).
          Ends-weaken _ (Wired ios connections e) _
            (λ e2 (hs, st', l').
              (ap names hs ∙ n, st' ∙ st, l' ∙ ap (λ k. length k + length connections) l))
            (connect_all-Ends fold_case connections e1)
