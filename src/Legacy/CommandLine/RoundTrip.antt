-- ===== src/Legacy/CommandLine/RoundTrip.antt =====
-- legacy/CommandLineInitializer.hpp: IOs and connections can be written as a command line of the older program.
use mathlib.Core.Option
use mathlib.Core.Path.{subst}
use mathlib.Core.List.{append_assoc, append-nil}
use ioproxy.Base.{
  ℕ, zero, suc, ◌≡◌, refl, sym, ap, ◌∙◌, String, Option, none, some, inl, inr, Option-cases, List,
  [], ◌∷◌, ◌++◌, map, All, All-imp, get_elem?,
}
use ioproxy.CmdLine.Text.{Spaces, trimmed}
use ioproxy.CmdLine.Glue.{glue, Lacks, cut_at_equals-glue}
use ioproxy.CmdLine.RoundTrip.{pair_arguments, connect_arguments}
use ioproxy.Legacy.Context.{IoHandler, AppContext, add}
use ioproxy.Legacy.Options.{Parameters, Conversions, IoOptions, Kind, set_options}
use ioproxy.Legacy.CommandLine.{
  Making, Reading, Failure, Turn, insert_parameter, add2context, turn, read, connect_all,
  nothing_read, init,
}
use ioproxy.Legacy.CommandLine.Connections.{
  joined, targets_of, IsReadable, names, aim, connect_all-joined,
}
use ioproxy.Legacy.CommandLine.Lines.{
  Given, type_name, io_arguments, insert_pairs, kind_of-type_name,
}

module _ {Address : Type 0} (is_space : Spaces) (c : Conversions Address) where
  abbrev AllPairs : List Given → Type 0
  AllPairs = All (λ g. All (λ p. Lacks b'=' p.0) g.pairs)

  -- The handler of an IO, before the connections.
  abbrev pub handler_of : Given → IoHandler (IoOptions Address)
  handler_of g = record {
    unique_name = g.id;
    options = set_options c g.kind (insert_pairs g.pairs []);
    targets = [];
  }

  insert_parameter-glue :
      (k v : String) (m : Parameters)
      → Lacks b'=' k
      → insert_parameter (glue k (glue "=" v)) m ≡ (k, v) ∷ m
  unfolding insert_parameter
  insert_parameter-glue k v m h = rw (cut_at_equals-glue k v h, insert_parameter) refl

  abbrev held : Making → Parameters → Reading Address → Reading Address
  held h m r = record r { io_handler = some h; params = m }

  read-pairs :
      (pairs : List (String × String)) (rest : List String) (h : Making) (r : Reading Address)
      (m : Parameters)
      → All (λ p. Lacks b'=' p.0) pairs
      → read is_space c (pair_arguments pairs rest) (held h m r)
        ≡ read is_space c rest (held h (insert_pairs pairs m) r)
  unfolding read
  read-pairs [] rest h r m p = refl
  read-pairs ((k, v) ∷ pairs) rest h r m p =
      rw (insert_parameter-glue k v m p.0) (read-pairs pairs rest h r ((k, v) ∷ m) p.1)

  -- No parameters are left behind.
  abbrev IsClean : Reading Address → Type 0
  IsClean r = (add2context c r).params ≡ []

  -- The rest of the state does not depend on the connections.
  add2context-connections :
      (r : Reading Address) (l : List String)
      → add2context c (record r { connections = l }) ≡ record (add2context c r) { connections = l }
  unfolding add2context
  add2context-connections r l = elim (Option-cases r.io_handler) [
    | inl e ↦ rw (e, add2context) refl
    | inr (h, e) ↦ rw (e, add2context) refl
  ]

  turn-io :
      (k : Kind) (r : Reading Address)
      → turn is_space c "-io" (some (type_name k)) r
        ≡ Turn.takes
            (record (add2context c r) { io_handler = some (record { kind = k; unique_name = "" }) })
  unfolding turn
  turn-io k r = rw (kind_of-type_name k, turn) refl

  read-io :
      (g : Given) (rest : List String) (r : Reading Address)
      → IsClean r
      → All (λ p. Lacks b'=' p.0) g.pairs
      → read is_space c (io_arguments (g ∷ []) rest) r
        ≡ read is_space c rest (
            held
              (record { kind = g.kind; unique_name = g.id })
              (insert_pairs g.pairs [])
              (add2context c r))
  unfolding read
  read-io g rest r e p =
      rw (turn-io g.kind r, read, turn, e) (read-pairs g.pairs rest _ (add2context c r) [] p)

  add2context-keeps : (r : Reading Address) → (add2context c r).connections ≡ r.connections
  unfolding add2context
  add2context-keeps r = elim (Option-cases r.io_handler) [
    | inl e ↦ rw (e, add2context) refl
    | inr (h, e) ↦ rw (e, add2context) refl
  ]

  -- After the arguments of some IOs: those before the last are in the context, and the last would be next.
  read-ios :
      (gs : List Given) (rest : List String) (r : Reading Address)
      → IsClean r
      → AllPairs gs
      → (b : Reading Address) × (read is_space c (io_arguments gs rest) r ≡ read is_space c rest b)
        × ((add2context c b).context.handlers
            ≡ (add2context c r).context.handlers ++ map handler_of gs)
        × (b.connections ≡ r.connections)
  unfolding add2context add
  read-ios [] rest r e p = (r, refl, sym (append-nil (add2context c r).context.handlers), refl)
  read-ios (g ∷ gs) rest r e p =
      let next =
        held (record { kind = g.kind; unique_name = g.id }) (insert_pairs g.pairs [])
          (add2context c r) in
      let (b, k, i, l) = read-ios gs rest next refl p.1 in
      (
        b,
        read-io g (io_arguments gs rest) r e p.0 ∙ k,
        i ∙ append_assoc (add2context c r).context.handlers (handler_of g ∷ []) (map handler_of gs),
        l ∙ add2context-keeps r,
      )

  read-connects :
      (links : List (String × String)) (r : Reading Address)
      → All (λ l. trimmed is_space (joined l) ≡ joined l) links
      → read is_space c (connect_arguments links) r
        ≡ (record (add2context c r) { connections = r.connections ++ map joined links }, none)
  unfolding read turn
  read-connects [] r h =
      ap (λ s. (s, none))
        (add2context-connections r r.connections
          ∙ ap (λ l. record (add2context c r) { connections = l }) (sym (append-nil r.connections)))
  read-connects (l ∷ links) r h =
      rw (h.0, read, turn)
        (read-connects links (record r { connections = r.connections ++ (joined l ∷ []) }) h.1
          ∙ (ap
                (λ s. (
                  record s { connections = (r.connections ++ (joined l ∷ [])) ++ map joined links },
                  none,
                ))
                (add2context-connections r (r.connections ++ (joined l ∷ [])))
              ∙ ap (λ k. (record (add2context c r) { connections = k }, none))
                  (append_assoc r.connections (joined l ∷ []) (map joined links))))

  -- The handler of an IO, with the targets that the connections give it.
  abbrev pub wired : List Given → List (String × String) → ℕ → Given → IoHandler (IoOptions Address)
  wired gs links i g = record (handler_of g) { targets = targets_of (map (λ h. h.id) gs) i links }

  names-handlers : (gs : List Given) → names (map handler_of gs) ≡ map (λ g. g.id) gs
  names-handlers [] = refl
  names-handlers (g ∷ gs) = ap (λ l. g.id ∷ l) (names-handlers gs)

  aim-handlers :
      (gs : List Given) (i : ℕ) (ts : List ℕ)
      → Option.map (aim ts) (get_elem? (map handler_of gs) i)
        ≡ Option.map (λ g. record (handler_of g) { targets = ts }) (get_elem? gs i)
  aim-handlers [] i ts = refl
  aim-handlers (g ∷ gs) zero ts = refl
  aim-handlers (g ∷ gs) (suc i) ts = aim-handlers gs i ts

  -- A command line made of some IOs, with their names and parameters, and of some connections makes, of an
  -- empty context, one that has just those IOs in order, each with its name, with the options of its
  -- parameters, the last given first, and with the positions that the connections from its name lead to as
  -- targets, in order; a name stands for the first IO that has it. The keys have no equals sign; the names in
  -- connections are names of the IOs, are not empty and have no comma, and the two of a connection together
  -- have no spaces at their ends.
  pub init-given :
      (gs : List Given) (links : List (String × String))
      → AllPairs gs
      → All (IsReadable is_space (map (λ g. g.id) gs)) links
      → (d : AppContext (IoOptions Address)) × (init is_space c
            (io_arguments gs (connect_arguments links))
            (record { handlers = [] })
          ≡ (d, none))
        × ((i : ℕ) → get_elem? d.handlers i ≡ Option.map (wired gs links i) (get_elem? gs i))
  unfolding init add2context
  init-given gs links p h =
      let (b, e, i, l) =
        read-ios gs (connect_arguments links) (nothing_read (record { handlers = [] })) refl p in
      let same = ap names i ∙ names-handlers gs in
      let (d, k, f) =
        connect_all-joined is_space links (add2context c b).context
          (subst (λ ids. All (IsReadable is_space ids) links) (sym same) h) in
      (
        d,
        ap
              (λ (q : Reading Address × Option Failure). elim q.1 [
                | none ↦ connect_all q.0.connections q.0.context
                | some x ↦ (q.0.context, some x)
              ])
              (e
                ∙ (read-connects links b (All-imp links (λ l q. q.tight) h)
                    ∙ ap
                        (λ k.
                          (record (add2context c b) { connections = k ++ map joined links }, none))
                        l))
            ∙ k,
        λ j.
            f j
            ∙ (ap
                  (λ ids.
                    Option.map (aim (targets_of ids j links))
                      (get_elem? (add2context c b).context.handlers j))
                  same
                ∙ (ap
                      (λ hs.
                        Option.map (aim (targets_of (map (λ g. g.id) gs) j links)) (get_elem? hs j))
                      i
                    ∙ aim-handlers gs j (targets_of (map (λ g. g.id) gs) j links))),
      )
