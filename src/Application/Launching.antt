-- ===== src/Application/Launching.antt =====
-- src/ioproxy-cli/src/IOProxyConsoleApplication.cpp: what a start runs, for a command line of known IOs.
use mathlib.Core.Path.{subst}
use mathlib.Core.List.{append_assoc, append-nil}
use ioproxy.Base.{
  ℕ, suc, ◌+◌, ◌<◌, ◌≡◌, ◌≢◌, refl, sym, ap, ◌∙◌, inl, inr, String, true, false, Option, none, some,
  List, [], ◌∷◌, ◌++◌, length, map, All, arith, ok, if◌then◌else◌, Bool-cases, Option-cases,
}
use ioproxy.Base.Int.{pos}
use ioproxy.Handler.{Handler, new_handler}
use ioproxy.Factory.{done}
use ioproxy.Factory.Builtin.{Kind, echo, get_id, Created, HasRemotes, std_out_io}
use ioproxy.Factory.Meaning.{outcome, create-outcome}
use ioproxy.CmdLine.{IoConfig}
use ioproxy.CmdLine.Reading.{word, skips}
use ioproxy.CmdLine.Glue.{Lacks}
use ioproxy.CmdLine.RoundTrip.{
  IsPlain, Given, config_of, io_arguments, connect_arguments, from_arguments-given,
}
use ioproxy.Engine.{Engine, add_connection}
use ioproxy.Engine.Signals.{Link}
use ioproxy.Engine.Ending.{Descends}
use ioproxy.Engine.Total.{calls-Ends}
use ioproxy.Engine.Names.{names, start-names}
use ioproxy.Engine.Lookup.{same_id, find_from, get_io_handler}
use ioproxy.Engine.Registry.{Factories, find_factory_by_id}
use ioproxy.Engine.Registry.Spec.{register_built_in_lem, by_id}
use ioproxy.Util.Status
use ioproxy.Util.Status.{Printer}
use ioproxy.Application.{
  World, Fuel, load_plugins, create_io, register_ios, connect_all, set_up, prepare, launch, start,
}
use ioproxy.Application.Result.{Run, expected, ◌>>=◌}
use ioproxy.Application.Wiring.{ids, add_io_idle, names-snoc}

-- The position of the first name that is the same up to case.
abbrev pub place : (String → String) → String → List String → Option ℕ
place fold_case id [] = none
place fold_case id (name ∷ rest) =
    let below : Option ℕ = elim (place fold_case id rest) [ none ↦ none | some k ↦ some (suc k) ] in
    if same_id fold_case name id then some 0 else below

-- Each link joins the positions of the two names of its connection.
abbrev pub ArePlaced : (String → String) → List String → List (String × String) → List Link → Type 0
ArePlaced fold_case all [] [] = Unit
ArePlaced fold_case all [] (_ ∷ _) = ⊥
ArePlaced fold_case all (_ ∷ _) [] = ⊥
ArePlaced fold_case all ((src, dst) ∷ connections) ((s, d) ∷ links) =
    (place fold_case src all ≡ some s)
    × (place fold_case dst all ≡ some d)
    × ArePlaced fold_case all connections links

module _ {S : Type 0} (fold_case : String → String) where
  find_from-place :
      (i : ℕ) (hs : List (Handler S)) (id : String) (k : ℕ)
      → place fold_case id (names hs) ≡ some k
      → find_from fold_case i hs id ≡ ok (i + k)
  unfolding find_from
  find_from-place i [] id k e = cc
  find_from-place i (h ∷ hs) id k e = elim (Bool-cases (same_id fold_case h.unique_name id)) [
    | inl same ↦
        let zero_is = rw (same, place) at e in
        let k_is : ◌≡◌ {A = ℕ} 0 k = cc in rw (same, find_from) (ap ok (omega (arith, k_is)))
    | inr other ↦ elim (Option-cases (place fold_case id (names hs))) [
      | inl nowhere ↦ (let bad = rw (nowhere) at (rw (other, place) at e) in cc)
      | inr (j, there) ↦
          let more = rw (there) at (rw (other, place) at e) in
          let k_is : suc j ≡ k = cc in
          rw (other, find_from)
            (find_from-place (i + 1) hs id j there ∙ ap ok (omega (arith, k_is)))
    ]
  ]

module _ {F S : Type 0} (fold_case : String → String) where
  add_connection-place :
      (src dst : String) (s d : ℕ) (e : Engine F S)
      → place fold_case src (names e.handlers) ≡ some s
      → place fold_case dst (names e.handlers) ≡ some d
      → add_connection fold_case e src dst ≡ ok (record e { links = e.links ++ ((s, d) ∷ []) })
  unfolding add_connection get_io_handler
  add_connection-place src dst s d e a b =
      let first : find_from fold_case 0 e.handlers src ≡ ok s =
        find_from-place fold_case 0 e.handlers src s a ∙ ap ok (omega arith) in
      let second : find_from fold_case 0 e.handlers dst ≡ ok d =
        find_from-place fold_case 0 e.handlers dst d b ∙ ap ok (omega arith) in
      rw (first, add_connection) (rw second refl)

  connect_all-ArePlaced :
      (connections : List (String × String)) (links : List Link) (e : Engine F S)
      → ArePlaced fold_case (names e.handlers) connections links
      → connect_all fold_case connections e ≡ some (done (record e { links = e.links ++ links }))
  unfolding connect_all
  connect_all-ArePlaced [] [] e placed =
      ap (λ l. some (done (record e { links = l }))) (sym (append-nil e.links))
  connect_all-ArePlaced [] (_ ∷ _) e placed = elim placed [ ]
  connect_all-ArePlaced (_ ∷ _) [] e placed = elim placed [ ]
  connect_all-ArePlaced ((src, dst) ∷ connections) ((s, d) ∷ links) e (a, b, placed) =
      rw (add_connection-place src dst s d e a b, connect_all)
        (connect_all-ArePlaced connections links (record e { links = e.links ++ ((s, d) ∷ []) })
            placed
          ∙ ap (λ l. some (done (record e { links = l })))
              (append_assoc e.links ((s, d) ∷ []) links))

module _ {Address Url S : Type 0} (world : World Address Url S) (fuel : Fuel) where
  -- The factory of an IO is built in, and its parameters give options.
  abbrev pub IsCreated : IoConfig → Type 0
  IsCreated c =
      (k : Kind) × (made : Created Address Url) × (get_id k ≡ c.type)
      × (k ≢ echo)
      × HasRemotes world.parse_address world.parse_url world.conversions fuel.remotes k c.parameters
      × (outcome world.parse_address world.parse_url world.conversions k c.parameters ≡ done made)

  -- None of the files of the folder is a plugin.
  abbrev pub HasNoPlugins : Type 0
  HasNoPlugins = All (λ file. world.loader.is_plugin file ≡ false) world.loader.files

  load_plugins-none :
      (files : List String) (m : Factories Kind)
      → All (λ file. world.loader.is_plugin file ≡ false) files
      → load_plugins world.loader files m ≡ some (done m)
  unfolding load_plugins
  load_plugins-none [] m none_there = refl
  load_plugins-none (file ∷ files) m (other, none_there) =
      rw (other, load_plugins) (load_plugins-none files m none_there)

  by_id-known : (k : Kind) → k ≢ echo → by_id k ≡ ok k
  by_id-known Kind.echo apart = absurd (apart refl)
  by_id-known Kind.byte_generator apart = refl
  by_id-known Kind.serial_port apart = refl
  by_id-known Kind.std_out apart = refl
  by_id-known Kind.tcp_socket apart = refl
  by_id-known Kind.tcp_server apart = refl
  by_id-known Kind.udp_socket apart = refl
  by_id-known Kind.web_socket apart = refl
  by_id-known Kind.web_socket_server apart = refl

  -- The engine after the loop over the IOs.
  IsRegistered : List IoConfig → Engine Kind S → Engine Kind S → Type 0
  IsRegistered ios e e' =
      (register_ios get_id (create_io world fuel) world.io fuel.depth ios e ≡ some (done e'))
      × (names e'.handlers ≡ names e.handlers ++ ids ios)
      × (e'.started ≡ false)
      × (e'.links ≡ e.links)

  register_ios-IsRegistered :
      (ios : List IoConfig) (e : Engine Kind S)
      → e.started ≡ false
      → ((k : Kind) → k ≢ echo → find_factory_by_id get_id e.io_factories (get_id k) ≡ ok k)
      → All IsCreated ios
      → (e' : Engine Kind S) × IsRegistered ios e e'
  unfolding register_ios create_io IsRegistered
  register_ios-IsRegistered [] e off found all =
      (e, (refl, sym (append-nil (names e.handlers)), off, refl))
  register_ios-IsRegistered (c ∷ cs) e off found ((k, made, id_is, apart, remotes, makes), all) =
      let s = world.construct made in
      let e1 = record e { handlers = e.handlers ++ (new_handler c.id s ∷ []) } in
      let (e', (run, n, st, l)) = register_ios-IsRegistered cs e1 off found all in
      let finds : find_factory_by_id get_id e.io_factories c.type ≡ ok k =
        ap (find_factory_by_id get_id e.io_factories) (sym id_is) ∙ found k apart in
      let creates =
        create-outcome world.parse_address world.parse_url world.conversions fuel.remotes k
          c.parameters remotes
        ∙ ap some makes in
      (
        e',
        (
          rw (finds, register_ios)
              (rw (creates, create_io) (rw (add_io_idle world.io fuel.depth c.id s e off) run)),
          n ∙ names-snoc c.id s e.handlers (ids cs),
          st,
          l,
        ),
      )

  prepare-done :
      (ios : List IoConfig) (connections : List (String × String)) (links : List Link)
      → HasNoPlugins
      → All IsCreated ios
      → ArePlaced world.fold_case (ids ios) connections links
      → (e : Engine Kind S) × (prepare world fuel ios connections ≡ some (done e))
        × (names e.handlers ≡ ids ios)
        × (e.links ≡ links)
  unfolding prepare set_up IsRegistered
  prepare-done ios connections links bare all placed =
      let (m, registered, finds, again) = register_built_in_lem in
      let build : Factories Kind → Run (Engine Kind S) = λ g.
        set_up get_id (create_io world fuel) world.fold_case world.io fuel.depth ios connections
          (record { io_factories = g; handlers = []; links = []; started = false }) in
      let e0 : Engine Kind S = record {
        io_factories = m;
        handlers = [];
        links = [];
        started = false;
      } in
      let (e1, (run, n, st, l)) =
        register_ios-IsRegistered ios e0 refl (λ k apart. finds k ∙ by_id-known k apart) all in
      let wired =
        connect_all-ArePlaced world.fold_case connections links e1
          (subst (λ x. ArePlaced world.fold_case x connections links) (sym n) placed) in
      (
        record e1 { links = e1.links ++ links },
        ap (λ f. expected f >>= λ g. load_plugins world.loader world.loader.files g >>= build)
              registered
            ∙ (ap (λ f. f >>= build) (load_plugins-none world.loader.files m bare)
                ∙ (ap (λ f. f >>= connect_all world.fold_case connections) run ∙ wired)),
        n,
        ap (λ x. x ++ links) l,
      )

  -- No file of the plugins' folder is a plugin, and a command line is made of IOs, whose factories are built in
  -- and whose parameters give options, and of connections, whose names are those of its IOs up to case; names
  -- and keys are as the reading of a command line needs them. `links` joins for each connection, in order, the
  -- positions of the first IOs of its two names. It descends in some rank below the fuel for the depth of
  -- calls, and the fuel is above the numbers of arguments and of the remote addresses of UDP sockets. Then the
  -- start ends without an error: a running engine has one handler for each IO, in their order and with their
  -- names, and exactly these links; and the printer of its status runs, and starts from nothing.
  pub start-done :
      (rank : ℕ → ℕ) (program : String) (gs : List Given) (connections : List (String × String))
      (links : List Link)
      → word program false ≡ skips
      → All (λ g. All (λ p. Lacks b'=' p.0) g.pairs) gs
      → All (λ l. IsPlain world.is_space l.0 × IsPlain world.is_space l.1) connections
      → length (program ∷ io_arguments gs (connect_arguments connections)) < fuel.walk
      → HasNoPlugins
      → All IsCreated (map config_of gs)
      → ArePlaced world.fold_case (ids (map config_of gs)) connections links
      → ((i : ℕ) → rank i < fuel.depth)
      → Descends rank links
      → (e : Engine Kind S) × (start world fuel
            (program ∷ io_arguments gs (connect_arguments connections))
          ≡ some (
              done (
                e,
                record {
                  running = true;
                  previous_statistic = record { bytes_read = 0; bytes_written = 0 };
                  previous_timestamp = pos 0;
                },
              )))
        × (names e.handlers ≡ ids (map config_of gs))
        × (e.links ≡ links)
        × (e.started ≡ true)
  unfolding start launch Status.start
  start-done rank program gs connections links w keys plain walk bare all placed low down =
      let (s, parsed, i, l) =
        from_arguments-given world.is_space fuel.walk program gs connections w keys plain walk in
      let (e, ready, n, k) = prepare-done (map config_of gs) connections links bare all placed in
      let ready' : prepare world fuel s.ios s.connections ≡ some (done e) =
        ap (λ x. prepare world fuel x s.connections) i
        ∙ (ap (prepare world fuel (map config_of gs)) l ∙ ready) in
      let (e', run, st) =
        (calls-Ends world.io rank fuel.depth e "" (world.construct std_out_io) low
          (subst (Descends rank) (sym k) down)).0 in
      let (n', l') = start-names world.io fuel.depth e e' run in
      (e', rw parsed (rw ready' (rw run refl)), n' ∙ n, l' ∙ k, st)
