-- ===== src/Legacy/CommandLine/Delivery.antt =====
-- legacy/CommandLineInitializer.hpp and IOHandler.hpp: no connection of `init` leads nowhere.
use mathlib.Core.Path.{subst}
use ioproxy.Base.{
  ℕ, zero, suc, ◌<◌, ◌≡◌, refl, sym, String, Bool, true, false, Option, none, some, inl, inr,
  Option-cases, List, [], ◌∷◌, ◌++◌, All, All-imp, All-append, All-get, get_elem?, length,
  length-append, arith, if◌then◌else◌,
}
use ioproxy.CmdLine.Text.{Spaces, split_commas}
use ioproxy.Io.{DataPack}
use ioproxy.Engine.Signals.{at}
use ioproxy.Engine.Kept.{length-at}
use ioproxy.Legacy.Context.{
  IoHandler, AppContext, find_named, find_handler_by_id, add, add_target, write_targets,
  on_new_data,
}
use ioproxy.Legacy.Options.{Conversions, IoOptions}
use ioproxy.Legacy.CommandLine.{
  Reading, Failure, Turn, add2context, turn, read, connect_all, connect_parts, nothing_read, init,
}

get_some {ℓ} :
    {A : Type ℓ} (xs : List A) (i : ℕ) → i < length xs → (x : A) × (get_elem? xs i ≡ some x)
get_some [] i h = absurd (omega (arith, h))
get_some (x ∷ xs) zero h = (x, refl)
get_some (x ∷ xs) (suc i) h = get_some xs i (omega (arith, h))

-- What holds of both results of a test holds of its result.
either_way {ℓ κ} :
    {A : Type ℓ} (P : A → Type κ) (b : Bool) {x y : A} → P x → P y → P (if b then x else y)
either_way P true p q = p
either_way P false p q = q

module _ {O : Type 0} where
  -- The targets of some handlers are below a number.
  abbrev Below : ℕ → List (IoHandler O) → Type 0
  Below n = All (λ h. All (λ t. t < n) h.targets)

  -- Every target is a handler.
  abbrev pub IsWired : AppContext O → Type 0
  IsWired c = Below (length c.handlers) c.handlers

  add-IsWired :
      (h : IoHandler O) (c : AppContext O) → h.targets ≡ [] → IsWired c → IsWired (add h c)
  unfolding add
  add-IsWired h c e w =
      All-append (λ g. All (λ t. t < length (c.handlers ++ (h ∷ []))) g.targets) c.handlers (h ∷ [])
        (All-imp c.handlers
          (λ g b. All-imp g.targets (λ t l. omega (arith, l, length-append c.handlers (h ∷ []))) b)
          w)
        (subst (λ ts. All (λ t. t < length (c.handlers ++ (h ∷ []))) ts) (sym e) tt, tt)

  at-Below :
      (n s d : ℕ) (hs : List (IoHandler O))
      → d < n
      → Below n hs
      → Below n (at s (λ h. record h { targets = h.targets ++ (d ∷ []) }) hs)
  at-Below n s d [] l b = tt
  at-Below n zero d (h ∷ hs) l (b, bs) = (All-append (λ t. t < n) h.targets (d ∷ []) b (l, tt), bs)
  at-Below n (suc s) d (h ∷ hs) l (b, bs) = (b, at-Below n s d hs l bs)

  add_target-IsWired :
      (s d : ℕ) (c : AppContext O) → d < length c.handlers → IsWired c → IsWired (add_target s d c)
  unfolding add_target
  add_target-IsWired s d c l w =
      subst (λ n. Below n (add_target s d c).handlers) (sym (length-at s _ c.handlers))
        (at-Below _ s d c.handlers l w)

  find_named_lt :
      (a : String) (hs : List (IoHandler O)) (i : ℕ) → find_named a hs ≡ some i → i < length hs
  unfolding find_named
  find_named_lt a [] i e = cc
  find_named_lt a (h ∷ hs) i e = elim (Option-cases (find_named a hs)) [
    | inl f ↦ ground (arith, rw (f, find_named) at e)
    | inr (j, f) ↦ ground (arith, find_named_lt a hs j f, rw (f, find_named) at e)
  ]

  connect_parts-IsWired :
      (parts : List String) (c : AppContext O) → IsWired c → IsWired (connect_parts parts c).0
  unfolding find_handler_by_id
  connect_parts-IsWired [] c w = w
  connect_parts-IsWired (a ∷ []) c w = w
  connect_parts-IsWired (a ∷ b ∷ x ∷ parts) c w = w
  connect_parts-IsWired (a ∷ b ∷ []) c w = elim (Option-cases (find_named a c.handlers)) [
    | inl e ↦ rw (connect_parts, e) w
    | inr (s, e) ↦ elim (Option-cases (find_named b c.handlers)) [
      | inl f ↦ rw (connect_parts, e, f) w
      | inr (d, f) ↦
          rw (connect_parts, e, f) (add_target-IsWired s d c (find_named_lt b c.handlers d f) w)
    ]
  ]

  connect_all-IsWired :
      (l : List String) (c : AppContext O) → IsWired c → IsWired (connect_all l c).0
  unfolding connect_all
  connect_all-IsWired [] c w = w
  connect_all-IsWired (x ∷ l) c w =
      let v = connect_parts-IsWired (split_commas x) c w in
      elim (Option-cases (connect_parts (split_commas x) c).1) [
        | inl e ↦ rw (e, connect_all) (connect_all-IsWired l (connect_parts (split_commas x) c).0 v)
        | inr (f, e) ↦ rw (e, connect_all) v
      ]

module _ {Address : Type 0} (is_space : Spaces) (c : Conversions Address) where
  abbrev AtTurn : Turn Address → Type 0
  AtTurn (Turn.passes r) = IsWired r.context
  AtTurn (Turn.takes r) = IsWired r.context
  AtTurn (Turn.fails f r) = IsWired r.context

  add2context-IsWired :
      (r : Reading Address) → IsWired r.context → IsWired (add2context c r).context
  unfolding add2context
  add2context-IsWired r w = elim (Option-cases r.io_handler) [
    | inl e ↦ rw (e, add2context) w
    | inr (h, e) ↦ rw (e, add2context) (add-IsWired _ r.context refl w)
  ]

  turn-IsWired :
      (val : String) (following : Option String) (r : Reading Address)
      → IsWired r.context
      → AtTurn (turn is_space c val following r)
  unfolding turn
  turn-IsWired val none r w = let v = add2context-IsWired r w in ground arith
  turn-IsWired val (some x) r w = let v = add2context-IsWired r w in ground arith

  read-IsWired :
      (args : List String) (r : Reading Address)
      → IsWired r.context
      → IsWired (read is_space c args r).0.context
  unfolding read
  read-IsWired [] r w = add2context-IsWired r w
  read-IsWired (val ∷ []) r w = alone (turn is_space c val none r) (turn-IsWired val none r w)
    where
      alone :
          (t : Turn Address)
          → AtTurn t
          → IsWired
              (elim t as (λ _. Reading Address × Option Failure) [
                | Turn.passes s ↦ (add2context c s, none)
                | Turn.takes s ↦ (add2context c s, none)
                | Turn.fails f s ↦ (s, some f)
              ]).0.context
      alone (Turn.passes s) w = add2context-IsWired s w
      alone (Turn.takes s) w = add2context-IsWired s w
      alone (Turn.fails f s) w = w
  read-IsWired (val ∷ v ∷ rest) r w =
      middle (turn is_space c val (some v) r) (turn-IsWired val (some v) r w)
        (λ s. read-IsWired (v ∷ rest) s) (λ s. read-IsWired rest s)
    where
      middle :
          (t : Turn Address)
          → AtTurn t
          → ((s : Reading Address)
              → IsWired s.context
              → IsWired (read is_space c (v ∷ rest) s).0.context)
          → ((s : Reading Address) → IsWired s.context → IsWired (read is_space c rest s).0.context)
          → IsWired
              (elim t as (λ _. Reading Address × Option Failure) [
                | Turn.passes s ↦ read is_space c (v ∷ rest) s
                | Turn.takes s ↦ read is_space c rest s
                | Turn.fails f s ↦ (s, some f)
              ]).0.context
      middle (Turn.passes s) u f g = f s u
      middle (Turn.takes s) u f g = g s u
      middle (Turn.fails x s) u f g = u

  init-IsWired :
      (args : List String) (d : AppContext (IoOptions Address))
      → IsWired d
      → IsWired (init is_space c args d).0
  unfolding init
  init-IsWired args d w =
      let v = read-IsWired args (nothing_read d) w in
      elim (Option-cases (read is_space c args (nothing_read d)).1) [
        | inl e ↦
            rw (e, init)
              (connect_all-IsWired (read is_space c args (nothing_read d)).0.connections
                (read is_space c args (nothing_read d)).0.context v)
        | inr (f, e) ↦ rw (e, init) v
      ]

module _ {W : Type 0} (write_data : ℕ → DataPack → W → W) where
  -- `writeData` of the IOs at some positions, one after the other.
  abbrev pub write_to : List ℕ → DataPack → W → W
  write_to [] p w = w
  write_to (t ∷ ts) p w = write_to ts p (write_data t p w)

module _ {O W : Type 0} (write_data : ℕ → DataPack → W → W) where
  write_targets-write_to :
      (ts : List ℕ) (c : AppContext O) (p : DataPack) (w : W)
      → All (λ t. t < length c.handlers) ts
      → write_targets write_data ts c p w ≡ write_to write_data ts p w
  unfolding write_targets
  write_targets-write_to [] c p w h = refl
  write_targets-write_to (t ∷ ts) c p w (l, h) =
      rw ((get_some c.handlers t l).1) (write_targets-write_to ts c p (write_data t p w) h)

  pub on_new_data-write_to :
      (c : AppContext O) (i : ℕ) (h : IoHandler O) (p : DataPack) (w : W)
      → IsWired c
      → get_elem? c.handlers i ≡ some h
      → on_new_data write_data i c p w ≡ write_to write_data h.targets p w
  unfolding on_new_data
  on_new_data-write_to c i h p w v e =
      rw (e, on_new_data)
        (write_targets-write_to h.targets c p w
          (All-get (λ g. All (λ t. t < length c.handlers) g.targets) c.handlers i v e))

module _ {Address W : Type 0} (is_space : Spaces) (c : Conversions Address)
    (write_data : ℕ → DataPack → W → W) where
  -- After any command line, also one that is refused, data of the IO of a handler is written once to each
  -- target of it, in order: every target is there.
  pub init-write_to :
      (args : List String) (i : ℕ) (h : IoHandler (IoOptions Address)) (p : DataPack) (w : W)
      → get_elem? (init is_space c args (record { handlers = [] })).0.handlers i ≡ some h
      → on_new_data write_data i (init is_space c args (record { handlers = [] })).0 p w
        ≡ write_to write_data h.targets p w
  init-write_to args i h p w e =
      on_new_data-write_to write_data _ i h p w
        (init-IsWired is_space c args (record { handlers = [] }) tt) e
