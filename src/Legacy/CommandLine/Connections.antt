-- ===== src/Legacy/CommandLine/Connections.antt =====
-- legacy/CommandLineInitializer.hpp: the targets that the connections of `init` give the handlers.
use mathlib.Core.Option
use mathlib.Core.Path.{subst}
use mathlib.Core.List.{append_assoc, append-nil}
use ioproxy.Base.{
  ℕ, zero, suc, ◌+◌, ◌≡◌, refl, sym, ap, ◌∙◌, String, Bool, true, false, Option, none, some, List,
  [], ◌∷◌, ◌++◌, map, All, get_elem?, ◌==◌, str_eq, if◌then◌else◌,
}
use ioproxy.CmdLine.Text.{Spaces, trimmed, split_commas}
use ioproxy.CmdLine.Glue.{glue, Lacks, IsFilled, split_commas-glue}
use ioproxy.Engine.Signals.{at}
use ioproxy.Engine.Positions.{get_elem?-at}
use ioproxy.Legacy.Context.{IoHandler, AppContext, find_named, find_handler_by_id, add_target}
use ioproxy.Legacy.CommandLine.{Failure, connect_all, connect_parts}

-- The first position of a name.
abbrev pub position_of : String → List String → Option ℕ
position_of a [] = none
position_of a (x ∷ xs) =
    if str_eq a x then some 0 else elim (position_of a xs) [ none ↦ none | some i ↦ some (i + 1) ]

abbrev pub joined : String × String → String
joined (a, b) = glue a (glue "," b)

abbrev pub step_to : Option ℕ → Option ℕ → ℕ → List ℕ → List ℕ
step_to (some s) (some d) i rest = if s == i then d ∷ rest else rest
step_to _ _ i rest = rest

-- The positions that the connections lead to from a position, in order.
abbrev pub targets_of : List String → ℕ → List (String × String) → List ℕ
targets_of ids i [] = []
targets_of ids i ((a, b) ∷ links) =
    step_to (position_of a ids) (position_of b ids) i (targets_of ids i links)

-- A connection that can be read again, between two IOs that are there.
pub record IsReadable (is_space : Spaces) (ids : List String) (l : String × String) : Type 0 where
  pub no_commas : Lacks b',' l.0 × Lacks b',' l.1
  pub both_filled : IsFilled l.0 × IsFilled l.1
  pub tight : trimmed is_space (joined l) ≡ joined l
  pub source : (i : ℕ) × (position_of l.0 ids ≡ some i)
  pub destination : (i : ℕ) × (position_of l.1 ids ≡ some i)

module _ {O : Type 0} where
  abbrev pub names : List (IoHandler O) → List String
  names hs = map (λ h. h.unique_name) hs

  find_named-names :
      (a : String) (hs : List (IoHandler O)) → find_named a hs ≡ position_of a (names hs)
  unfolding find_named
  find_named-names a [] = refl
  find_named-names a (h ∷ hs) = rw (find_named-names a hs, find_named) refl

  abbrev pub aim : List ℕ → IoHandler O → IoHandler O
  aim ts h = record h { targets = h.targets ++ ts }

  names-at : (i : ℕ) (ts : List ℕ) (hs : List (IoHandler O)) → names (at i (aim ts) hs) ≡ names hs
  names-at i ts [] = refl
  names-at zero ts (h ∷ hs) = refl
  names-at (suc i) ts (h ∷ hs) = ap (λ l. h.unique_name ∷ l) (names-at i ts hs)

  add_target-aim :
      (s d : ℕ) (c : AppContext O) → (add_target s d c).handlers ≡ at s (aim (d ∷ [])) c.handlers
  unfolding add_target
  add_target-aim s d c = refl

  connect_parts-joined :
      (is_space : Spaces) (l : String × String) (c : AppContext O)
      (h : IsReadable is_space (names c.handlers) l)
      → connect_parts (split_commas (joined l)) c ≡ (add_target h.source.0 h.destination.0 c, none)
  unfolding find_handler_by_id
  connect_parts-joined is_space (a, b) c h =
      rw (split_commas-glue a b h.no_commas.0 h.no_commas.1 h.both_filled.0 h.both_filled.1) (
        rw
          (
            connect_parts,
            find_named-names a c.handlers,
            h.source.1,
            find_named-names b c.handlers,
            h.destination.1,
          )
          refl)

  connect_all-cons :
      (is_space : Spaces) (l : String × String) (rest : List String) (c : AppContext O)
      (h : IsReadable is_space (names c.handlers) l)
      → connect_all (joined l ∷ rest) c ≡ connect_all rest (add_target h.source.0 h.destination.0 c)
  unfolding connect_all
  connect_all-cons is_space l rest c h =
      ap
        (λ (q : AppContext O × Option Failure). elim q.1 [
          | none ↦ connect_all rest q.0
          | some f ↦ (q.0, some f)
        ])
        (connect_parts-joined is_space l c h)

  aim-twice :
      (b : Bool) (d : ℕ) (rest : List ℕ) (o : Option (IoHandler O))
      → Option.map (aim rest) (if b then Option.map (aim (d ∷ [])) o else o)
        ≡ Option.map (aim (if b then d ∷ rest else rest)) o
  aim-twice false d rest o = refl
  aim-twice true d rest none = refl
  aim-twice true d rest (some h) =
      ap (λ l. some (record h { targets = l })) (append_assoc h.targets (d ∷ []) rest)

  aim-nil : (o : Option (IoHandler O)) → o ≡ Option.map (aim []) o
  aim-nil none = refl
  aim-nil (some h) = ap (λ l. some (record h { targets = l })) (sym (append-nil h.targets))

  aim-step :
      (is_space : Spaces) (l : String × String) (c : AppContext O)
      (h : IsReadable is_space (names c.handlers) l) (i : ℕ) (rest : List ℕ)
      → Option.map (aim rest) (get_elem? (add_target h.source.0 h.destination.0 c).handlers i)
        ≡ Option.map
            (aim (
              step_to
                (position_of l.0 (names c.handlers))
                (position_of l.1 (names c.handlers))
                i
                rest))
            (get_elem? c.handlers i)
  unfolding add_target
  aim-step is_space l c h i rest =
      ap (λ o. Option.map (aim rest) o)
        (get_elem?-at h.source.0 i (aim (h.destination.0 ∷ [])) c.handlers)
      ∙ (aim-twice (h.source.0 == i) h.destination.0 rest (get_elem? c.handlers i)
          ∙ ap (λ ts. Option.map (aim ts) (get_elem? c.handlers i))
              (sym (
                ap (λ x. step_to x (position_of l.1 (names c.handlers)) i rest) h.source.1
                ∙ ap (λ y. step_to (some h.source.0) y i rest) h.destination.1)))

  pub connect_all-joined :
      (is_space : Spaces) (links : List (String × String)) (c : AppContext O)
      → All (IsReadable is_space (names c.handlers)) links
      → (d : AppContext O) × (connect_all (map joined links) c ≡ (d, none))
        × ((i : ℕ)
            → get_elem? d.handlers i
              ≡ Option.map (aim (targets_of (names c.handlers) i links)) (get_elem? c.handlers i))
  unfolding connect_all
  connect_all-joined is_space [] c h = (c, refl, λ i. aim-nil (get_elem? c.handlers i))
  connect_all-joined is_space (l ∷ links) c (h, hs) =
      let same = names-at h.source.0 (h.destination.0 ∷ []) c.handlers in
      let (d, e, g) =
        connect_all-joined is_space links (add_target h.source.0 h.destination.0 c)
          (subst (λ ids. All (IsReadable is_space ids) links) (sym same) hs) in
      (
        d,
        connect_all-cons is_space l (map joined links) c h ∙ e,
        λ i.
            g i
            ∙ (ap
                  (λ ids.
                    Option.map (aim (targets_of ids i links))
                      (get_elem? (add_target h.source.0 h.destination.0 c).handlers i))
                  same
                ∙ aim-step is_space l c h i (targets_of (names c.handlers) i links)),
      )
