-- ===== src/Legacy/License/Written.antt =====
-- legacy/license/License.cpp: a license that was written out is read as what it says.
use ioproxy.Base.{
  if_same, ℕ, zero, suc, ◌<◌, ◌≡◌, refl, sym, ap, ◌∙◌, String, Bool, true, false, Option, none,
  some, List, [], ◌∷◌, ◌++◌, map, length, All, arith, str_eq, if◌then◌else◌, Bool-cases, inl, inr,
  if_false, eq_iff, ◌≢◌,
}
use mathlib.Core.List.{append_assoc, append-nil}
use ioproxy.CmdLine.Glue.{glue, Lacks}
use ioproxy.Legacy.License.{
  TextStream, License, cut_at_space, read_statement, read_statements, read,
}

-- What the documentation says of the stream: it gives the lines of its text, one after the other.
pub record IsLines {Stream : Type 0} (qt : TextStream Stream) : Type 0 where
  pub rest : Stream → List String
  pub at_end : (s : Stream) → rest s ≡ [] → qt.read_line_into s ≡ none
  pub next_line :
      (s : Stream) (line : String) (lines : List String)
      → rest s ≡ line ∷ lines
      → (s' : Stream) × (qt.read_line_into s ≡ some (line, s')) × (rest s' ≡ lines)

-- What a line of a license can say.
pub data Statement : Type 0 where
  allow_everything : Statement
  allow : String → Statement
  blank : Statement
  word : String → Statement
  other : String → String → Statement

abbrev pub line_of : Statement → String
line_of allow_everything = "allow all"
line_of (allow name) = glue "allow" (glue " " name)
line_of blank = ""
line_of (word text) = text
line_of (other key value) = glue key (glue " " value)

-- The texts can be told apart.
abbrev pub IsPlain : Statement → Type 0
IsPlain allow_everything = Unit
IsPlain (allow name) = str_eq name "all" ≡ false
IsPlain blank = Unit
IsPlain (word text) = Lacks b' ' text
IsPlain (other key value) = Lacks b' ' key × (str_eq key "allow" ≡ false)

-- What a statement adds to a license.
abbrev pub adds : Statement → License → License
adds allow_everything l = record l { allow_all = true }
adds (allow name) l = record l { allows = l.allows ++ (name ∷ []) }
adds blank l = l
adds (word text) l = l
adds (other key value) l = l

cut_at_space-glue : (k v : String) → Lacks b' ' k → cut_at_space (glue k (glue " " v)) ≡ some (k, v)
unfolding cut_at_space
cut_at_space-glue String.[] v h = refl
cut_at_space-glue (String.◌∷◌ c k) v h = rw (h.0) (rw (cut_at_space-glue k v h.1))

cut_at_space-Lacks : (s : String) → Lacks b' ' s → cut_at_space s ≡ none
unfolding cut_at_space
cut_at_space-Lacks String.[] h = refl
cut_at_space-Lacks (String.◌∷◌ c s) h = rw (h.0) (rw (cut_at_space-Lacks s h.1))

-- A line with a space is not empty.
read_statement-cut :
    (line key value : String) (l : License)
    → cut_at_space line ≡ some (key, value)
    → read_statement line l ≡ (
        if str_eq key "allow"
        then if str_eq value "all"
          then record l { allow_all = true }
          else record l { allows = l.allows ++ (value ∷ []) }
        else l)
unfolding read_statement cut_at_space
read_statement-cut line key value l e = elim (Bool-cases (str_eq line "")) [
  | inl empty ↦
      let f : ◌≡◌ {A = Option (String × String)} none (some (key, value)) =
        ap cut_at_space (sym ((eq_iff line "").0 empty)) ∙ e in
      cc
  | inr filled ↦ rw (filled, e) refl
]

read_statement-line_of :
    (x : Statement) (l : License) → IsPlain x → read_statement (line_of x) l ≡ adds x l
unfolding read_statement
read_statement-line_of allow_everything l h = refl
read_statement-line_of (allow name) l h =
    read_statement-cut (line_of (allow name)) "allow" name l
      (cut_at_space-glue "allow" name (refl, (refl, (refl, (refl, (refl, tt))))))
    ∙ if_false _ _ h
read_statement-line_of blank l h = refl
read_statement-line_of (word text) l h = elim (Bool-cases (str_eq text "")) [
  | inl empty ↦ rw empty refl
  | inr filled ↦ rw (filled, cut_at_space-Lacks text h) refl
]
read_statement-line_of (other key value) l (h, k) =
    read_statement-cut (line_of (other key value)) key value l (cut_at_space-glue key value h)
    ∙ if_false _ _ k

-- What some statements add to a license, in their order.
abbrev pub adds_all : List Statement → License → License
adds_all [] l = l
adds_all (x ∷ xs) l = adds_all xs (adds x l)

-- Whether one of the statements allows everything, and the names of the others that allow something.
abbrev pub says_all : List Statement → Bool
says_all [] = false
says_all (allow_everything ∷ xs) = true
says_all (allow name ∷ xs) = says_all xs
says_all (blank ∷ xs) = says_all xs
says_all (word text ∷ xs) = says_all xs
says_all (other key value ∷ xs) = says_all xs

abbrev pub names : List Statement → List String
names [] = []
names (allow_everything ∷ xs) = names xs
names (allow name ∷ xs) = name ∷ names xs
names (blank ∷ xs) = names xs
names (word text ∷ xs) = names xs
names (other key value ∷ xs) = names xs

-- What a license allows after statements that it did not have.
abbrev pub extended : List Statement → License → License
extended xs l = record {
  allow_all = if says_all xs then true else l.allow_all;
  allows = l.allows ++ names xs;
}

adds_all-extended : (xs : List Statement) (l : License) → adds_all xs l ≡ extended xs l
adds_all-extended [] l = ap (λ k. record l { allows = k }) (sym (append-nil l.allows))
adds_all-extended (allow_everything ∷ xs) l =
    adds_all-extended xs (record l { allow_all = true })
    ∙ ap (λ b. record { allow_all = b; allows = l.allows ++ names xs }) (if_same (says_all xs) true)
adds_all-extended (allow name ∷ xs) l =
    adds_all-extended xs (record l { allows = l.allows ++ (name ∷ []) })
    ∙ ap (λ k. record { allow_all = if says_all xs then true else l.allow_all; allows = k })
        (append_assoc l.allows (name ∷ []) (names xs))
adds_all-extended (blank ∷ xs) l = adds_all-extended xs l
adds_all-extended (word text ∷ xs) l = adds_all-extended xs l
adds_all-extended (other key value ∷ xs) l = adds_all-extended xs l

module _ {Stream : Type 0} {qt : TextStream Stream} (lines : IsLines qt) where
  read_statements-adds_all :
      (fuel : ℕ) (xs : List Statement) (s : Stream) (l : License)
      → lines.rest s ≡ map line_of xs
      → All IsPlain xs
      → length xs < fuel
      → read_statements qt fuel s l ≡ some (adds_all xs l)
  unfolding read_statements
  read_statements-adds_all zero xs s l e plain enough = absurd (omega arith)
  read_statements-adds_all (suc fuel) [] s l e plain enough = rw (lines.at_end s e, read_statements)
  read_statements-adds_all (suc fuel) (x ∷ xs) s l e (h, plain) enough =
      let (s', f, e') = lines.next_line s (line_of x) (map line_of xs) e in
      rw (f, read_statements)
        (rw (read_statement-line_of x l h)
          (read_statements-adds_all fuel xs s' (adds x l) e' plain (omega arith)))

  -- A text that has the header as its first line, and then statements that can be told apart, is read in one
  -- turn for each statement and one more. The license then allows what it allowed before and what the
  -- statements allow: everything, if it did or one of them does, and the names that it had before those of
  -- the statements, in their order.
  pub read-extended :
      (fuel : ℕ) (xs : List Statement) (text : String) (l : License)
      → lines.rest (qt.stream text) ≡ "License 1" ∷ map line_of xs
      → All IsPlain xs
      → length xs < fuel
      → read qt fuel text l ≡ some (true, extended xs l)
  unfolding read
  read-extended fuel xs text l e plain enough =
      let (s, f, e') = lines.next_line (qt.stream text) "License 1" (map line_of xs) e in
      rw (f, read)
        (rw (read_statements-adds_all fuel xs s l e' plain enough)
          (ap (λ k. some (true, k)) (adds_all-extended xs l)))

  -- Any other text is refused, and leaves the license as it is.
  read-refused :
      (fuel : ℕ) (text : String) (l : License) (ys : List String)
      → lines.rest (qt.stream text) ≡ ys
      → ((zs : List String) → ys ≢ "License 1" ∷ zs)
      → read qt fuel text l ≡ some (false, l)
  unfolding read
  read-refused fuel text l [] e unlike = rw (lines.at_end (qt.stream text) e, read)
  read-refused fuel text l (y ∷ ys) e unlike =
      let (s, f, e') = lines.next_line (qt.stream text) y ys e in
      elim (Bool-cases (str_eq y "License 1")) [
        | inl header ↦ absurd (unlike ys (ap (λ z. z ∷ ys) ((eq_iff y "License 1").0 header)))
        | inr different ↦ rw (f, read) (rw different)
      ]
