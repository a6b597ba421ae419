-- ===== src/CmdLine/Glue.antt =====
-- src/ioproxy-cli/src/CmdLineConfig.cpp: the texts that its string functions take apart, put together.
use Prim.Native.Char.{code}
use ioproxy.Base.{ℕ, ◌≡◌, refl, ap, String, false, some, List, [], ◌∷◌, ◌==◌}
use ioproxy.CmdLine.Text.{cut_at_equals, split_commas, split_parts, keep_part}

-- Two texts, one behind the other.
abbrev pub glue : String → String → String
glue String.[] t = t
glue (String.◌∷◌ c s) t = String.◌∷◌ c (glue s t)

-- A text without a given character.
abbrev pub Lacks : ℕ → String → Type 0
Lacks n String.[] = Unit
Lacks n (String.◌∷◌ c s) = ((code c == n) ≡ false) × Lacks n s

abbrev pub IsFilled : String → Type 0
IsFilled String.[] = ⊥
IsFilled (String.◌∷◌ c s) = Unit

pub cut_at_equals-glue :
    (k v : String) → Lacks b'=' k → cut_at_equals (glue k (glue "=" v)) ≡ some (k, v)
unfolding cut_at_equals
cut_at_equals-glue String.[] v h = refl
cut_at_equals-glue (String.◌∷◌ c k) v h = rw (h.0) (rw (cut_at_equals-glue k v h.1))

split_parts-Lacks : (s : String) → Lacks b',' s → split_parts s ≡ (s, [])
unfolding split_parts
split_parts-Lacks String.[] h = refl
split_parts-Lacks (String.◌∷◌ c s) h = rw (split_parts-Lacks s h.1) (rw (h.0))

keep_part-filled : (s : String) (parts : List String) → IsFilled s → keep_part s parts ≡ s ∷ parts
keep_part-filled String.[] parts h = elim h [ ]
keep_part-filled (String.◌∷◌ c s) parts h = refl

split_parts-glue :
    (a b : String)
    → Lacks b',' a
    → Lacks b',' b
    → IsFilled b
    → split_parts (glue a (glue "," b)) ≡ (a, b ∷ [])
unfolding split_parts
split_parts-glue String.[] b ha hb f =
    rw (split_parts-Lacks b hb) (ap (λ (l : List String). (String.[], l)) (keep_part-filled b [] f))
split_parts-glue (String.◌∷◌ c a) b ha hb f = rw (split_parts-glue a b ha.1 hb f) (rw (ha.0))

pub split_commas-glue :
    (a b : String)
    → Lacks b',' a
    → Lacks b',' b
    → IsFilled a
    → IsFilled b
    → split_commas (glue a (glue "," b)) ≡ a ∷ b ∷ []
unfolding split_commas
split_commas-glue a b ha hb fa fb =
    rw (split_parts-glue a b ha hb fb) (keep_part-filled a (b ∷ []) fa)
