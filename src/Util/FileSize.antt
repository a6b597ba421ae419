-- ===== src/Util/FileSize.antt =====
-- src/ioproxy/util/HumanReadableFormatter.cpp: a number of bytes in the largest unit below it. The
-- digits of the quotient, a `double`, are Qt's: a function of the number, the divider and the
-- precision.
use ioproxy.Base.{
  ℕ, ◌*◌, ◌^◌, ◌≡◌, ◌<◌, ◌⊎◌, inl, inr, refl, String, List, [], ◌∷◌, arith, ltb, Bool-cases,
  get_elem?, some, if◌then◌else◌,
}
use ioproxy.Base.Int.{ℤ, pos, ltb_ℤ, ◌≤ℤ◌, ◌<ℤ◌}

abbrev pub Digits : Type 0
Digits = ℤ → ℕ → ℕ → String

-- `abbrevation` and `divider` after the chain of tests.
unfoldable pub unit_of : ℤ → String × ℕ
unit_of size =
    if ltb_ℤ (pos 1152921504606846976) size
    then ("EB", 1152921504606846976)
    else if ltb_ℤ (pos 1125899906842624) size
    then ("PB", 1125899906842624)
    else if ltb_ℤ (pos 1099511627776) size
    then ("TB", 1099511627776)
    else if ltb_ℤ (pos 1073741824) size
    then ("GB", 1073741824)
    else if ltb_ℤ (pos 1048576) size
    then ("MB", 1048576)
    else if ltb_ℤ (pos 1024) size
    then ("KB", 1024)
    else ("Bytes", 1)

-- The number and the unit, as `QString("%1 %2")` joins them.
unfoldable pub file_size : Digits → (String → String → String) → ℤ → ℕ → String
unfolding unit_of
file_size digits join size precision =
    let (abbreviation, divider) = unit_of size in
    join (digits size divider (if ltb 1 divider then precision else 0)) abbreviation

-- The units, each a thousand and twenty-four of the one before.
abbrev pub units : List (String × ℕ)
units =
    ("Bytes", 1)
    ∷ ("KB", 1024)
    ∷ ("MB", 1024 ^ 2)
    ∷ ("GB", 1024 ^ 3)
    ∷ ("TB", 1024 ^ 4)
    ∷ ("PB", 1024 ^ 5)
    ∷ ("EB", 1024 ^ 6)
    ∷ []

-- How the unit fits the number: it is one of `units`; it is exceeded by the number, but for bytes;
-- and 1024 of it are not exceeded, but for the largest.
abbrev pub Fits : ℤ → String × ℕ → Type 0
Fits size u =
    ((k : ℕ) × (k < 7) × (get_elem? units k ≡ some u))
    × ((u.1 ≡ 1) ⊎ (pos u.1 <ℤ size))
    × ((u.1 ≡ 1024 ^ 6) ⊎ (size ≤ℤ pos (1024 * u.1)))

chain-Fits :
    (size : ℤ) (k : ℕ) (u rest : String × ℕ)
    → k < 7
    → get_elem? units k ≡ some u
    → (u.1 ≡ 1024 ^ 6) ⊎ (size ≤ℤ pos (1024 * u.1))
    → (size ≤ℤ pos u.1 → Fits size rest)
    → Fits size (if ltb_ℤ (pos u.1) size then u else rest)
chain-Fits size k u rest h e top below = elim (Bool-cases (ltb_ℤ (pos u.1) size)) [
  | inl b ↦ rw b ((k, h, e), inr (ground arith), top)
  | inr b ↦ rw b (below (ground arith))
]

-- The unit of a size is one of seven, each 1024 of the one before; the size exceeds it, but for bytes;
-- and the size is at most 1024 of it, but for the largest.
pub unit_of-Fits : (size : ℤ) → Fits size (unit_of size)
unfolding unit_of
unit_of-Fits size = chain-Fits size 6 _ _ (omega arith) refl (inl refl) λ eb.
    chain-Fits size 5 _ _ (omega arith) refl (inr eb) λ pb.
      chain-Fits size 4 _ _ (omega arith) refl (inr pb) λ tb.
        chain-Fits size 3 _ _ (omega arith) refl (inr tb) λ gb.
          chain-Fits size 2 _ _ (omega arith) refl (inr gb) λ mb.
            chain-Fits size 1 _ _ (omega arith) refl (inr mb)
              λ kb. ((0, omega arith, refl), inl refl, inr kb)
