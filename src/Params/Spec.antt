-- ===== src/Params/Spec.antt =====
-- IOFactoryBase.cpp: what the reading of parameters gives, on all branches.
use ioproxy.Base.{
  ℕ, zero, suc, ◌^◌, ◌<◌, ◌≡◌, refl, ◌⊎◌, inl, inr, String, true, false, not, ◌&&◌, List, [], ◌∷◌,
  ◌++◌, arith, length, All, ltb, if◌then◌else◌, Expected, ok, err, missing_required,
  missing_required_value, missing_index, Bool-cases,
}
use ioproxy.Base.Maps.{values, contains, contains-values}
use ioproxy.Base.Variant.{Variant}
use ioproxy.Params.{ParaDef, IoParams, check_required, value_at, index_past, get_para_value}

abbrev pub read_index : List Variant → ℕ → String → ℕ → Expected Variant
read_index [] i key index = err (missing_index key index)
read_index (v ∷ vs) zero key index = ok v
read_index (v ∷ vs) (suc i) key index = read_index vs i key index

-- What a parameter reads as at a position, by the values given for its key, newest first.
abbrev pub read_values : List Variant → ParaDef → ℕ → Expected Variant
read_values [] def index =
    if def.required then err (missing_required_value def.key) else ok def.default_value
read_values (v ∷ vs) def index = read_index (v ∷ vs) index def.key index

read_index-value_at :
    (vs : List Variant) (i : ℕ) (key : String) (index : ℕ)
    → read_index vs i key index
      ≡ (if ltb i (length vs) then ok (value_at vs i) else err (missing_index key index))
read_index-value_at [] i key index = ground arith
read_index-value_at (v ∷ vs) zero key index = ground arith
read_index-value_at (v ∷ vs) (suc i) key index = ground (arith, read_index-value_at vs i key index)

index_past-ltb :
    (vs : List Variant) (i : ℕ)
    → 0 < length vs
    → length vs < 2 ^ 32
    → index_past vs i ≡ not (ltb i (length vs))
unfolding index_past
index_past-ltb vs i h k = ground arith

get_para_value-read_values :
    (params : IoParams) (def : ParaDef) (index : ℕ) (vs : List Variant)
    → values def.key params ≡ vs
    → length vs < 2 ^ 32
    → get_para_value params def index ≡ read_values vs def index
unfolding get_para_value
get_para_value-read_values params def index [] e h = rw (contains-values def.key params, e) refl
get_para_value-read_values params def index (v ∷ vs) e h =
    rw (contains-values def.key params, e)
      (rw
        (
          index_past-ltb (v ∷ vs) index (omega arith) h,
          read_index-value_at (v ∷ vs) index def.key index,
        )
        (ground arith))

-- A reading gives the value at the position, counted from the one given last; the default, at any
-- position, if the key was not given and is optional; and an error in the two other cases.
pub get_para_value_lem :
    (params : IoParams) (def : ParaDef) (index : ℕ)
    → length (values def.key params) < 2 ^ 32
    → get_para_value params def index ≡ read_values (values def.key params) def index
get_para_value_lem params def index h = get_para_value-read_values params def index _ refl h

-- The value given last, or else the default.
abbrev pub newest : List Variant → Variant → Variant
newest [] default = default
newest (v ∷ vs) default = v

abbrev pub option_value : IoParams → ParaDef → Variant
option_value params def = newest (values def.key params) def.default_value

abbrev pub IsSatisfied : IoParams → ParaDef → Type 0
IsSatisfied params def = (def.required && not (contains def.key params)) ≡ false

-- A reading at position 0 never fails once the required parameters are there, however many values
-- the key has.
pub get_para_value-first :
    (params : IoParams) (def : ParaDef)
    → IsSatisfied params def
    → get_para_value params def 0 ≡ ok (option_value params def)
unfolding get_para_value index_past
get_para_value-first params def h = go (values def.key params) refl
  where
    go :
        (vs : List Variant)
        → values def.key params ≡ vs
        → get_para_value params def 0 ≡ ok (option_value params def)
    go [] e =
        rw (contains-values def.key params, e) (ground (arith, contains-values def.key params))
    go (v ∷ vs) e = rw (contains-values def.key params, e) (ground arith)

-- The check passes if every required parameter is given, and otherwise names the first definition,
-- in the order of registration, that is required and not given.
pub check_required_lem :
    (defs : List ParaDef) (params : IoParams)
    → ((check_required defs params ≡ ok tt) × All (IsSatisfied params) defs)
      ⊎ ((before after : List ParaDef) × (def : ParaDef) × (defs ≡ before ++ (def ∷ after))
          × All (IsSatisfied params) before
          × (def.required ≡ true)
          × (contains def.key params ≡ false)
          × (check_required defs params ≡ err (missing_required def.key)))
unfolding check_required
check_required_lem [] params = inl (refl, tt)
check_required_lem (def ∷ defs) params =
    elim (Bool-cases (def.required && not (contains def.key params))) [
      | inl missing ↦ inr ([], defs, def, refl, tt, ground arith, ground arith, rw missing)
      | inr given ↦ elim (check_required_lem defs params) [
        | inl (passed, all) ↦ inl (rw given passed, (given, all))
        | inr (before, after, d, e, all, r, c, failed) ↦
            inr (def ∷ before, after, d, rw e, (given, all), r, c, rw given failed)
      ]
    ]
