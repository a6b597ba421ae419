-- ===== src/Params.antt =====
-- src/ioproxy/io/IOFactoryBase.hpp and IOFactoryBase.cpp: parameter definitions, and the reading of
-- parameters that the built-in factories share.
pub mod Spec
use ioproxy.Base.{
  ℕ, zero, suc, ◌+◌, ◌-◌, ◌%◌, ◌^◌, String, Bool, false, ◌&&◌, not, none, some, List, [], ◌∷◌, ◌++◌,
  length, ltb, if◌then◌else◌, Expected, ok, err, missing_required, missing_required_value,
  missing_index,
}
use ioproxy.Base.Maps.{lookup, insert, values, contains}
use ioproxy.Base.Variant.{Variant, invalid}

pub data DataType : Type 0 where
  int8 int16 int32 int64 uint8 uint16 uint32 uint64 float32 double64 boolean string : DataType

pub record ParaDef : Type 0 where
  pub key : String
  pub description : String
  pub value_data_type : DataType
  pub required : Bool
  pub multi : Bool
  pub default_value : Variant

-- The values of the fields of a fresh `IOParaDef def;`.
abbrev pub default_def : ParaDef
default_def = record {
  key = "";
  description = "";
  value_data_type = string;
  required = false;
  multi = false;
  default_value = invalid;
}

-- `QMultiMap<QString, QVariant>`
abbrev pub IoParams : Type 0
IoParams = List (String × Variant)

pub record FactoryBase : Type 0 where
  pub para_defs : List ParaDef
  pub para_defs_by_key : List (String × ParaDef)

abbrev pub empty_base : FactoryBase
empty_base = record { para_defs = []; para_defs_by_key = [] }

unfoldable pub add_para_def : FactoryBase → ParaDef → FactoryBase
unfolding insert
add_para_def base def = record {
  para_defs = base.para_defs ++ (def ∷ []);
  para_defs_by_key = insert def.key def base.para_defs_by_key;
}

-- `m_paraDefsByKey[key]`; a missing key gives a default-constructed definition.
unfoldable pub para_def : FactoryBase → String → ParaDef
unfolding lookup
para_def base key = elim (lookup key base.para_defs_by_key) [ none ↦ default_def | some def ↦ def ]

unfoldable pub check_required : List ParaDef → IoParams → Expected (Unit {0})
check_required [] params = ok tt
check_required (def ∷ defs) params =
    let rest = check_required defs params in
    if def.required && not (contains def.key params) then err (missing_required def.key) else rest

unfoldable pub check_required_parameters : FactoryBase → IoParams → Expected (Unit {0})
unfolding check_required
check_required_parameters base params = check_required base.para_defs params

-- `values.at(index)`. A position past the end is undefined in the source; its guard excludes it.
abbrev pub value_at : List Variant → ℕ → Variant
value_at [] i = invalid
value_at (v ∷ vs) zero = v
value_at (v ∷ vs) (suc i) = value_at vs i

-- `static_cast<int32_t>(values.size()) - 1 < index`, which compares as 32-bit unsigned numbers.
unfoldable pub index_past : List Variant → ℕ → Bool
index_past vs index = ltb ((length vs + 2 ^ 32 - 1) % 2 ^ 32) index

unfoldable pub get_para_value : IoParams → ParaDef → ℕ → Expected Variant
unfolding index_past
get_para_value params def index =
    if not (contains def.key params)
    then (if def.required then err (missing_required_value def.key) else ok def.default_value)
    else (if index_past (values def.key params) index
        then err (missing_index def.key index)
        else ok (value_at (values def.key params) index))
