-- ===== src/Io.antt =====
-- src/ioproxy/io/IOBase.hpp: data packs, the signals of an IO, and the interface that handlers use.
use ioproxy.Base.{
  ℕ, suc, ◌≡◌, refl, sym, String, List, [], length, inl, inr, Bool-cases, if◌then◌else◌, str_eq,
  eq_iff,
}
use ioproxy.Base.Variant.{Variant}

pub record DataPack : Type 0 where
  pub bytes : List ℕ
  pub fixed_size : ℕ
  pub timestamps : List ℕ
  pub parameters : List (String × Variant)

-- `DataPack(const QByteArray&)`
abbrev pub pack_of : List ℕ → DataPack
pack_of bytes = record { bytes = bytes; fixed_size = 0; timestamps = []; parameters = [] }

-- `data.bytes.count()`
abbrev pub count : DataPack → ℕ
count p = length p.bytes

-- The signals of `IOBase` that others connect to, with their arguments.
pub data Signal : Type 0 where
  started : Signal
  startup_error_occured : String → Signal
  error_occured : String → Signal
  new_data : DataPack → Signal

-- The virtual methods over an IO's own state. The signals that a method emits are listed in order.
pub record Io (S : Type 0) : Type 0 where
  pub start : S → S × List Signal
  pub stop : S → S × List Signal
  pub write_data : DataPack → S → S × List Signal

-- The name of an IO, and how often `uniqueNameChanged` was emitted.
pub record IoName : Type 0 where
  pub unique_name : String
  pub changes : ℕ

abbrev pub unnamed : IoName
unnamed = record { unique_name = ""; changes = 0 }

unfoldable pub set_unique_name : String → IoName → IoName
set_unique_name name s =
    if str_eq name s.unique_name then s else record { unique_name = name; changes = suc s.changes }

-- A name that was set is the name, and setting it once more emits nothing.
set_unique_name_lem :
    (name : String) (s : IoName)
    → ((set_unique_name name s).unique_name ≡ name)
      × ((set_unique_name name (set_unique_name name s)).changes ≡ (set_unique_name name s).changes)
unfolding set_unique_name
set_unique_name_lem name s = elim (Bool-cases (str_eq name s.unique_name)) [
  | inl e ↦
      rw (e, set_unique_name) (sym ((eq_iff name s.unique_name).0 e), rw (e, set_unique_name) refl)
  | inr e ↦ rw (e, set_unique_name) (refl, rw ((eq_iff name name).1 refl) refl)
]
