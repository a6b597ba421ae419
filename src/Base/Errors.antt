-- ===== src/Base/Errors.antt =====
-- `tl::expected<T, QString>`: a value or an error. The messages that the code composes for its
-- errors are constructors here, with the values that the code puts into the text.
use Prim.Native.Nat.{ℕ}
use Prim.Native.String.{String}
use mathlib.Core.Path.{◌≡◌, refl}

pub data Error : Type 0 where
  null_parameter : Error
  already_registered : String → Error
  not_registered : String → Error
  cannot_find_io : String → Error
  missing_required : String → Error
  missing_required_value : String → Error
  missing_index : String → ℕ → Error
  missing_remote_port : String → ℕ → Error
  empty_arguments : Error
  missing_connect_value : Error
  bad_connect_syntax : Error
  cannot_load_plugin : String → Error
  cannot_access_plugin : String → Error

pub data Expected {ℓ} (A : Type ℓ) : Type ℓ where
  ok : A → Expected A
  err : Error → Expected A

module _ {ℓ κ} {V : Type ℓ} {W : Type κ} where
  infixl 5 ◌>>=◌
  abbrev pub ◌>>=◌ : Expected V → (V → Expected W) → Expected W
  ok value >>= next = next value
  err error >>= next = err error

  -- A bind with a value has one in its first part, and the second part gives its value there.
  pub >>=-eq-ok :
      (first : Expected V) (next : V → Expected W) {result : W}
      → (first >>= next) ≡ ok result
      → (value : V) × (first ≡ ok value) × (next value ≡ ok result)
  >>=-eq-ok (ok value) next given = (value, refl, given)
  >>=-eq-ok (err error) next given = cc
