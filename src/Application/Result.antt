-- ===== src/Application/Result.antt =====
-- The results of IOProxyConsoleApplication.cpp: a value, or the error that ends `start`, or an
-- exception; `none` where the run does not end within its fuel.
use ioproxy.Base.{◌≡◌, refl, Option, none, some, Expected, Error, ok, err}
use ioproxy.Factory.{Outcome, done, failed, thrown, check}

abbrev pub Run {ℓ} : Type ℓ → Type ℓ
Run A = Option (Outcome A)

module _ {ℓ κ} {A : Type ℓ} {B : Type κ} where
  infixl 5 ◌>>=◌
  abbrev pub ◌>>=◌ : Run A → (A → Run B) → Run B
  none >>= next = none
  some (done a) >>= next = next a
  some (failed x) >>= next = some (failed x)
  some (thrown x) >>= next = some (thrown x)

module _ {ℓ} {A : Type ℓ} where
  -- `if (!e) { Q_EMIT errorOccurred(e.error()); return; }`
  abbrev pub expected : Expected A → Run A
  expected e = some (check e)

  -- A part that reports no error.
  abbrev pub ends : Option A → Run A
  ends none = none
  ends (some a) = some (done a)

  -- The run ends, without an exception, in an error or in a value of which `P` holds.
  pub data Ends {κ} (P : A → Type κ) : Run A → Type (ℓ ⊔ κ) where
    in_value : (a : A) → P a → Ends P (some (done a))
    in_error : (x : Error) → Ends P (some (failed x))

  pub Ends-expected {κ} :
      (P : A → Type κ) (e : Expected A) → ((a : A) → e ≡ ok a → P a) → Ends P (expected e)
  Ends-expected P (ok a) h = in_value a (h a refl)
  Ends-expected P (err x) h = in_error x

  pub Ends-ends {κ} : (P : A → Type κ) (o : Option A) (a : A) → o ≡ some a → P a → Ends P (ends o)
  Ends-ends P o a e p = rw e (in_value a p)

module _ {ℓ ℓ' κ κ'} {A : Type ℓ} {B : Type ℓ'} {P : A → Type κ} where
  -- The rule of a sequence.
  pub Ends->>= :
      (Q : B → Type κ') (m : Run A) (next : A → Run B)
      → Ends P m
      → ((a : A) → P a → Ends Q (next a))
      → Ends Q (m >>= next)
  Ends->>= Q _ next (in_value a p) h = h a p
  Ends->>= Q _ next (in_error x) h = in_error x

module _ {ℓ κ κ'} {A : Type ℓ} where
  pub Ends-weaken :
      (P : A → Type κ) (Q : A → Type κ') (m : Run A) → ((a : A) → P a → Q a) → Ends P m → Ends Q m
  Ends-weaken P Q _ h (in_value a p) = in_value a (h a p)
  Ends-weaken P Q _ h (in_error x) = in_error x

module _ {ℓ κ} {A : Type ℓ} {P : A → Type κ} where
  -- A value that a run ends in is its result.
  pub Ends-with_result : (m : Run A) → Ends P m → Ends (λ a. P a × (m ≡ some (done a))) m
  Ends-with_result _ (in_value a p) = in_value a (p, refl)
  Ends-with_result _ (in_error x) = in_error x
