-- ===== src/Relay/Stations.antt =====
-- src/ioproxy/io/IOBase.hpp: what is known of the IOs of two classes is known of them in one engine.
use ioproxy.Base.{arith, ℕ, ◌≡◌, ◌≢◌, ◌⊎◌, refl, sym, ap, inl, inr, List, [], ◌∷◌, ◌++◌}
use ioproxy.Io.{DataPack, Signal, Io}
use ioproxy.Station.{Station, first, second, as_first, as_second, station_io}
use ioproxy.Device.{oldest_first}
use ioproxy.Relay.Reports.{OnlyErrors}
use ioproxy.Relay.Flow.{IsSink}
use ioproxy.Relay.Events.{IsMild, IsSource}

pub OnlyErrors-append :
    (xs ys : List Signal) → OnlyErrors xs → OnlyErrors ys → OnlyErrors (xs ++ ys)
OnlyErrors-append [] ys a b = b
OnlyErrors-append (Signal.error_occured m ∷ xs) ys a b = OnlyErrors-append xs ys a b
OnlyErrors-append (Signal.started ∷ xs) ys a b = elim a [ ]
OnlyErrors-append (Signal.startup_error_occured m ∷ xs) ys a b = elim a [ ]
OnlyErrors-append (Signal.new_data p ∷ xs) ys a b = elim a [ ]

pub oldest_first-OnlyErrors :
    (signals : List Signal) → OnlyErrors signals → OnlyErrors (oldest_first signals)
oldest_first-OnlyErrors [] a = tt
oldest_first-OnlyErrors (Signal.error_occured m ∷ xs) a =
    OnlyErrors-append (oldest_first xs) (Signal.error_occured m ∷ []) (oldest_first-OnlyErrors xs a)
      tt
oldest_first-OnlyErrors (Signal.started ∷ xs) a = elim a [ ]
oldest_first-OnlyErrors (Signal.startup_error_occured m ∷ xs) a = elim a [ ]
oldest_first-OnlyErrors (Signal.new_data p ∷ xs) a = elim a [ ]

IsMild-append : (xs ys : List Signal) → IsMild xs → IsMild ys → IsMild (xs ++ ys)
IsMild-append [] ys a b = b
IsMild-append (Signal.error_occured m ∷ xs) ys a b = IsMild-append xs ys a b
IsMild-append (Signal.new_data p ∷ xs) ys a b = IsMild-append xs ys a b
IsMild-append (Signal.started ∷ xs) ys a b = elim a [ ]
IsMild-append (Signal.startup_error_occured m ∷ xs) ys a b = elim a [ ]

pub oldest_first-IsMild : (signals : List Signal) → IsMild signals → IsMild (oldest_first signals)
oldest_first-IsMild [] a = tt
oldest_first-IsMild (Signal.error_occured m ∷ xs) a =
    IsMild-append (oldest_first xs) (Signal.error_occured m ∷ []) (oldest_first-IsMild xs a) tt
oldest_first-IsMild (Signal.new_data p ∷ xs) a =
    IsMild-append (oldest_first xs) (Signal.new_data p ∷ []) (oldest_first-IsMild xs a) tt
oldest_first-IsMild (Signal.started ∷ xs) a = elim a [ ]
oldest_first-IsMild (Signal.startup_error_occured m ∷ xs) a = elim a [ ]

-- Something was emitted, in either order.
pub oldest_first_lem : (signals : List Signal) → signals ≢ [] → oldest_first signals ≢ []
oldest_first_lem [] a b = a refl
oldest_first_lem (x ∷ xs) a b =
    elim (oldest_first xs) as (λ l. l ++ (x ∷ []) ≢ []) [ [] ↦ λ q. cc | y ∷ ys ↦ λ q. cc ] b

tail-same : (xs ys : List ℕ) (x y : ℕ) → x ∷ xs ≡ y ∷ ys → xs ≡ ys
tail-same xs ys x y e = cc

one_zero : (xs ys : List ℕ) → 1 ∷ xs ≢ 0 ∷ ys
one_zero xs ys e = let f : ◌≡◌ {A = ℕ} 1 0 = cc in omega arith

module _ {A B : Type 0} where
  -- What happens at an IO of the first class, or of the second.
  abbrev pub at_first : (A → A × List Signal) → Station A B → Station A B × List Signal
  at_first f (first a) = as_first (f a)
  at_first f (second b) = (second b, [])

  abbrev pub at_second : (B → B × List Signal) → Station A B → Station A B × List Signal
  at_second g (first a) = (first a, [])
  at_second g (second b) = as_second (g b)

  abbrev pub EitherReady : (A → Type 0) → (B → Type 0) → Station A B → Type 0
  EitherReady P Q (first a) = P a
  EitherReady P Q (second b) = Q b

  -- The number of the class stands before the bytes.
  abbrev pub either_taken : (A → List ℕ) → (B → List ℕ) → Station A B → List ℕ
  either_taken t u (first a) = 0 ∷ t a
  either_taken t u (second b) = 1 ∷ u b

  pub taken_of_first :
      (t : A → List ℕ) (u : B → List ℕ) (s : Station A B) (l : List ℕ)
      → either_taken t u s ≡ 0 ∷ l
      → (a : A) × (s ≡ first a) × (t a ≡ l)
  taken_of_first t u (first a) l e = (a, refl, tail-same (t a) l 0 0 e)
  taken_of_first t u (second b) l e = absurd (one_zero (u b) l e)

  pub taken_of_second :
      (t : A → List ℕ) (u : B → List ℕ) (s : Station A B) (l : List ℕ)
      → either_taken t u s ≡ 1 ∷ l
      → (b : B) × (s ≡ second b) × (u b ≡ l)
  taken_of_second t u (first a) l e = absurd (one_zero l (t a) (sym e))
  taken_of_second t u (second b) l e = (b, refl, tail-same (u b) l 1 1 e)

  module _ {P : A → Type 0} {Q : B → Type 0} {t : A → List ℕ} {u : B → List ℕ} where
    pub station_io-IsSink :
        {f : Io A} {g : Io B}
        → IsSink f P t
        → IsSink g Q u
        → IsSink (station_io f g) (EitherReady P Q) (either_taken t u)
    station_io-IsSink {f} {g} k l = record { terse = terse; takes = takes }
      where
        terse : (p : DataPack) (s : Station A B) → OnlyErrors ((station_io f g).write_data p s).1
        terse p (first a) = k.terse p a
        terse p (second b) = l.terse p b

        takes :
            (p : DataPack) (s : Station A B)
            → EitherReady P Q s
            → let r = (station_io f g).write_data p s in
              ((r.1 ≡ [])
                × EitherReady P Q r.0
                × (either_taken t u r.0 ≡ either_taken t u s ++ p.bytes))
              ⊎ (r.1 ≢ [])
        takes p (first a) r = elim (k.takes p a r) [
          | inl (q, r', e) ↦ inl (q, r', ap (λ m. 0 ∷ m) e)
          | inr noisy ↦ inr noisy
        ]
        takes p (second b) r = elim (l.takes p b r) [
          | inl (q, r', e) ↦ inl (q, r', ap (λ m. 1 ∷ m) e)
          | inr noisy ↦ inr noisy
        ]

    pub at_first-IsSource :
        {f : A → A × List Signal}
        → IsSource P t f
        → IsSource (EitherReady P Q) (either_taken t u) (at_first f)
    at_first-IsSource {f} k = record { mild = mild; keeps = keeps }
      where
        mild : (s : Station A B) → IsMild (at_first f s).1
        mild (first a) = k.mild a
        mild (second b) = tt

        keeps :
            (s : Station A B)
            → EitherReady P Q s
            → EitherReady P Q (at_first f s).0
              × (either_taken t u (at_first f s).0 ≡ either_taken t u s)
        keeps (first a) r = let (r', e) = k.keeps a r in (r', ap (λ m. 0 ∷ m) e)
        keeps (second b) r = (r, refl)

    pub at_second-IsSource :
        {g : B → B × List Signal}
        → IsSource Q u g
        → IsSource (EitherReady P Q) (either_taken t u) (at_second g)
    at_second-IsSource {g} k = record { mild = mild; keeps = keeps }
      where
        mild : (s : Station A B) → IsMild (at_second g s).1
        mild (first a) = tt
        mild (second b) = k.mild b

        keeps :
            (s : Station A B)
            → EitherReady P Q s
            → EitherReady P Q (at_second g s).0
              × (either_taken t u (at_second g s).0 ≡ either_taken t u s)
        keeps (first a) r = (r, refl)
        keeps (second b) r = let (r', e) = k.keeps b r in (r', ap (λ m. 1 ∷ m) e)
