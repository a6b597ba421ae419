-- ===== src/Engine/Routing/Order.antt =====
-- src/ioproxy/Engine.cpp: the order in which connections were made.
use mathlib.Core.Option
use ioproxy.Base.{ℕ, suc, ◌≡◌, refl, sym, ap, ◌∙◌, some, List, [], ◌∷◌, get_elem?, arith}
use ioproxy.Io.{DataPack, Signal, Io}
use ioproxy.Handler.{Handler, count_read, times}
use ioproxy.Engine.Signals.{Link, at, emit}
use ioproxy.Engine.Delivery.{links_to, delivered, get_elem?-delivered}
use ioproxy.Engine.Routing.{IsSilent, write_once, emit-delivered}

-- Lists with the same entries at each position.
get_elem?-ext {ℓ} :
    {A : Type ℓ} (xs ys : List A) → ((i : ℕ) → get_elem? xs i ≡ get_elem? ys i) → xs ≡ ys
get_elem?-ext [] [] h = refl
get_elem?-ext [] (y ∷ ys) h = (let e = h 0 in cc)
get_elem?-ext (x ∷ xs) [] h = (let e = h 0 in cc)
get_elem?-ext (x ∷ xs) (y ∷ ys) h =
    let e = h 0 in let q = get_elem?-ext xs ys (λ i. h (suc i)) in cc

-- The same connections between each two positions, as often.
abbrev pub SameLinks : List Link → List Link → Type 0
SameLinks ls ks = (i d : ℕ) → links_to ls i d ≡ links_to ks i d

-- For IOs that emit nothing while they are written to, the data that an IO emits has the same effect on all
-- handlers whatever the order in which the connections were made.
pub emit-SameLinks :
    {S : Type 0} (io : Io S) (ls ks : List Link) (fuel i : ℕ) (p : DataPack) (hs : List (Handler S))
    (h : Handler S)
    → IsSilent io
    → SameLinks ls ks
    → get_elem? hs i ≡ some h
    → h.data_slots ≡ 1
    → emit io (suc fuel) ls i (Signal.new_data p ∷ []) hs
      ≡ emit io (suc fuel) ks i (Signal.new_data p ∷ []) hs
emit-SameLinks io ls ks fuel i p hs h silent same e one =
    let counted = at i (count_read p) hs in
    emit-delivered io ls fuel i p hs h silent e one
    ∙ (ap some (
          get_elem?-ext (delivered (write_once io) ls i p counted)
            (delivered (write_once io) ks i p counted)
            (λ d.
              get_elem?-delivered (write_once io) ls i d p counted
              ∙ (ap (λ n. Option.map (times n (write_once io p)) (get_elem? counted d)) (same i d)
                  ∙ sym (get_elem?-delivered (write_once io) ks i d p counted))))
        ∙ sym (emit-delivered io ks fuel i p hs h silent e one))

pub SameLinks-swap : (a b : Link) (ls : List Link) → SameLinks (a ∷ b ∷ ls) (b ∷ a ∷ ls)
unfolding links_to
SameLinks-swap a b ls i d = ground arith
