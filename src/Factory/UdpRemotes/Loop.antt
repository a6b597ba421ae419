-- ===== src/Factory/UdpRemotes/Loop.antt =====
-- src/ioproxy/io/UdpSocketIO.cpp, `create`: the loop over the remote hosts, and how it ends.
use mathlib.Core.List.{append-nil, append_assoc}
use native.Mathlib.Nat.{zero-add}
use ioproxy.Base.{
  ℕ, zero, suc, ◌+◌, ◌^◌, ◌<◌, ◌≡◌, ◌≢◌, ◌∙◌, refl, sym, ap, String, some, List, [], ◌∷◌, ◌++◌,
  length, replicate, ok, missing_remote_port, arith,
}
use ioproxy.Base.Int.{pos}
use ioproxy.Base.Maps.{values}
use ioproxy.Base.Variant.{Variant, int, Conversions}
use ioproxy.Params.{IoParams, ParaDef, para_def, get_para_value}
use ioproxy.Params.Spec.{get_para_value_lem, read_index}
use ioproxy.Factory.{Outcome, done, failed, ◌>>=◌, to_uint16}
use ioproxy.Factory.UdpSocket.{factory, Remotes, add_remote, remote_loop}

abbrev address_def : ParaDef
unfolding factory
address_def = para_def factory "remote_address"

module _ {Address : Type 0} (parse_address : String → Address) (c : Conversions) where
  open c use {to_string, to_uint, to_bool}

  -- The remote hosts, by the values of the two keys, newest first: the first address with the first
  -- port, and so on; an error names the first address that has no port.
  abbrev pub pair_hosts : List Variant → List Variant → ℕ → Outcome (Remotes parse_address c)
  pair_hosts [] ports index = done []
  pair_hosts (a ∷ addresses) [] index = failed (missing_remote_port (to_string a) index)
  pair_hosts (a ∷ addresses) (p ∷ ports) index = pair_hosts addresses ports (index + 1) >>= λ rest.
      done ((parse_address (to_string a), to_uint16 (to_uint p)) ∷ rest)

  -- The remotes collected so far stand before those that are to come.
  abbrev after :
      Remotes parse_address c
      → Outcome (Remotes parse_address c)
      → Outcome (Remotes parse_address c)
  after remotes rest = rest >>= λ more. done (remotes ++ more)

  after-cons :
      (remotes : Remotes parse_address c) (r : Address × ℕ)
      (rest : Outcome (Remotes parse_address c))
      → after (remotes ++ (r ∷ [])) rest ≡ after remotes (rest >>= λ more. done (r ∷ more))
  after-cons remotes r (done more) = ap done (append_assoc remotes (r ∷ []) more)
  after-cons remotes r (failed e) = refl
  after-cons remotes r (Outcome.thrown e) = refl

  abbrev Reads : IoParams → String → ℕ → ℕ → List Variant → Type 0
  Reads params key n i vs =
      (j : ℕ)
      → j < n
      → get_para_value params (para_def factory key) (i + j) ≡ read_index vs j key (i + j)

  Reads-tail :
      (params : IoParams) (key : String) (n i : ℕ) (v : Variant) (vs : List Variant)
      → Reads params key (suc n) i (v ∷ vs)
      → Reads params key n (i + 1) vs
  Reads-tail params key n i v vs h j l =
      let e : i + suc j ≡ i + 1 + j = omega arith in rw e at (h (suc j) (omega arith))

  Reads-head :
      (params : IoParams) (key : String) (n i : ℕ) (vs : List Variant)
      → Reads params key (suc n) i vs
      → get_para_value params (para_def factory key) i ≡ read_index vs 0 key i
  Reads-head params key n i vs h = let e : i + 0 ≡ i = omega arith in rw e at (h 0 (omega arith))

  remote_loop-pair_hosts :
      (fuel : ℕ) (params : IoParams) (i : ℕ) (addresses ports : List Variant)
      (remotes : Remotes parse_address c)
      → length addresses < fuel
      → Reads params "remote_address" (suc (length addresses)) i addresses
      → Reads params "remote_port" (length addresses) i ports
      → remote_loop parse_address c fuel params i remotes
        ≡ some (after remotes (pair_hosts addresses ports i))
  unfolding remote_loop
  remote_loop-pair_hosts zero params i addresses ports remotes h ra rp = elim h [ ]
  remote_loop-pair_hosts (suc fuel) params i [] ports remotes h ra rp =
      rw (Reads-head params "remote_address" 0 i [] ra, remote_loop) (rw append-nil)
  remote_loop-pair_hosts (suc fuel) params i (a ∷ rest) [] remotes h ra rp = rw (
    Reads-head params "remote_address" (suc (length rest)) i (a ∷ rest) ra,
    Reads-head params "remote_port" (length rest) i [] rp,
    remote_loop,
  )
  remote_loop-pair_hosts (suc fuel) params i (a ∷ rest) (p ∷ ps) remotes h ra rp =
      rw
        (
          Reads-head params "remote_address" (suc (length rest)) i (a ∷ rest) ra,
          Reads-head params "remote_port" (length rest) i (p ∷ ps) rp,
          remote_loop,
        )
        (rw
          (remote_loop-pair_hosts fuel params (i + 1) rest ps
            (add_remote parse_address c remotes a p) (omega arith)
            (Reads-tail params "remote_address" _ i a rest ra)
            (Reads-tail params "remote_port" _ i p ps rp))
          (ap some (after-cons remotes _ (pair_hosts rest ps (i + 1)))))

  pub Reads-given :
      (params : IoParams) (key : String) (n : ℕ) (v : Variant) (vs : List Variant)
      → (para_def factory key).key ≡ key
      → values key params ≡ v ∷ vs
      → length (v ∷ vs) < 2 ^ 32
      → Reads params key n 0 (v ∷ vs)
  Reads-given params key n v vs k e l j _ =
      rw zero-add (get_para_value_lem params (para_def factory key) j (rw (k, e) l) ∙ rw (k, e))

  -- The ports that go with `n` addresses: without any port given each has the default.
  abbrev pub ports_for : ℕ → List Variant → List Variant
  ports_for n [] = replicate n (int (pos 0))
  ports_for n (p ∷ ps) = p ∷ ps

  read_index-replicate :
      (n j : ℕ) (v : Variant) (key : String) (index : ℕ)
      → j < n
      → read_index (replicate n v) j key index ≡ ok v
  read_index-replicate zero j v key index h = elim h [ ]
  read_index-replicate (suc n) zero v key index h = refl
  read_index-replicate (suc n) (suc j) v key index h =
      read_index-replicate n j v key index (omega arith)

  Reads-ports :
      (params : IoParams) (n : ℕ) (ports : List Variant)
      → values "remote_port" params ≡ ports
      → length ports < 2 ^ 32
      → Reads params "remote_port" n 0 (ports_for n ports)
  unfolding factory para_def
  Reads-ports params n (p ∷ ps) e l j h = Reads-given params "remote_port" n p ps refl e l j h
  Reads-ports params n [] e l j h = rw zero-add (
      get_para_value_lem params (para_def factory "remote_port") j (rw e (omega arith))
      ∙ rw e (sym (read_index-replicate n j (int (pos 0)) "remote_port" j h)))

  pub remote_loop-ends :
      (fuel : ℕ) (params : IoParams) (addresses ports : List Variant)
      → values "remote_address" params ≡ addresses
      → values "remote_port" params ≡ ports
      → addresses ≢ []
      → length addresses < 2 ^ 32
      → length ports < 2 ^ 32
      → length addresses < fuel
      → remote_loop parse_address c fuel params 0 []
        ≡ some (pair_hosts addresses (ports_for (length addresses) ports) 0)
  unfolding factory para_def
  remote_loop-ends fuel params [] ports ea ep some_address la lp h = absurd (some_address refl)
  remote_loop-ends fuel params (a ∷ rest) ports ea ep some_address la lp h =
      remote_loop-pair_hosts fuel params 0 (a ∷ rest) (ports_for (suc (length rest)) ports) [] h
        (Reads-given params "remote_address" _ a rest refl ea la) (Reads-ports params _ ports ep lp)
      ∙ ap some (after-nil (pair_hosts (a ∷ rest) (ports_for (suc (length rest)) ports) 0))
    where
      after-nil : (r : Outcome (Remotes parse_address c)) → after [] r ≡ r
      after-nil (done x) = refl
      after-nil (failed x) = refl
      after-nil (Outcome.thrown x) = refl
