-- ===== src/Tests/Creations.antt =====
-- Parameters and factories.
use ioproxy.Base.{◌≡◌, refl, true, false, none, some, [], ◌∷◌, arith}
use ioproxy.Base.Int.{pos}
use ioproxy.Base.Maps.{values, contains}
use ioproxy.Base.Variant.{text, int, bool, Conversions}
use ioproxy.Params.{ParaDef, IoParams, default_def}
use ioproxy.Factory.UdpSocket
use ioproxy.Factory.UdpRemotes
use ioproxy.Factory.Builtin.{udp_socket, create}
use ioproxy.Factory.Meaning.{outcome, create-outcome}

-- Conversions that know only what the tests use.
abbrev pub plain : Conversions
plain = record {
  to_string = λ v. elim v [ text s ↦ s | _ ↦ "" ];
  to_uint = λ v. elim v [ int (pos n) ↦ n | _ ↦ 0 ];
  to_bool = λ v. elim v [ bool b ↦ b | _ ↦ false ];
  to_long_long = λ v. elim v [ int z ↦ z | _ ↦ pos 0 ];
  to_ulong_long = λ v. elim v [ int (pos n) ↦ n | _ ↦ 0 ];
}

abbrev host : IoParams
host = ("remote_port", text "80") ∷ ("remote_address", text "h") ∷ []

abbrev address : ParaDef
address = record default_def { key = "remote_address"; required = true }

create-outcome_example :
    create (λ s. s) (λ s. s) plain 2 udp_socket host
    ≡ some (outcome (λ s. s) (λ s. s) plain udp_socket host)
unfolding values
create-outcome_example =
    create-outcome (λ s. s) (λ s. s) plain 2 udp_socket host
      (record {
        given = λ e q. cc;
        addresses_fit = omega arith;
        ports_fit = omega arith;
        enough = omega arith;
      })

create-diverges_example :
    UdpSocket.create (λ s. s) plain 1000 (("bind_port", text "1338") ∷ []) ≡ none
unfolding contains
create-diverges_example =
    UdpRemotes.create-diverges (λ s. s) plain 1000 (("bind_port", text "1338") ∷ []) refl refl
