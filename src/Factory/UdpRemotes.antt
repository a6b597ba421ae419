-- ===== src/Factory/UdpRemotes.antt =====
-- src/ioproxy/io/UdpSocketIO.cpp, `create`: when the loop over the remote hosts ends, and what the
-- factory then gives.
pub mod Loop
pub use Loop.{pair_hosts, ports_for, remote_loop-ends}
use ioproxy.Base.{
  ℕ, zero, suc, ◌+◌, ◌^◌, ◌<◌, ◌≡◌, ◌≢◌, refl, ap, String, false, none, some, [], length,
}
use ioproxy.Base.Maps.{values, contains}
use ioproxy.Base.Variant.{Conversions}
use ioproxy.Params.{IoParams, check_required_parameters, para_def, get_para_value}
use ioproxy.Params.Spec.{get_para_value-first, option_value}
use ioproxy.Factory.{Outcome, done, failed, ◌>>=◌, to_uint16}
use ioproxy.Factory.UdpSocket.{Options, factory, Remotes, remote_loop, local_values, finish, create}

module _ {Address : Type 0} (parse_address : String → Address) (c : Conversions) where
  open c use {to_string, to_uint, to_bool}

  -- The options that the parameters stand for, with the remote hosts.
  unfoldable pub options : IoParams → Remotes parse_address c → Options Address
  unfolding factory para_def
  options params remotes = record {
    bind_address =
        some (parse_address (to_string (option_value params (para_def factory "bind_address"))));
    bind_port = to_uint16 (to_uint (option_value params (para_def factory "bind_port")));
    remote_addresses = remotes;
    echo = to_bool (option_value params (para_def factory "echo"));
    multicast_ttl =
        some (to_uint16 (to_uint (option_value params (para_def factory "multicast_ttl"))));
    multicast_loopback = to_bool (option_value params (para_def factory "multicast_loopback"));
  }

  local_values-done :
      (params : IoParams)
      → local_values parse_address c params
        ≡ done (
          option_value params (para_def factory "bind_address"),
          option_value params (para_def factory "bind_port"),
        )
  unfolding local_values factory para_def check_required_parameters
  local_values-done params = rw (
    get_para_value-first params (para_def factory "bind_address") refl,
    get_para_value-first params (para_def factory "bind_port") refl,
  )

  finish-options :
      (params : IoParams) (remotes : Remotes parse_address c)
      → finish parse_address c params
          (option_value params (para_def factory "bind_address"))
          (option_value params (para_def factory "bind_port"))
          remotes
        ≡ done (options params remotes)
  unfolding finish options
  finish-options params remotes = rw (
    get_para_value-first params (para_def factory "echo") refl,
    get_para_value-first params (para_def factory "multicast_ttl") refl,
    get_para_value-first params (para_def factory "multicast_loopback") refl,
  )

  bind-done :
      (params : IoParams) (r : Outcome (Remotes parse_address c))
      → (r
          >>= finish parse_address c params
              (option_value params (para_def factory "bind_address"))
              (option_value params (para_def factory "bind_port")))
        ≡ (r >>= λ remotes. done (options params remotes))
  bind-done params (done remotes) = finish-options params remotes
  bind-done params (failed e) = refl
  bind-done params (Outcome.thrown e) = refl

  pub create-pair_hosts :
      (fuel : ℕ) (params : IoParams)
      → values "remote_address" params ≢ []
      → length (values "remote_address" params) < 2 ^ 32
      → length (values "remote_port" params) < 2 ^ 32
      → length (values "remote_address" params) < fuel
      → create parse_address c fuel params
        ≡ some (
            pair_hosts parse_address c
              (values "remote_address" params)
              (ports_for parse_address c
                (length (values "remote_address" params))
                (values "remote_port" params))
              0
            >>= λ remotes. done (options params remotes))
  unfolding create
  create-pair_hosts fuel params given la lp h =
      rw (local_values-done params, create)
        (rw (remote_loop-ends parse_address c fuel params _ _ refl refl given la lp h)
          (ap some (bind-done params _)))

  loop-diverges :
      (fuel : ℕ) (params : IoParams) (i : ℕ) (remotes : Remotes parse_address c)
      → contains "remote_address" params ≡ false
      → contains "remote_port" params ≡ false
      → remote_loop parse_address c fuel params i remotes ≡ none
  unfolding remote_loop get_para_value factory para_def
  loop-diverges zero params i remotes a p = refl
  loop-diverges (suc fuel) params i remotes a p =
      rw (a, p, remote_loop) (loop-diverges fuel params (i + 1) _ a p)

  -- Without a remote address and without a remote port the creation of a UDP socket does not end:
  -- after any number of rounds of its loop, it is still in it.
  pub create-diverges :
      (fuel : ℕ) (params : IoParams)
      → contains "remote_address" params ≡ false
      → contains "remote_port" params ≡ false
      → create parse_address c fuel params ≡ none
  unfolding create
  create-diverges fuel params a p =
      rw (local_values-done params, create) (rw (loop-diverges fuel params 0 [] a p))
