-- ===== src/Factory/UdpSocket.antt =====
-- src/ioproxy/io/UdpSocketIO.cpp: the options and the factory, with its loop over the remote hosts.
use ioproxy.Base.{
  ℕ, zero, suc, ◌+◌, String, Bool, true, false, Option, none, some, List, [], ◌∷◌, ◌++◌, ok, err,
  missing_remote_port,
}
use ioproxy.Base.Int.{pos}
use ioproxy.Base.Variant.{Variant, text, int, bool, Conversions}
use ioproxy.Params
use ioproxy.Params.{
  ParaDef, IoParams, FactoryBase, default_def, empty_base, add_para_def, para_def,
  check_required_parameters, get_para_value,
}
use ioproxy.Factory.{Outcome, done, failed, thrown, ◌>>=◌, ◌>>◌, check, value, to_uint16}

pub record Options (Address : Type 0) : Type 0 where
  pub bind_address : Option Address
  pub bind_port : ℕ
  pub remote_addresses : List (Address × ℕ)
  pub echo : Bool
  pub multicast_ttl : Option ℕ
  pub multicast_loopback : Bool

-- Each definition starts from the one before: a field that is not assigned keeps its value, so that
-- the two keys of a remote host have the default of `bind_port`.
unfoldable pub factory : FactoryBase
unfolding add_para_def
factory =
    let def1 : ParaDef = record default_def {
      key = "bind_address";
      description = "IPv4/IPv6 address of local network interface to bind socket.";
      value_data_type = Params.string;
      required = false;
      multi = false;
      default_value = text "0.0.0.0";
    } in
    let base1 = add_para_def empty_base def1 in
    let def2 : ParaDef = record def1 {
      key = "bind_port";
      description =
          "Port number on which to listen for incoming packets. In multicast mode this is the group-port.";
      value_data_type = Params.int16;
      required = false;
      multi = false;
      default_value = int (pos 0);
    } in
    let base2 = add_para_def base1 def2 in
    let def3 : ParaDef = record def2 {
      key = "remote_address";
      description = "IPv4/IPv6 address of remote machine.";
      value_data_type = Params.string;
      required = false;
      multi = true;
    } in
    let base3 = add_para_def base2 def3 in
    let def4 : ParaDef = record def3 {
      key = "remote_port";
      description = "Port of remote machine.";
      value_data_type = Params.int16;
      required = false;
      multi = true;
    } in
    let base4 = add_para_def base3 def4 in
    let def5 : ParaDef = record def4 {
      key = "echo";
      description = "Sends received data back to sender.";
      value_data_type = Params.boolean;
      required = false;
      multi = false;
      default_value = bool false;
    } in
    let base5 = add_para_def base4 def5 in
    let def6 : ParaDef = record def5 {
      key = "multicast_ttl";
      description = "TTL for multicast datagrams.";
      value_data_type = Params.int8;
      required = false;
      multi = false;
      default_value = int (pos 0);
    } in
    let base6 = add_para_def base5 def6 in
    let def7 : ParaDef = record def6 {
      key = "multicast_loopback";
      description = "If \"true\" the loopback for multicast packets is enabled.";
      value_data_type = Params.boolean;
      required = false;
      multi = false;
      default_value = bool false;
    } in
    add_para_def base6 def7

module _ {Address : Type 0} (parse_address : String → Address) (c : Conversions) where
  open c use {to_string, to_uint, to_bool}

  abbrev pub Remotes : Type 0
  Remotes = List (Address × ℕ)

  -- The body of `while (true)` at one index, once both readings are made.
  abbrev pub add_remote : Remotes → Variant → Variant → Remotes
  add_remote remotes address port =
      remotes ++ ((parse_address (to_string address), to_uint16 (to_uint port)) ∷ [])

  -- `while (true)`. The fuel bounds the rounds; `none` means that it ran out.
  unfoldable pub remote_loop : ℕ → IoParams → ℕ → Remotes → Option (Outcome Remotes)
  remote_loop zero params index remotes = none
  remote_loop (suc fuel) params index remotes =
      elim (get_para_value params (para_def factory "remote_address") index) [
        | err _ ↦ some (done remotes)
        | ok address ↦ elim (get_para_value params (para_def factory "remote_port") index) [
          | err _ ↦ some (failed (missing_remote_port (to_string address) index))
          | ok port ↦ remote_loop fuel params (index + 1) (add_remote remotes address port)
        ]
      ]

  -- What `create` does after the loop.
  unfoldable pub finish : IoParams → Variant → Variant → Remotes → Outcome (Options Address)
  finish params address port remotes = do
    echo ← value (get_para_value params (para_def factory "echo") 0)
    ttl ← value (get_para_value params (para_def factory "multicast_ttl") 0)
    loopback ← value (get_para_value params (para_def factory "multicast_loopback") 0)
    done (record {
      bind_address = some (parse_address (to_string address));
      bind_port = to_uint16 (to_uint port);
      remote_addresses = remotes;
      echo = to_bool echo;
      multicast_ttl = some (to_uint16 (to_uint ttl));
      multicast_loopback = to_bool loopback;
    })

  -- What `create` does before the loop.
  unfoldable pub local_values : IoParams → Outcome (Variant × Variant)
  local_values params = do
    check (check_required_parameters factory params)
    address ← value (get_para_value params (para_def factory "bind_address") 0)
    port ← value (get_para_value params (para_def factory "bind_port") 0)
    done (address, port)

  unfoldable pub create : ℕ → IoParams → Option (Outcome (Options Address))
  unfolding local_values remote_loop finish
  create fuel params = elim (local_values params) [
    | failed e ↦ some (failed e)
    | thrown e ↦ some (thrown e)
    | done (address, port) ↦ elim (remote_loop fuel params 0 []) [
      | none ↦ none
      | some remotes ↦ some (remotes >>= finish params address port)
    ]
  ]
