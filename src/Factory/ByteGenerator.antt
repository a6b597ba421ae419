-- ===== src/Factory/ByteGenerator.antt =====
-- src/ioproxy/io/ByteGenerator/ByteGeneratorFactory.cpp: the options and the factory.
use ioproxy.Base.{◌*◌, ◌≡◌, refl, false}
use ioproxy.Base.Int.{ℤ, pos}
use ioproxy.Base.Variant.{int, Conversions}
use ioproxy.Params
use ioproxy.Params.{
  ParaDef, IoParams, FactoryBase, default_def, empty_base, add_para_def, para_def,
  check_required_parameters, get_para_value,
}
use ioproxy.Factory.{Outcome, done, ◌>>=◌, ◌>>◌, check, value, to_int64}
use ioproxy.Params.Spec.{option_value, get_para_value-first}

pub record Options : Type 0 where
  pub bytes_per_second : ℤ
  pub packet_size : ℤ

-- Each definition starts from the one before: a field that is not assigned keeps its value.
unfoldable pub factory : FactoryBase
unfolding add_para_def
factory =
    let def1 : ParaDef = record default_def {
      key = "rate";
      description = "Number of bytes to generate per second.";
      value_data_type = Params.uint64;
      required = false;
      multi = false;
      default_value = int (pos (1024 * 1024 * 5));
    } in
    let base1 = add_para_def empty_base def1 in
    let def2 : ParaDef = record def1 {
      key = "packet_size";
      description = "Size of a single packet.";
      value_data_type = Params.uint64;
      required = false;
      multi = false;
      default_value = int (pos (1024 * 4));
    } in
    add_para_def base1 def2

module _ (c : Conversions) where
  open c use {to_ulong_long}

  unfoldable pub create : IoParams → Outcome (Options)
  create params = do
    check (check_required_parameters factory params)
    rate ← value (get_para_value params (para_def factory "rate") 0)
    size ← value (get_para_value params (para_def factory "packet_size") 0)
    done (record {
      bytes_per_second = to_int64 (to_ulong_long rate);
      packet_size = to_int64 (to_ulong_long size);
    })

  -- The options that the parameters stand for: the value given last of each, or its default.
  unfoldable pub options : IoParams → Options
  options params = record {
    bytes_per_second = to_int64 (to_ulong_long (option_value params (para_def factory "rate")));
    packet_size = to_int64 (to_ulong_long (option_value params (para_def factory "packet_size")));
  }

  pub create-options : (params : IoParams) → create params ≡ done (options params)
  unfolding create options check_required_parameters factory para_def ioproxy.Base.Maps.contains
  create-options params = rw (
    get_para_value-first params (para_def factory "rate") refl,
    get_para_value-first params (para_def factory "packet_size") refl,
  )
