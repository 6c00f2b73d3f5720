-- ===== src/Receiver/Config/Samples.antt =====
-- A configuration that the receiver accepts, and one whose heartbeat comes too late.
use opentelemetry_kinesis_st.Base.{◌≡◌, ◌↔◌, refl, [], false, none, some, str_eq, bytes, pos}
use opentelemetry_kinesis_st.Encoding.{new_traces_decoder, new_compressor}
use opentelemetry_kinesis_st.Receiver.Config.{
  Config, validate, heartbeat_interval_too_long, check_worker, check_backend, check_intervals,
  is_strategy,
}
use opentelemetry_kinesis_st.Receiver.Config.Accepted.{IsServed, validate-IsServed}

abbrev served : Config
served = record {
  stream_name = bytes "s";
  region = bytes "r";
  endpoint = [];
  encoding = bytes "otlp_proto";
  compression = bytes "gzip";
  poll_interval = pos 250;
  max_records = pos 10000;
  worker_resolution_strategy = bytes "static";
  worker_id = [];
  worker_id_file = [];
  lease_backend = bytes "memory";
  lease_table = [];
  lease_duration = pos 30;
  heartbeat_interval = pos 5;
  discovery_interval = pos 30;
  dead_letter = record { enabled = false };
}

validate-IsServed_example : (validate served ≡ none) ↔ IsServed served
validate-IsServed_example = validate-IsServed served

served_accepted : validate served ≡ none
unfolding validate check_worker check_backend check_intervals is_strategy new_traces_decoder
    new_compressor str_eq
served_accepted = refl

late_heartbeat_refused :
    validate (record served { heartbeat_interval = pos 30 }) ≡ some heartbeat_interval_too_long
unfolding validate check_worker check_backend check_intervals is_strategy new_traces_decoder
    new_compressor str_eq
late_heartbeat_refused = refl
