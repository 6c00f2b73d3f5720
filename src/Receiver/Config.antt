-- ===== src/Receiver/Config.antt =====
-- receiver/awskinesisreceiver/config.go: the receiver's configuration and its validation. Durations
-- are nanoseconds.
pub mod Accepted
mod Samples
use opentelemetry_kinesis_st.Base.{
  ◌>>◌, fail_if, is_none, ℕ, [], Bool, true, false, not, ◌&&◌, ◌||◌, Option, none, some, Str,
  str_eq, bytes, if◌then◌else◌, ℤ, int_leb, int_le_int,
}
use opentelemetry_kinesis_st.Encoding.{new_traces_decoder, new_compressor}

pub record DeadLetterConfig : Type 0 where
  pub enabled : Bool

pub record Config : Type 0 where
  pub stream_name : Str
  pub region : Str
  pub endpoint : Str
  pub encoding : Str
  pub compression : Str
  pub poll_interval : ℤ
  pub max_records : ℤ
  pub worker_resolution_strategy : Str
  pub worker_id : Str
  pub worker_id_file : Str
  pub lease_backend : Str
  pub lease_table : Str
  pub lease_duration : ℤ
  pub heartbeat_interval : ℤ
  pub discovery_interval : ℤ
  pub dead_letter : DeadLetterConfig

abbrev pub lease_backend_memory : Str
lease_backend_memory = bytes "memory"

abbrev pub lease_backend_dynamodb : Str
lease_backend_dynamodb = bytes "dynamodb"

abbrev pub worker_strategy_static : Str
worker_strategy_static = bytes "static"

abbrev pub worker_strategy_hostname : Str
worker_strategy_hostname = bytes "hostname"

abbrev pub worker_strategy_ecs : Str
worker_strategy_ecs = bytes "ecs"

abbrev pub worker_strategy_file : Str
worker_strategy_file = bytes "file"

-- The errors of Validate, one for each message.
pub data ConfigError : Type 0 where
  stream_name_required region_required unknown_encoding unknown_compression : ConfigError
  poll_interval_not_positive max_records_out_of_range unknown_strategy : ConfigError
  worker_id_unused worker_id_file_unused worker_id_file_required : ConfigError
  lease_table_required unknown_lease_backend lease_duration_not_positive : ConfigError
  heartbeat_interval_not_positive heartbeat_interval_too_long : ConfigError
  discovery_interval_not_positive : ConfigError

unfoldable pub is_strategy : Str → Bool
is_strategy s =
    str_eq s worker_strategy_static
    || str_eq s worker_strategy_hostname
    || str_eq s worker_strategy_ecs
    || str_eq s worker_strategy_file

-- The checks of the worker's identity, in Validate's order.
unfoldable pub check_worker : Config → Option ConfigError
unfolding is_strategy
check_worker c =
    fail_if (not (is_strategy c.worker_resolution_strategy)) unknown_strategy
    >> fail_if
        (not (str_eq c.worker_id [])
          && not (str_eq c.worker_resolution_strategy worker_strategy_static))
        worker_id_unused
    >> fail_if
        (not (str_eq c.worker_id_file [])
          && not (str_eq c.worker_resolution_strategy worker_strategy_file))
        worker_id_file_unused
    >> fail_if
        (str_eq c.worker_resolution_strategy worker_strategy_file && str_eq c.worker_id_file [])
        worker_id_file_required

unfoldable pub check_backend : Config → Option ConfigError
check_backend c =
    if str_eq c.lease_backend lease_backend_memory
    then none
    else if str_eq c.lease_backend lease_backend_dynamodb
    then fail_if (str_eq c.lease_table []) lease_table_required
    else some unknown_lease_backend

unfoldable pub check_intervals : Config → Option ConfigError
check_intervals c =
    fail_if (int_leb c.lease_duration 0) lease_duration_not_positive
    >> fail_if (int_leb c.heartbeat_interval 0) heartbeat_interval_not_positive
    >> fail_if (int_le_int c.lease_duration c.heartbeat_interval) heartbeat_interval_too_long
    >> fail_if (int_leb c.discovery_interval 0) discovery_interval_not_positive

unfoldable pub validate : Config → Option ConfigError
validate c =
    fail_if (str_eq c.stream_name []) stream_name_required
    >> fail_if (str_eq c.region []) region_required
    >> fail_if (is_none (new_traces_decoder c.encoding)) unknown_encoding
    >> fail_if (is_none (new_compressor c.compression)) unknown_compression
    >> fail_if (int_leb c.poll_interval 0) poll_interval_not_positive
    >> fail_if (int_leb c.max_records 0 || not (int_leb c.max_records 10000))
        max_records_out_of_range
    >> check_worker c
    >> check_backend c
    >> check_intervals c
