-- ===== src/Receiver/Config/Accepted.antt =====
-- receiver/awskinesisreceiver/config.go: which configurations Validate accepts.
use opentelemetry_kinesis_st.Base.{
  ◌≤◌, ◌<◌, ◌≡◌, ◌≢◌, ◌↔◌, refl, false, ◌⊎◌, [], none, str_eq, str_eq_iff, arith, to_ℕ,
}
use opentelemetry_kinesis_st.Encoding.{new_traces_decoder, new_compressor}
use opentelemetry_kinesis_st.Receiver.Config.{
  Config, validate, is_strategy, check_worker, check_backend, check_intervals, lease_backend_memory,
  lease_backend_dynamodb, worker_strategy_static, worker_strategy_hostname, worker_strategy_ecs,
  worker_strategy_file,
}

-- A worker's identity comes from one source, and no setting of another source is given.
abbrev pub HasWorker : Config → Type 0
HasWorker c =
    ((c.worker_resolution_strategy ≡ worker_strategy_static) × (c.worker_id_file ≡ []))
    ⊎ ((c.worker_resolution_strategy ≡ worker_strategy_hostname)
        × (c.worker_id ≡ [])
        × (c.worker_id_file ≡ []))
    ⊎ ((c.worker_resolution_strategy ≡ worker_strategy_ecs)
        × (c.worker_id ≡ [])
        × (c.worker_id_file ≡ []))
    ⊎ ((c.worker_resolution_strategy ≡ worker_strategy_file)
        × (c.worker_id ≡ [])
        × (c.worker_id_file ≢ []))

abbrev HasBackend : Config → Type 0
HasBackend c =
    (c.lease_backend ≡ lease_backend_memory)
    ⊎ ((c.lease_backend ≡ lease_backend_dynamodb) × (c.lease_table ≢ []))

-- A worker heartbeats more often than its lease runs out.
pub record HasIntervals (c : Config) : Type 0 where
  pub some_heartbeat : 0 < to_ℕ c.heartbeat_interval
  pub in_time : to_ℕ c.heartbeat_interval < to_ℕ c.lease_duration
  pub some_discovery : 0 < to_ℕ c.discovery_interval

check_intervals_sound : (c : Config) → check_intervals c ≡ none → HasIntervals c
unfolding check_intervals
check_intervals_sound c h = record {
  some_heartbeat = ground arith;
  in_time = ground arith;
  some_discovery = ground arith;
}

check_intervals_complete : (c : Config) → HasIntervals c → check_intervals c ≡ none
unfolding check_intervals
check_intervals_complete c h = ground arith

dynamodb_ne_memory : str_eq lease_backend_dynamodb lease_backend_memory ≡ false
unfolding str_eq
dynamodb_ne_memory = refl

check_backend_iff : (c : Config) → (check_backend c ≡ none) ↔ HasBackend c
unfolding check_backend
check_backend_iff c = (
  λ h. ground (
    arith,
    str_eq_iff c.lease_backend lease_backend_memory,
    str_eq_iff c.lease_backend lease_backend_dynamodb,
    str_eq_iff c.lease_table [],
  ),
  λ h. ground (
    arith,
    dynamodb_ne_memory,
    str_eq_iff c.lease_backend lease_backend_memory,
    str_eq_iff c.lease_backend lease_backend_dynamodb,
    str_eq_iff c.lease_table [],
  ),
)

file_ne_static : str_eq worker_strategy_file worker_strategy_static ≡ false
unfolding str_eq
file_ne_static = refl

static_ne_file : str_eq worker_strategy_static worker_strategy_file ≡ false
unfolding str_eq
static_ne_file = refl

hostname_ne_file : str_eq worker_strategy_hostname worker_strategy_file ≡ false
unfolding str_eq
hostname_ne_file = refl

ecs_ne_file : str_eq worker_strategy_ecs worker_strategy_file ≡ false
unfolding str_eq
ecs_ne_file = refl

hostname_ne_static : str_eq worker_strategy_hostname worker_strategy_static ≡ false
unfolding str_eq
hostname_ne_static = refl

ecs_ne_static : str_eq worker_strategy_ecs worker_strategy_static ≡ false
unfolding str_eq
ecs_ne_static = refl

check_worker_sound : (c : Config) → check_worker c ≡ none → HasWorker c
unfolding check_worker is_strategy
check_worker_sound c h = ground (
  arith,
  str_eq_iff c.worker_resolution_strategy worker_strategy_static,
  str_eq_iff c.worker_resolution_strategy worker_strategy_hostname,
  str_eq_iff c.worker_resolution_strategy worker_strategy_ecs,
  str_eq_iff c.worker_resolution_strategy worker_strategy_file,
  str_eq_iff c.worker_id [],
  str_eq_iff c.worker_id_file [],
)

check_worker_complete : (c : Config) → HasWorker c → check_worker c ≡ none
unfolding check_worker is_strategy
check_worker_complete c h = ground (
  arith,
  str_eq_iff c.worker_resolution_strategy worker_strategy_static,
  str_eq_iff c.worker_resolution_strategy worker_strategy_hostname,
  str_eq_iff c.worker_resolution_strategy worker_strategy_ecs,
  str_eq_iff c.worker_resolution_strategy worker_strategy_file,
  str_eq_iff c.worker_id [],
  str_eq_iff c.worker_id_file [],
  static_ne_file,
  hostname_ne_file,
  ecs_ne_file,
  hostname_ne_static,
  ecs_ne_static,
  file_ne_static,
)

-- What the receiver can serve.
pub record IsServed (c : Config) : Type 0 where
  pub stream_named : c.stream_name ≢ []
  pub region_named : c.region ≢ []
  pub encoding_known : new_traces_decoder c.encoding ≢ none
  pub compression_known : new_compressor c.compression ≢ none
  pub polls : 0 < to_ℕ c.poll_interval
  pub some_records : 0 < to_ℕ c.max_records
  pub at_most_10000 : to_ℕ c.max_records ≤ 10000
  pub worker : HasWorker c
  pub backend : HasBackend c
  pub intervals : HasIntervals c

IsServed-of_validate : (c : Config) → validate c ≡ none → IsServed c
unfolding validate
IsServed-of_validate c h = record {
  stream_named = ground (arith, str_eq_iff c.stream_name []);
  region_named = ground (arith, str_eq_iff c.region []);
  encoding_known = ground arith;
  compression_known = ground arith;
  polls = ground arith;
  some_records = ground arith;
  at_most_10000 = ground arith;
  worker = check_worker_sound c (ground arith);
  backend = (check_backend_iff c).0 (ground arith);
  intervals = check_intervals_sound c (ground arith);
}

validate_of_served : (c : Config) → IsServed c → validate c ≡ none
unfolding validate
validate_of_served c v =
    rw
      (
        check_worker_complete c v.worker,
        (check_backend_iff c).1 v.backend,
        check_intervals_complete c v.intervals,
      )
      (ground (arith, v.stream_named, str_eq_iff c.stream_name [], str_eq_iff c.region []))

-- Validate accepts a configuration exactly if the stream and the region are named, the encoding and
-- the codec are known, the shard is polled at a positive interval for 1 to 10000 records, the
-- worker's identity has one source and no setting of another, the lease backend is memory or a named
-- table, and a heartbeat comes sooner than a lease runs out.
pub validate-IsServed : (c : Config) → (validate c ≡ none) ↔ IsServed c
validate-IsServed c = (IsServed-of_validate c, validate_of_served c)
