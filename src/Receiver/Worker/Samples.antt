-- ===== src/Receiver/Worker/Samples.antt =====
-- A worker that reads its identity from a file, and one that runs as an ECS task.
use opentelemetry_kinesis_st.Base.{◌≡◌, refl, [], ◌∷◌, ◌++◌, none, some, bytes, str_eq, pos, false}
use opentelemetry_kinesis_st.Encoding.{new_traces_decoder, new_compressor}
use opentelemetry_kinesis_st.Receiver.Config.{
  Config, validate, check_worker, check_backend, check_intervals, is_strategy,
}
use opentelemetry_kinesis_st.Receiver.Worker.{
  Host, response, resolved, resolve_worker_id, resolve_by_strategy, check_id, worker_id_from_file,
  ecs_task_id, metadata_uri, read_task, task_id, non_empty,
}
use opentelemetry_kinesis_st.Receiver.Worker.Text.{trim_space, valid_string, after_last_slash}
use opentelemetry_kinesis_st.Receiver.Worker.Identity.{Identifies, resolve_worker_id-Identifies}

abbrev host : Host
host = record {
  new_uuid = bytes "0f";
  hostname = none;
  getenv = λ name. bytes "http://169.254.170.2/v4";
  http_get = λ url. response 200 (bytes "document");
  decode_task_arn = λ body. some (bytes "arn:aws:ecs:eu-west-1:1:task/c/7d");
  read_file = λ path. some (bytes " pod-3" ++ 10 ∷ []);
}

abbrev by_file : Config
by_file = record {
  stream_name = bytes "s";
  region = bytes "r";
  endpoint = [];
  encoding = bytes "otlp_proto";
  compression = bytes "gzip";
  poll_interval = pos 250;
  max_records = pos 10000;
  worker_resolution_strategy = bytes "file";
  worker_id = [];
  worker_id_file = bytes "/etc/pod";
  lease_backend = bytes "memory";
  lease_table = [];
  lease_duration = pos 30;
  heartbeat_interval = pos 5;
  discovery_interval = pos 30;
  dead_letter = record { enabled = false };
}

by_file_accepted : validate by_file ≡ none
unfolding validate check_worker check_backend check_intervals is_strategy new_traces_decoder
    new_compressor str_eq
by_file_accepted = refl

resolve_worker_id-Identifies_example : Identifies host by_file (resolve_worker_id host by_file)
resolve_worker_id-Identifies_example = resolve_worker_id-Identifies host by_file by_file_accepted

file_test : resolve_worker_id host by_file ≡ resolved (bytes "pod-3")
unfolding resolve_worker_id resolve_by_strategy check_id worker_id_from_file non_empty str_eq
    trim_space valid_string
file_test = refl

ecs_test :
    resolve_worker_id host
      (record by_file { worker_resolution_strategy = bytes "ecs"; worker_id_file = [] })
    ≡ resolved (bytes "7d")
unfolding resolve_worker_id resolve_by_strategy check_id ecs_task_id metadata_uri read_task task_id
    non_empty str_eq after_last_slash valid_string
ecs_test = refl
