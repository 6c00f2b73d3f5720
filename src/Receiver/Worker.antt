-- ===== src/Receiver/Worker.antt =====
-- receiver/awskinesisreceiver/workerid.go: the worker's identity by strategy, over any environment,
-- file system and metadata endpoint. Of the standard library, strings.TrimSpace, strings.LastIndex
-- and utf8.ValidString are written out on bytes; the decoder of the metadata document is a parameter.
pub mod Text
pub mod Utf8
pub mod Parts
pub mod Identity
mod Samples
use opentelemetry_kinesis_st.Base.{
  ℕ, ◌==◌, Bool, not, List, [], ◌++◌, Option, none, some, Str, str_eq, bytes, take, drop,
  if◌then◌else◌,
}
use opentelemetry_kinesis_st.Receiver.Config.{
  Config, worker_strategy_static, worker_strategy_hostname, worker_strategy_ecs,
  worker_strategy_file,
}
use opentelemetry_kinesis_st.Receiver.Worker.Text.{after_last_slash, trim_space, valid_string}

-- The errors of resolveWorkerID, one for each message.
pub data WorkerError : Type 0 where
  empty_id invalid_utf8 unknown_strategy : WorkerError
  hostname_failed empty_hostname : WorkerError
  no_metadata_uri bad_request request_failed bad_status bad_document no_task_id : WorkerError
  no_file file_failed empty_file : WorkerError

pub data Resolution : Type 0 where
  resolved : Str → Resolution
  fails : WorkerError → Resolution

-- What the metadata endpoint answers to a GET: no URL, no response, or a status and a body.
pub data HttpReply : Type 0 where
  malformed_url no_response : HttpReply
  response : ℕ → List ℕ → HttpReply

-- What workerid.go uses of its host. An environment variable that is not set reads as "".
pub record Host : Type 0 where
  pub new_uuid : Str
  pub hostname : Option Str
  pub getenv : Str → Str
  pub http_get : Str → HttpReply
  pub decode_task_arn : List ℕ → Option Str
  pub read_file : Str → Option Str

abbrev ecs_metadata_uri_env_v4 : Str
ecs_metadata_uri_env_v4 = bytes "ECS_CONTAINER_METADATA_URI_V4"

abbrev ecs_metadata_uri_env_v3 : Str
ecs_metadata_uri_env_v3 = bytes "ECS_CONTAINER_METADATA_URI"

pub non_empty : Str → WorkerError → Resolution
non_empty id e = if str_eq id [] then fails e else resolved id

pub task_id : Str → Resolution
unfolding non_empty
task_id arn = non_empty (drop (after_last_slash arn) arn) no_task_id

module _ (host : Host) where
  pub read_task : HttpReply → Resolution
  unfolding task_id
  read_task malformed_url = fails bad_request
  read_task no_response = fails request_failed
  read_task (response status body) =
      if not (status == 200)
      then fails bad_status
      else elim (host.decode_task_arn (take 65536 body)) [
        | none ↦ fails bad_document
        | some arn ↦ task_id arn
      ]

  -- The v4 variable, or else the v3 one.
  pub metadata_uri : Str
  metadata_uri =
      if str_eq (host.getenv ecs_metadata_uri_env_v4) []
      then host.getenv ecs_metadata_uri_env_v3
      else host.getenv ecs_metadata_uri_env_v4

  pub ecs_task_id : Resolution
  unfolding read_task metadata_uri
  ecs_task_id =
      if str_eq metadata_uri []
      then fails no_metadata_uri
      else read_task (host.http_get (metadata_uri ++ bytes "/task"))

  pub worker_id_from_file : Str → Resolution
  unfolding non_empty
  worker_id_from_file path = if str_eq path [] then fails no_file else elim (host.read_file path) [
    | none ↦ fails file_failed
    | some raw ↦ non_empty (trim_space raw) empty_file
  ]

  pub resolve_by_strategy : Config → Resolution
  unfolding non_empty ecs_task_id worker_id_from_file
  resolve_by_strategy c =
      if str_eq c.worker_resolution_strategy worker_strategy_static
      then (if str_eq c.worker_id []
          then resolved (bytes "otelcol-" ++ host.new_uuid)
          else resolved c.worker_id)
      else if str_eq c.worker_resolution_strategy worker_strategy_hostname
      then elim host.hostname [
        | none ↦ fails hostname_failed
        | some name ↦ non_empty name empty_hostname
      ]
      else if str_eq c.worker_resolution_strategy worker_strategy_ecs
      then ecs_task_id
      else if str_eq c.worker_resolution_strategy worker_strategy_file
      then worker_id_from_file c.worker_id_file
      else fails unknown_strategy

  -- resolveWorkerID past the strategy.
  pub check_id : Resolution → Resolution
  check_id (fails e) = fails e
  check_id (resolved id) =
      if str_eq id []
      then fails empty_id
      else if not (valid_string id)
      then fails invalid_utf8
      else resolved id

  pub resolve_worker_id : Config → Resolution
  unfolding check_id resolve_by_strategy
  resolve_worker_id c = check_id (resolve_by_strategy c)
