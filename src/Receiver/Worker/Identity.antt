-- ===== src/Receiver/Worker/Identity.antt =====
-- receiver/awskinesisreceiver/workerid.go: the identity that a worker claims leases under.
use opentelemetry_kinesis_st.Base.{
  ℕ, ◌≡◌, ◌≢◌, refl, sym, ap, subst, ◌∙◌, inl, inr, true, List, [], ◌++◌, Option, none, some, Str,
  str_eq, str_eq_iff, str_eq_refl, str_eq-false, bytes, take, ◌==◌, Bool-cases, Option-cases,
  if◌then◌else◌, arith,
}
use opentelemetry_kinesis_st.Base.GoMap
use opentelemetry_kinesis_st.Lease.{ok, is_owned_by, Lease}
use opentelemetry_kinesis_st.Lease.Memory
use opentelemetry_kinesis_st.Lease.Memory.{MemoryStore}
use opentelemetry_kinesis_st.Receiver.Config.{
  Config, worker_strategy_static, worker_strategy_hostname, worker_strategy_ecs,
  worker_strategy_file, validate,
}
use opentelemetry_kinesis_st.Receiver.Config.Accepted.{HasWorker, validate-IsServed}
use opentelemetry_kinesis_st.Receiver.Worker.{
  WorkerError, empty_id, unknown_strategy, no_file, hostname_failed, empty_hostname, Resolution,
  resolved, fails, HttpReply, malformed_url, no_response, response, Host, non_empty, task_id,
  read_task, metadata_uri, ecs_task_id, worker_id_from_file, resolve_by_strategy, check_id,
  resolve_worker_id,
}
use opentelemetry_kinesis_st.Receiver.Worker.Text.{valid_string}
use opentelemetry_kinesis_st.Base.Utf8.{IsUtf8}
use opentelemetry_kinesis_st.Receiver.Worker.Utf8.{valid_string-IsUtf8}
use opentelemetry_kinesis_st.Receiver.Worker.Parts.{
  IsLastSegment, last_segment, IsTrimmed, trim_space-IsTrimmed,
}

-- Every lease that the in-memory store hands out to an owner of this name counts as its own.
abbrev pub Owns : Str → Type 0
Owns id =
    (k : Str) (n : ℕ) (s s' : MemoryStore) (l : Lease)
    → Memory.acquire k id n s ≡ (ok l, s')
    → is_owned_by l id ≡ true

non_empty-Owns : (id : Str) → id ≢ [] → Owns id
unfolding Memory.acquire is_owned_by
non_empty-Owns id h k n s s' l e = elim (Option-cases (GoMap.get s.leases k)) [
  | inl f ↦ absurd (ground (arith, rw (f, Memory.acquire) at e))
  | inr (cur, f) ↦ ground (arith, rw (f, Memory.acquire) at e, str_eq-false id [] h, str_eq_refl id)
]

module _ (host : Host) (c : Config) where
  -- Where an identity comes from, by the strategy.
  pub data From (id : Str) : Type 0 where
    configured : c.worker_resolution_strategy ≡ worker_strategy_static → id ≡ c.worker_id → From id
    generated :
        c.worker_resolution_strategy ≡ worker_strategy_static
        → c.worker_id ≡ []
        → id ≡ bytes "otelcol-" ++ host.new_uuid
        → From id
    of_host :
        c.worker_resolution_strategy ≡ worker_strategy_hostname → host.hostname ≡ some id → From id
    of_task :
        (body : List ℕ) (arn : Str)
        → c.worker_resolution_strategy ≡ worker_strategy_ecs
        → host.http_get (metadata_uri host ++ bytes "/task") ≡ response 200 body
        → host.decode_task_arn (take 65536 body) ≡ some arn
        → IsLastSegment id arn
        → From id
    of_file :
        (raw : Str)
        → c.worker_resolution_strategy ≡ worker_strategy_file
        → host.read_file c.worker_id_file ≡ some raw
        → IsTrimmed id raw
        → From id

  -- An error that Validate and the strategies do not rule out.
  abbrev pub Expected : WorkerError → Type 0
  Expected e = (e ≢ unknown_strategy) × (e ≢ no_file) × (e ≢ empty_id)

  -- A resolution past its strategy.
  data Chosen : Resolution → Type 0 where
    chosen : (id : Str) → id ≢ [] → From id → Chosen (resolved id)
    given_up : (e : WorkerError) → Expected e → Chosen (fails e)

  non_empty-Chosen : (id : Str) (e : WorkerError) → Expected e → From id → Chosen (non_empty id e)
  unfolding non_empty
  non_empty-Chosen id e x f = elim (Bool-cases (str_eq id [])) [
    | inl h ↦ rw h (given_up e x)
    | inr h ↦ rw h (chosen id (λ q. cc ((str_eq_iff id []).1 q)) f)
  ]

  read_task-Chosen :
      (r : HttpReply)
      → c.worker_resolution_strategy ≡ worker_strategy_ecs
      → host.http_get (metadata_uri host ++ bytes "/task") ≡ r
      → Chosen (read_task host r)
  unfolding read_task task_id
  read_task-Chosen malformed_url s g = given_up _ (cc, cc, cc)
  read_task-Chosen no_response s g = given_up _ (cc, cc, cc)
  read_task-Chosen (response status body) s g = elim (Bool-cases (status == 200)) [
    | inr h ↦ rw (h, read_task) (given_up _ (cc, cc, cc))
    | inl h ↦ elim (Option-cases (host.decode_task_arn (take 65536 body))) [
      | inl d ↦ rw (h, d, read_task) (given_up _ (cc, cc, cc))
      | inr (arn, d) ↦
          let ok200 : status ≡ 200 = ground arith in
          rw (h, d, read_task)
            (non_empty-Chosen _ _ (cc, cc, cc)
              (of_task body arn s (g ∙ ap (λ n. response n body) ok200) d (last_segment arn)))
    ]
  ]

  ecs-Chosen : c.worker_resolution_strategy ≡ worker_strategy_ecs → Chosen (ecs_task_id host)
  unfolding ecs_task_id
  ecs-Chosen s = elim (Bool-cases (str_eq (metadata_uri host) [])) [
    | inl h ↦ rw (h, ecs_task_id) (given_up _ (cc, cc, cc))
    | inr h ↦ rw (h, ecs_task_id) (read_task-Chosen _ s refl)
  ]

  file-Chosen :
      c.worker_resolution_strategy ≡ worker_strategy_file
      → c.worker_id_file ≢ []
      → Chosen (worker_id_from_file host c.worker_id_file)
  unfolding worker_id_from_file
  file-Chosen s named = elim (Option-cases (host.read_file c.worker_id_file)) [
    | inl h ↦ rw (str_eq-false _ _ named, h, worker_id_from_file) (given_up _ (cc, cc, cc))
    | inr (raw, h) ↦
        rw (str_eq-false _ _ named, h, worker_id_from_file)
          (non_empty-Chosen _ _ (cc, cc, cc) (of_file raw s h (trim_space-IsTrimmed raw)))
  ]

  by_static :
      c.worker_resolution_strategy ≡ worker_strategy_static
      → resolve_by_strategy host c ≡ (
          if str_eq c.worker_id []
          then resolved (bytes "otelcol-" ++ host.new_uuid)
          else resolved c.worker_id)
  unfolding resolve_by_strategy str_eq
  by_static s = rw s

  by_hostname :
      (o : Option Str)
      → c.worker_resolution_strategy ≡ worker_strategy_hostname
      → host.hostname ≡ o
      → resolve_by_strategy host c
        ≡ elim o [ none ↦ fails hostname_failed | some name ↦ non_empty name empty_hostname ]
  unfolding resolve_by_strategy str_eq
  by_hostname o s e = rw (s, e)

  by_ecs :
      c.worker_resolution_strategy ≡ worker_strategy_ecs
      → resolve_by_strategy host c ≡ ecs_task_id host
  unfolding resolve_by_strategy str_eq
  by_ecs s = rw s

  by_file :
      c.worker_resolution_strategy ≡ worker_strategy_file
      → resolve_by_strategy host c ≡ worker_id_from_file host c.worker_id_file
  unfolding resolve_by_strategy str_eq
  by_file s = rw s

  static-Chosen :
      c.worker_resolution_strategy ≡ worker_strategy_static → Chosen (resolve_by_strategy host c)
  static-Chosen s = elim (Bool-cases (str_eq c.worker_id [])) [
    | inl h ↦
        rw (by_static s, h)
          (chosen _ (λ q. cc q) (generated s ((str_eq_iff c.worker_id []).0 h) refl))
    | inr h ↦
        rw (by_static s, h)
          (chosen _ (λ q. cc ((str_eq_iff c.worker_id []).1 q)) (configured s refl))
  ]

  hostname-Chosen :
      c.worker_resolution_strategy ≡ worker_strategy_hostname → Chosen (resolve_by_strategy host c)
  hostname-Chosen s = elim (Option-cases host.hostname) [
    | inl e ↦ subst Chosen (sym (by_hostname none s e)) (given_up _ (cc, cc, cc))
    | inr (name, e) ↦
        subst Chosen (sym (by_hostname (some name) s e))
          (non_empty-Chosen name _ (cc, cc, cc) (of_host s e))
  ]

  by_strategy-Chosen : HasWorker c → Chosen (resolve_by_strategy host c)
  by_strategy-Chosen (inl h) = static-Chosen h.0
  by_strategy-Chosen (inr (inl h)) = hostname-Chosen h.0
  by_strategy-Chosen (inr (inr (inl h))) = subst Chosen (sym (by_ecs h.0)) (ecs-Chosen h.0)
  by_strategy-Chosen (inr (inr (inr h))) = subst Chosen (sym (by_file h.0)) (file-Chosen h.0 h.2)

  -- What resolveWorkerID returns.
  pub data Identifies : Resolution → Type 0 where
    identified : (id : Str) → id ≢ [] → IsUtf8 id → From id → Owns id → Identifies (resolved id)
    refused : (e : WorkerError) → Expected e → Identifies (fails e)

  check_id-Identifies : (r : Resolution) → Chosen r → Identifies (check_id host r)
  unfolding check_id
  check_id-Identifies _ (given_up e x) = refused e x
  check_id-Identifies _ (chosen id n f) = elim (Bool-cases (valid_string id)) [
    | inl v ↦
        rw (str_eq-false id [] n, v)
          (identified id n (valid_string-IsUtf8 id v) f (non_empty-Owns id n))
    | inr v ↦ rw (str_eq-false id [] n, v) (refused _ (cc, cc, cc))
  ]

  -- Under a configuration that Validate accepts, resolveWorkerID returns an identity or an error other
  -- than an unknown strategy, an unnamed file and the last check's empty identity. An identity is not
  -- empty, is a sequence of UTF-8 encoded code points, and comes from where the strategy says: the
  -- configured name or a prefixed UUID if none is configured, the host's name, the last segment of the
  -- task ARN that the metadata endpoint gave with status 200, or a part of the file's text that white
  -- space neither starts nor ends. Every lease that the in-memory store hands out to it counts as
  -- owned by it.
  pub resolve_worker_id-Identifies : validate c ≡ none → Identifies (resolve_worker_id host c)
  unfolding resolve_worker_id
  resolve_worker_id-Identifies v =
      check_id-Identifies _ (by_strategy-Chosen ((validate-IsServed c).0 v).worker)
