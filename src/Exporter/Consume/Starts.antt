-- ===== src/Exporter/Consume/Starts.antt =====
-- exporter/awskinesisexporter/exporter.go: newExporter on a configuration that Validate accepts.
use opentelemetry_kinesis_st.Base.{
  ◌≡◌, refl, ◌∙◌, not, ◌⊎◌, inl, inr, none, some, is_empty, Option-cases,
}
use opentelemetry_kinesis_st.Encoding.{new_traces_encoder, new_compressor, encoders_agree}
use opentelemetry_kinesis_st.Exporter.Config.{Config, tag_hash, validate}
use opentelemetry_kinesis_st.Exporter.Config.Validity.{validate_iff}
use opentelemetry_kinesis_st.Exporter.Consume.{
  KinesisExporter, NewError, no_client, no_telemetry, Makers, new_exporter,
}
use opentelemetry_kinesis_st.Exporter.Partition.{resolve_key_plan}
use opentelemetry_kinesis_st.Exporter.Partition.Plans.{compiles, resolve_key_plan-some}

module _ {W : Type 0} (makers : Makers W) (cfg : Config) where
  -- An exporter of the configuration: one wire format for all signals, and a key plan that is empty
  -- for the random strategy only.
  pub record IsOf (e : KinesisExporter W) : Type 0 where
    pub same_cfg : e.cfg ≡ cfg
    pub connected : makers.new_client cfg.region cfg.endpoint ≡ some e.client
    pub encoded : new_traces_encoder cfg.encoding ≡ some e.traces_enc
    pub one_format : (e.metrics_enc ≡ e.traces_enc) × (e.logs_enc ≡ e.traces_enc)
    pub compressed : new_compressor cfg.compression ≡ some e.comp
    pub planned : resolve_key_plan makers.compile cfg ≡ some e.key_plan
    pub keyed : is_empty e.key_plan ≡ not (tag_hash cfg)

  abbrev pub Starts : NewError ⊎ KinesisExporter W → Type 0
  Starts (inl e) =
      ((e ≡ no_client) × (makers.new_client cfg.region cfg.endpoint ≡ none))
      ⊎ ((e ≡ no_telemetry) × (makers.new_telemetry ≡ none))
  Starts (inr e) = IsOf e

  -- On a configuration that Validate accepts, newExporter fails only where the AWS client or the
  -- instruments cannot be built. Otherwise it returns an exporter of that configuration: one wire
  -- format for all three signals, the configured compressor, and the plan that resolveKeyPlan gives,
  -- which is empty for the random strategy only.
  pub new_exporter-Starts :
      validate (compiles makers.compile) cfg ≡ none → Starts (new_exporter makers cfg)
  unfolding new_exporter
  new_exporter-Starts h =
      let v = (validate_iff (compiles makers.compile) cfg).0 h in
      let (plan, q, keyed) = resolve_key_plan-some makers.compile cfg v.strategy in
      elim (Option-cases (new_traces_encoder cfg.encoding)) [
        | inl n ↦ absurd (v.encoding_known n)
        | inr (t, p) ↦ elim (Option-cases (new_compressor cfg.compression)) [
          | inl n ↦ absurd (v.compression_known n)
          | inr (c, r) ↦
              let (_, metrics, _, logs, _) = encoders_agree cfg.encoding in
              rw (p, metrics ∙ p, logs ∙ p, r, new_exporter)
                (elim (Option-cases (makers.new_client cfg.region cfg.endpoint)) [
                  | inl n ↦ rw n (inl (refl, n))
                  | inr (client, n) ↦ elim (Option-cases makers.new_telemetry) [
                    | inl m ↦ rw (n, m) (inr (refl, refl))
                    | inr (_, m) ↦
                        rw (n, m, q)
                          (record {
                            same_cfg = refl;
                            connected = n;
                            encoded = p;
                            one_format = (refl, refl);
                            compressed = r;
                            planned = q;
                            keyed = keyed;
                          })
                  ]
                ])
        ]
      ]
