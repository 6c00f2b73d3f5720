-- ===== src/Exporter/Partition.antt =====
-- exporter/awskinesisexporter/partition.go: the key plan, the parts of a key, and promotions.
pub mod Grouping
pub mod Weights
pub mod Plans
pub mod Metrics
use opentelemetry_kinesis_st.Base.{
  ℕ, Bool, true, false, not, ◌||◌, List, [], ◌∷◌, ◌++◌, map, Option, none, some, Str, str_eq,
  is_empty, if◌then◌else◌,
}
use opentelemetry_kinesis_st.Base.GoMap
use opentelemetry_kinesis_st.Exporter.Config.{
  Config, PartitionKeySource, tag_hash, key_source_resource, key_source_datapoint,
  key_source_metric_name,
}
use opentelemetry_kinesis_st.Exporter.Text.{AttrValue, str_value, other_value}
use opentelemetry_kinesis_st.Exporter.Signal.{Attrs}

-- A compiled pattern, by its FindStringSubmatch: the match and its groups.
abbrev pub Regexp : Type 0
Regexp = Str → Option (List Str)

-- keySource, a component of the key plan.
pub record PlanKey : Type 0 where
  pub source : Str
  pub name : Str
  pub promote : Str
  pub re : Option Regexp

abbrev pub KeyPlan : Type 0
KeyPlan = List PlanKey

-- tagSep
abbrev pub tag_sep : ℕ
tag_sep = 0x1f

unfoldable pub resource_only : KeyPlan → Bool
resource_only [] = true
resource_only (k ∷ p) = if not (str_eq k.source key_source_resource) then false else resource_only p

unfoldable pub has_promotion : KeyPlan → Bool
has_promotion [] = false
has_promotion (k ∷ p) = if not (str_eq k.promote []) then true else has_promotion p

-- The shorthand of a tag.
tag_key : Str → PlanKey
tag_key tag = record { source = key_source_resource; name = tag; promote = []; re = none }

-- regexp.Compile is a parameter, `none` on an error.
module _ (compile : Str → Option Regexp) where
  -- The full form of one key.
  full_key : PartitionKeySource → Option PlanKey
  full_key ks =
      let src = if str_eq ks.source [] then key_source_resource else ks.source in
      let entry : PlanKey = record {
        source = src;
        name = ks.name;
        promote = ks.promote;
        re = none;
      } in
      if str_eq ks.regex []
      then some entry
      else elim (compile ks.regex) [ none ↦ none | some re ↦ some (record entry { re = some re }) ]

  full_keys : List PartitionKeySource → Option KeyPlan
  unfolding full_key
  full_keys [] = some []
  full_keys (ks ∷ keys) = elim (full_key ks) [
    | none ↦ none
    | some k ↦ elim (full_keys keys) [ none ↦ none | some p ↦ some (k ∷ p) ]
  ]

  -- `none` is an error, and the empty plan is nil.
  unfoldable pub resolve_key_plan : Config → Option KeyPlan
  unfolding full_keys tag_key
  resolve_key_plan c =
      if not (tag_hash c)
      then some []
      else if not (is_empty c.partition_key.tags)
      then some (map tag_key c.partition_key.tags)
      else full_keys c.partition_key.keys

-- Value.AsString
unfoldable pub as_string : AttrValue → Str
as_string (str_value s) = s
as_string (other_value s) = s

-- The first group of the first match, or the whole match.
unfoldable pub first_capture : Regexp → Str → Str
first_capture re s = elim (re s) [
  | none ↦ []
  | some groups ↦ elim groups [
    | [] ↦ []
    | whole ∷ rest ↦ elim rest [ [] ↦ whole | group ∷ _ ↦ group ]
  ]
]

attribute_text : Option AttrValue → Str
unfolding as_string
attribute_text none = []
attribute_text (some v) = as_string v

reduced : Option Regexp → Str → Str
unfolding first_capture
reduced none v = v
reduced (some re) v = first_capture re v

-- One part of the key.
unfoldable pub resolve_part : Attrs → Str → Attrs → PlanKey → Str
unfolding attribute_text reduced
resolve_part res metric_name leaf ks = reduced ks.re (
    if str_eq ks.source key_source_resource
    then attribute_text (GoMap.get res ks.name)
    else if str_eq ks.source key_source_datapoint
    then attribute_text (GoMap.get leaf ks.name)
    else if str_eq ks.source key_source_metric_name
    then metric_name
    else [])

unfoldable pub resolve_parts : KeyPlan → Attrs → Str → Attrs → List Str
unfolding resolve_part
resolve_parts plan res metric_name leaf = map (resolve_part res metric_name leaf) plan

-- PutStr appends a key that is missing.
unfoldable pub put_if_absent : Attrs → Str → Str → Attrs
put_if_absent m k v = elim (GoMap.get m k) [ some _ ↦ m | none ↦ m ++ (k, str_value v) ∷ [] ]

-- applyPromotions on the attributes of the resource and of the leaf. `parts` has a part for each
-- component.
promote_part : PlanKey → Str → Attrs × Attrs → Attrs × Attrs
unfolding put_if_absent
promote_part ks part (res, leaf) =
    if str_eq ks.promote [] || str_eq part []
    then (res, leaf)
    else if str_eq ks.source key_source_resource
    then (put_if_absent res ks.promote part, leaf)
    else if str_eq ks.source key_source_datapoint || str_eq ks.source key_source_metric_name
    then (res, put_if_absent leaf ks.promote part)
    else (res, leaf)

unfoldable pub apply_promotions : KeyPlan → List Str → Attrs × Attrs → Attrs × Attrs
unfolding promote_part
apply_promotions [] parts dst = dst
apply_promotions (ks ∷ plan) [] dst = dst
apply_promotions (ks ∷ plan) (part ∷ parts) dst =
    apply_promotions plan parts (promote_part ks part dst)

-- strings.Join with tagSep.
unfoldable pub join_parts : List Str → Str
join_parts [] = []
join_parts (p ∷ []) = p
join_parts (p ∷ (q ∷ ps)) = p ++ tag_sep ∷ join_parts (q ∷ ps)
