-- ===== src/Lease/Dynamodb/Rows.antt =====
-- internal/lease/dynamodb.go: a lease as an item of a KCL lease table, and back.
use opentelemetry_kinesis_st.Base.{
  ℕ, List, [], ◌∷◌, Option, none, some, Str, str_eq, bytes, ◌==◌, if◌then◌else◌, is_empty,
}
use opentelemetry_kinesis_st.Base.Decimal.{format_int, parse_int}
use opentelemetry_kinesis_st.Base.GoMap
use opentelemetry_kinesis_st.Base.GoMap.{GoMap}
use opentelemetry_kinesis_st.Lease.{Lease}

abbrev pub attr_lease_key : Str
attr_lease_key = bytes "leaseKey"

abbrev pub attr_lease_owner : Str
attr_lease_owner = bytes "leaseOwner"

abbrev pub attr_lease_counter : Str
attr_lease_counter = bytes "leaseCounter"

abbrev pub attr_checkpoint : Str
attr_checkpoint = bytes "checkpoint"

abbrev pub attr_parent_shard_id : Str
attr_parent_shard_id = bytes "parentShardId"

abbrev pub parent_separator : ℕ
parent_separator = b','

-- types.AttributeValue: a string, a number, a string set, or any other member.
pub data AttributeValue : Type 0 where
  s n : Str → AttributeValue
  ss : List Str → AttributeValue
  other_member : AttributeValue

abbrev pub Item : Type 0
Item = GoMap AttributeValue

unfoldable pub lease_key : Str → Item
lease_key shard_id = (attr_lease_key, s shard_id) ∷ []

unfoldable pub marshal_lease : Lease → Item
marshal_lease l =
    let item : Item =
      (attr_lease_key, s l.shard_id)
      ∷ (attr_lease_counter, n (format_int l.counter))
      ∷ (attr_checkpoint, s l.checkpoint)
      ∷ [] in
    let owned = if str_eq l.owner [] then item else GoMap.put item attr_lease_owner (s l.owner) in
    if is_empty l.parent_ids then owned else GoMap.put owned attr_parent_shard_id (ss l.parent_ids)

-- The type assertion of stringAttr on m[name].
as_string : Option AttributeValue → Option Str
as_string (some (s v)) = some v
as_string _ = none

unfoldable pub string_attr : Item → Str → Option Str
unfolding as_string
string_attr m name = as_string (GoMap.get m name)

string_or_empty : Option Str → Str
string_or_empty none = []
string_or_empty (some v) = v

-- A counter that is missing or no number is 0; a number that is no int64 is an error.
as_counter : Option AttributeValue → Option ℕ
as_counter (some (n v)) = parse_int v
as_counter _ = some 0

-- One more byte in front of the first part.
add_byte : ℕ → List Str → List Str
add_byte c [] = (c ∷ []) ∷ []
add_byte c (p ∷ ps) = (c ∷ p) ∷ ps

-- strings.Split with a separator of one byte.
unfoldable pub split : Str → List Str
unfolding add_byte
split [] = [] ∷ []
split (c ∷ rest) = if c == parent_separator then [] ∷ split rest else add_byte c (split rest)

as_parents : Option AttributeValue → List Str
as_parents (some (ss v)) = v
as_parents (some (s v)) = if str_eq v [] then [] else split v
as_parents _ = []

unfoldable pub read_parents : Item → List Str
unfolding as_parents
read_parents m = as_parents (GoMap.get m attr_parent_shard_id)

-- The lease, once the key and the counter are read.
read_lease : Item → Str → ℕ → Lease
unfolding string_or_empty read_parents
read_lease m shard_id counter = record {
  shard_id = shard_id;
  owner = string_or_empty (string_attr m attr_lease_owner);
  counter = counter;
  checkpoint = string_or_empty (string_attr m attr_checkpoint);
  parent_ids = read_parents m;
}

-- `none` is an error.
unfoldable pub unmarshal_lease : Item → Option Lease
unfolding read_lease string_attr as_counter
unmarshal_lease m = elim (string_attr m attr_lease_key) [
  | none ↦ none
  | some shard_id ↦ elim (as_counter (GoMap.get m attr_lease_counter)) [
    | none ↦ none
    | some counter ↦ some (read_lease m shard_id counter)
  ]
]
