-- ===== src/Lease/Dynamodb/Samples.antt =====
-- Concrete runs of internal/lease/dynamodb.go, on a table in memory.
use opentelemetry_kinesis_st.Base.{
  ◌≡◌, refl, inl, inr, [], ◌∷◌, none, some, str_eq, bytes, arith, Bool-cases,
}
use opentelemetry_kinesis_st.Base.GoMap
use opentelemetry_kinesis_st.Lease.{Lease, ok, checkpoint_trim_horizon}
use opentelemetry_kinesis_st.Lease.Memory.{MemoryStore}
use opentelemetry_kinesis_st.Lease.Memory.Fencing.{releases}
use opentelemetry_kinesis_st.Lease.Dynamodb.{ScanPage, answer, list_table}
use opentelemetry_kinesis_st.Lease.Dynamodb.Rows.{
  Item, s, marshal_lease, unmarshal_lease, read_parents, attr_parent_shard_id,
}
use opentelemetry_kinesis_st.Lease.Dynamodb.RoundTrip.{
  unmarshal_lease-marshal_lease, read_parents-join, join,
}
use opentelemetry_kinesis_st.Lease.Dynamodb.Represents.{marshal_lease-IsRow}
use opentelemetry_kinesis_st.Lease.Dynamodb.Updates.{no_row, row_of}
use opentelemetry_kinesis_st.Lease.Dynamodb.Refines.{perform, in_memory, Represents, Refines}
use opentelemetry_kinesis_st.Lease.Dynamodb.Refines.Steps.{perform-Refines}
use opentelemetry_kinesis_st.Lease.Dynamodb.Listing.{
  Reads, no_items, item_of, last_page, page_of, no_pages, list_table-reads,
}
use opentelemetry_kinesis_st.Lease.Dynamodb.Table.{Table, table_client, table_client-IsDynamodb}

abbrev child : Lease
child = record {
  shard_id = bytes "c";
  owner = bytes "w";
  counter = 41;
  checkpoint = checkpoint_trim_horizon;
  parent_ids = bytes "a" ∷ bytes "b" ∷ [];
}

abbrev one_row : MemoryStore
one_row = record { leases = (bytes "c", child) ∷ [] }

abbrev one_item : Table
one_item = (bytes "c", marshal_lease child) ∷ []

one_item-Represents : Represents (λ (t : Table) k. GoMap.get t k) one_item one_row
unfolding GoMap.get
one_item-Represents k = elim (Bool-cases (str_eq (bytes "c") k)) [
  | inl e ↦
      rw e (row_of (marshal_lease child) child refl refl (marshal_lease-IsRow child (omega arith)))
  | inr e ↦ rw e (no_row refl refl)
]

perform-Refines_example :
    Refines
      (λ (t : Table) k. GoMap.get t k)
      one_row
      (in_memory (releases child) one_row).1
      (perform table_client (releases child) one_item).0
      (in_memory (releases child) one_row).0
      (perform table_client (releases child) one_item).1
perform-Refines_example =
    perform-Refines table_client (λ t k. GoMap.get t k) table_client-IsDynamodb one_item one_row
      one_item-Represents (releases child) ((cc), omega arith)

unmarshal_lease-marshal_lease_example : unmarshal_lease (marshal_lease child) ≡ some child
unmarshal_lease-marshal_lease_example = unmarshal_lease-marshal_lease child (omega arith)

abbrev old_item : Item
old_item = (attr_parent_shard_id, s (join (bytes "ab" ∷ bytes "c" ∷ []))) ∷ []

old_item_parents :
    GoMap.get old_item attr_parent_shard_id ≡ some (s (join (bytes "ab" ∷ bytes "c" ∷ [])))
unfolding GoMap.get str_eq
old_item_parents = refl

read_parents-join_example : read_parents old_item ≡ bytes "ab" ∷ bytes "c" ∷ []
read_parents-join_example =
    read_parents-join old_item b'a' (bytes "b") (bytes "c" ∷ []) old_item_parents (omega arith)

child-Reads : Reads (marshal_lease child ∷ []) (child ∷ [])
child-Reads =
    item_of (marshal_lease child) child (unmarshal_lease-marshal_lease child (omega arith)) no_items

abbrev only_page : ScanPage
only_page = record { items = marshal_lease child ∷ []; last_evaluated_key = [] }

scanned : (table_client.scan none one_item).0 ≡ answer only_page
unfolding GoMap.values
scanned = refl

list_table-reads_example : list_table table_client 2 one_item ≡ (some (ok (child ∷ [])), one_item)
list_table-reads_example =
    list_table-reads table_client (last_page only_page one_item scanned refl refl)
      (page_of (marshal_lease child ∷ []) (child ∷ []) child-Reads no_pages) 2 (omega arith)
