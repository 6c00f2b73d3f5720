-- ===== src/Lease/Dynamodb.antt =====
-- internal/lease/dynamodb.go: the lease store over a DynamoDB table, for any client. What the
-- builders of the expression package are given is data here.
pub mod Rows
pub mod RoundTrip
pub mod Service
pub mod Represents
pub mod Updates
pub mod Refines
pub mod Listing
mod Table
mod Samples
use opentelemetry_kinesis_st.Base.{
  ℕ, zero, suc, Bool, true, false, not, List, [], ◌∷◌, ◌++◌, Option, none, some, Str, str_eq,
  if◌then◌else◌, is_empty,
}
use opentelemetry_kinesis_st.Base.Decimal.{format_int}
use opentelemetry_kinesis_st.Lease.{
  Lease, Error, Result, ok, err, lease_conflict, lease_not_found, empty_owner, canceled, fault,
  next_counter, checkpoint_trim_horizon,
}
use opentelemetry_kinesis_st.Lease.Dynamodb.Rows.{
  AttributeValue, s, n, Item, lease_key, marshal_lease, unmarshal_lease, attr_lease_key,
  attr_lease_owner, attr_lease_counter, attr_checkpoint,
}

-- expression.ConditionBuilder, as far as it is used.
pub data Condition : Type 0 where
  attribute_not_exists : Str → Condition
  equal : Str → AttributeValue → Condition
  both : Condition → Condition → Condition

-- A clause of expression.UpdateBuilder.
pub data Clause : Type 0 where
  set_name : Str → AttributeValue → Clause
  remove_name : Str → Clause

-- What a call fails with: ConditionalCheckFailedException, the context's end, or anything else.
pub data CallError : Type 0 where
  check_failed ctx_ended service_error : CallError

pub data Reply {ℓ} (A : Type ℓ) : Type ℓ where
  answer : A → Reply A
  failed : CallError → Reply A

-- A page of Scan, with its LastEvaluatedKey, empty on the last page.
pub record ScanPage : Type 0 where
  pub items : List Item
  pub last_evaluated_key : Item

-- The client with the table's name, on the state `W` of the world outside. UpdateItem returns all
-- attributes as they are after it. `builds` is whether the expression builder succeeds.
pub record Client (W : Type 0) : Type 0 where
  pub builds : List Clause → Condition → Bool
  pub scan : Option Item → W → Reply ScanPage × W
  pub get_item : Item → W → Reply Item × W
  pub put_item : Item → Condition → W → Reply (Unit {0}) × W
  pub update_item : Item → List Clause → Condition → W → Reply Item × W
  pub delete_item : Item → Condition → W → Reply (Unit {0}) × W

unfoldable pub is_conditional_check_failed : CallError → Bool
is_conditional_check_failed check_failed = true
is_conditional_check_failed ctx_ended = false
is_conditional_check_failed service_error = false

-- An error handed on as it is.
unfoldable pub as_error : CallError → Error
as_error check_failed = fault
as_error ctx_ended = canceled
as_error service_error = fault

-- The leases of a page; an item that is no lease is an error.
unmarshal_items : List Item → Option (List Lease)
unmarshal_items [] = some []
unmarshal_items (item ∷ items) = elim (unmarshal_lease item) [
  | none ↦ none
  | some l ↦ elim (unmarshal_items items) [ none ↦ none | some ls ↦ some (l ∷ ls) ]
]

abbrev counter_is : ℕ → Condition
counter_is counter = equal attr_lease_counter (n (format_int counter))

pub owner_counter_condition : Lease → Condition
owner_counter_condition l = both (equal attr_lease_owner (s l.owner)) (counter_is l.counter)

-- The end of rowExists.
exists_of : Reply Item → Result Bool
exists_of (answer item) = ok (not (is_empty item))
exists_of (failed e) = err (as_error e)

-- The end of Ensure: a row that was there is what is asked for.
ensure_of : Reply (Unit {0}) → Result (Unit {0})
ensure_of (answer _) = ok tt
ensure_of (failed e) = if is_conditional_check_failed e then ok tt else err (as_error e)

-- The end of update after a failed condition.
missing_or_conflict : Result Bool → Result Lease
missing_or_conflict (err e) = err e
missing_or_conflict (ok there) = if not there then err lease_not_found else err lease_conflict

-- The end of Release.
pub release_of : Result Lease → Result (Unit {0})
release_of (ok l) = ok tt
release_of (err e) = err e

-- The end of Delete after a failed condition.
done_or_conflict : Result Bool → Result (Unit {0})
done_or_conflict (err e) = err e
done_or_conflict (ok there) = if not there then ok tt else err lease_conflict

module _ {W : Type 0} (c : Client W) where
  -- The loop of List, with one unit of fuel for each page; `none` is a loop that used it up.
  list_pages : ℕ → Option Item → List Lease → W → Option (Result (List Lease)) × W
  list_pages zero start_key out w = (none, w)
  list_pages (suc fuel) start_key out w =
      let (r, w') = c.scan start_key w in
      elim r [
        | failed e ↦ (some (err (as_error e)), w')
        | answer page ↦ elim (unmarshal_items page.items) [
          | none ↦ (some (err fault), w')
          | some ls ↦
              let more = list_pages fuel (some page.last_evaluated_key) (out ++ ls) w' in
              if is_empty page.last_evaluated_key then (some (ok (out ++ ls)), w') else more
        ]
      ]

  pub list_table : ℕ → W → Option (Result (List Lease)) × W
  list_table fuel w = list_pages fuel none [] w

  pub row_exists : Str → W → Result Bool × W
  unfolding exists_of
  row_exists shard_id w = let (r, w') = c.get_item (lease_key shard_id) w in (exists_of r, w')

  pub ensure : Str → List Str → W → Result (Unit {0}) × W
  ensure shard_id parent_ids w =
      let cond = attribute_not_exists attr_lease_key in
      let (r, w') =
        c.put_item
          (marshal_lease (record {
            shard_id = shard_id;
            owner = [];
            counter = 0;
            checkpoint = checkpoint_trim_horizon;
            parent_ids = parent_ids;
          }))
          cond w in
      if not (c.builds [] cond) then (err fault, w) else (ensure_of r, w')

  -- What update makes of the reply: a follow-up read tells a missing row from a conflict.
  update_reply : Str → Reply Item → W → Result Lease × W
  unfolding missing_or_conflict
  update_reply shard_id (answer attributes) w = elim (unmarshal_lease attributes) [
    | none ↦ (err fault, w)
    | some l ↦ (ok l, w)
  ]
  update_reply shard_id (failed e) w =
      let (r, w') = row_exists shard_id w in
      if is_conditional_check_failed e then (missing_or_conflict r, w') else (err (as_error e), w)

  pub update : Str → List Clause → Condition → W → Result Lease × W
  unfolding update_reply
  update shard_id upd cond w =
      let (r, w') = c.update_item (lease_key shard_id) upd cond w in
      if not (c.builds upd cond) then (err fault, w) else update_reply shard_id r w'

  pub acquire : Str → Str → ℕ → W → Result Lease × W
  acquire shard_id owner expected_counter w =
      if str_eq owner []
      then (err empty_owner, w)
      else update shard_id
          (set_name attr_lease_owner (s owner)
            ∷ set_name attr_lease_counter (n (format_int (next_counter expected_counter)))
            ∷ [])
          (counter_is expected_counter) w

  pub heartbeat : Lease → W → Result Lease × W
  heartbeat lease w =
      update lease.shard_id
        (set_name attr_lease_counter (n (format_int (next_counter lease.counter))) ∷ [])
        (owner_counter_condition lease) w

  pub checkpoint : Lease → Str → W → Result Lease × W
  checkpoint lease seq w =
      update lease.shard_id
        (set_name attr_checkpoint (s seq)
          ∷ set_name attr_lease_counter (n (format_int (next_counter lease.counter)))
          ∷ [])
        (owner_counter_condition lease) w

  pub release : Lease → W → Result (Unit {0}) × W
  release lease w =
      let (r, w') =
        update lease.shard_id
          (set_name attr_lease_counter (n (format_int (next_counter lease.counter)))
            ∷ remove_name attr_lease_owner
            ∷ [])
          (owner_counter_condition lease) w in
      (release_of r, w')

  -- What Delete makes of the reply: a row that is gone is deleted.
  delete_reply : Str → Reply (Unit {0}) → W → Result (Unit {0}) × W
  unfolding done_or_conflict
  delete_reply shard_id (answer _) w = (ok tt, w)
  delete_reply shard_id (failed e) w =
      let (r, w') = row_exists shard_id w in
      if is_conditional_check_failed e then (done_or_conflict r, w') else (err (as_error e), w)

  pub delete : Str → ℕ → W → Result (Unit {0}) × W
  unfolding delete_reply
  delete shard_id expected_counter w =
      let cond = counter_is expected_counter in
      let (r, w') = c.delete_item (lease_key shard_id) cond w in
      if not (c.builds [] cond) then (err fault, w) else delete_reply shard_id r w'
