-- ===== src/Lease/Dynamodb/Service.antt =====
-- What DynamoDB documents of the calls that internal/lease/dynamodb.go makes, on a table with
-- leaseKey as its partition key: conditions are tested against the row, a write whose condition
-- fails changes nothing, and a write touches no other row. Where a call fails with another error, a
-- write may have been applied or not. Sets have no order. Numbers are those of int64 counters.
use opentelemetry_kinesis_st.Base.{
  ℕ, ◌≡◌, ◌≢◌, ◌⊎◌, Bool, true, false, ◌&&◌, List, [], ◌∷◌, Option, none, some, Str, str_eq, ◌==◌,
  Perm, is_none,
}
use opentelemetry_kinesis_st.Base.Decimal.{parse_int}
use opentelemetry_kinesis_st.Base.GoMap
use opentelemetry_kinesis_st.Lease.Dynamodb.{
  Client, Condition, attribute_not_exists, equal, both, Clause, set_name, remove_name, CallError,
  check_failed, Reply, answer, failed,
}
use opentelemetry_kinesis_st.Lease.Dynamodb.Rows.{
  AttributeValue, s, n, ss, Item, lease_key, attr_lease_key, attr_lease_counter,
}

pub attribute : Option Item → Str → Option AttributeValue
attribute none name = none
attribute (some item) name = GoMap.get item name

equal_numbers : Option ℕ → Option ℕ → Bool
equal_numbers (some a) (some b) = a == b
equal_numbers _ _ = false

equal_values : AttributeValue → AttributeValue → Bool
unfolding equal_numbers
equal_values (s a) (s b) = str_eq a b
equal_values (n a) (n b) = equal_numbers (parse_int a) (parse_int b)
equal_values _ _ = false

equals : Option AttributeValue → AttributeValue → Bool
unfolding equal_values
equals none v = false
equals (some u) v = equal_values u v

-- A comparison with an attribute that is missing is false.
unfoldable pub holds : Condition → Option Item → Bool
unfolding attribute equals
holds (attribute_not_exists name) row = is_none (attribute row name)
holds (equal name v) row = equals (attribute row name) v
holds (both a b) row = holds a row && holds b row

pub apply_clause : Clause → Item → Item
apply_clause (set_name name v) item = GoMap.put item name v
apply_clause (remove_name name) item = GoMap.delete item name

unfoldable pub apply_clauses : List Clause → Item → Item
unfolding apply_clause
apply_clauses [] item = item
apply_clauses (u ∷ us) item = apply_clauses us (apply_clause u item)

-- The same value, up to the order of a set.
pub data SameAttr (x y : Option AttributeValue) : Type 0 where
  same : x ≡ y → SameAttr x y
  reordered : (a b : List Str) → x ≡ some (ss a) → y ≡ some (ss b) → Perm a b → SameAttr x y

abbrev pub SameItem : Item → Item → Type 0
SameItem a b = (name : Str) → SameAttr (GoMap.get a name) (GoMap.get b name)

-- A row whose counter is an int64.
abbrev pub HasCounter : Option Item → Type 0
HasCounter none = Unit
HasCounter (some item) =
    (v : Str) × (k : ℕ) × (GoMap.get item attr_lease_counter ≡ some (n v)) × (parse_int v ≡ some k)

-- The row before and after a conditional write that puts `new`, with the reply and its attributes.
pub data Wrote (cond : Condition) (old after : Option Item) (new : Item) : Reply Item → Type 0 where
  wrote :
      (attributes item : Item)
      → holds cond old ≡ true
      → after ≡ some item
      → SameItem item new
      → SameItem attributes new
      → Wrote cond old after new (answer attributes)
  refused : holds cond old ≡ false → after ≡ old → Wrote cond old after new (failed check_failed)
  broke :
      (e : CallError)
      → e ≢ check_failed
      → (after ≡ old)
        ⊎ ((holds cond old ≡ true) × (item : Item) × (after ≡ some item) × SameItem item new)
      → Wrote cond old after new (failed e)

pub data Removed (cond : Condition) (old after : Option Item) : Reply (Unit {0}) → Type 0 where
  removed : holds cond old ≡ true → after ≡ none → Removed cond old after (answer tt)
  kept : holds cond old ≡ false → after ≡ old → Removed cond old after (failed check_failed)
  broke :
      (e : CallError)
      → e ≢ check_failed
      → (after ≡ old) ⊎ ((holds cond old ≡ true) × (after ≡ none))
      → Removed cond old after (failed e)

-- A consistent read of a row; a missing row has no attributes.
pub data WasRead (row : Option Item) : Reply Item → Type 0 where
  found : (item : Item) → row ≡ some item → WasRead row (answer item)
  missing : row ≡ none → WasRead row (answer [])
  broke : (e : CallError) → e ≢ check_failed → WasRead row (failed e)

-- The item that an update of a key starts from.
abbrev pub base_item : Str → Option Item → Item
base_item key none = lease_key key
base_item key (some item) = item

-- PutItem's reply carries nothing.
abbrev pub with_item : Item → Reply (Unit {0}) → Reply Item
with_item item (answer _) = answer item
with_item item (failed e) = failed e

-- `row w k` is the row of the key `k` in the table.
pub record IsDynamodb {W : Type 0} (c : Client W) (row : W → Str → Option Item) : Type 0 where
  pub on_build : (us : List Clause) (cond : Condition) → c.builds us cond ≡ true
  pub on_get :
      (k : Str) (w : W)
      → WasRead (row w k) (c.get_item (lease_key k) w).0
        × ((j : Str) → row (c.get_item (lease_key k) w).1 j ≡ row w j)
  pub on_put :
      (k : Str) (item : Item) (cond : Condition) (w : W)
      → GoMap.get item attr_lease_key ≡ some (s k)
      → HasCounter (row w k)
      → Wrote cond
          (row w k)
          (row (c.put_item item cond w).1 k)
          item
          (with_item item (c.put_item item cond w).0)
        × ((j : Str) → j ≢ k → row (c.put_item item cond w).1 j ≡ row w j)
  pub on_update :
      (k : Str) (us : List Clause) (cond : Condition) (w : W)
      → HasCounter (row w k)
      → Wrote cond
          (row w k)
          (row (c.update_item (lease_key k) us cond w).1 k)
          (apply_clauses us (base_item k (row w k)))
          (c.update_item (lease_key k) us cond w).0
        × ((j : Str) → j ≢ k → row (c.update_item (lease_key k) us cond w).1 j ≡ row w j)
  pub on_delete :
      (k : Str) (cond : Condition) (w : W)
      → HasCounter (row w k)
      → Removed cond
          (row w k)
          (row (c.delete_item (lease_key k) cond w).1 k)
          (c.delete_item (lease_key k) cond w).0
        × ((j : Str) → j ≢ k → row (c.delete_item (lease_key k) cond w).1 j ≡ row w j)
