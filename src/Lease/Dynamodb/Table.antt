-- ===== src/Lease/Dynamodb/Table.antt =====
-- A table in memory that behaves as DynamoDB documents, for the runs of Lease.Dynamodb.Samples.
use opentelemetry_kinesis_st.Base.{
  ◌≡◌, ◌≢◌, refl, inr, inl, true, List, [], Option, none, some, Str, str_eq, str_eq_iff,
  str_eq_refl, arith, if◌then◌else◌, Bool-cases,
}
use opentelemetry_kinesis_st.Base.GoMap
use opentelemetry_kinesis_st.Base.GoMap.{GoMap, get-put, get-delete}
use opentelemetry_kinesis_st.Lease.Dynamodb.{
  Client, Clause, Condition, Reply, answer, failed, check_failed,
}
use opentelemetry_kinesis_st.Lease.Dynamodb.Rows.{
  AttributeValue, s, Item, lease_key, attr_lease_key,
}
use opentelemetry_kinesis_st.Lease.Dynamodb.Service.{
  holds, apply_clauses, same, Wrote, wrote, refused, Removed, removed, kept, WasRead, found,
  missing, base_item, with_item, IsDynamodb,
}

abbrev pub Table : Type 0
Table = GoMap Item

key_of : Option AttributeValue → Str
key_of (some (s k)) = k
key_of _ = []

read : Option Item → Reply Item
read none = answer []
read (some item) = answer item

pub get_row : Item → Table → Reply Item × Table
unfolding read key_of
get_row key t = (read (GoMap.get t (key_of (GoMap.get key attr_lease_key))), t)

pub put_row : Item → Condition → Table → Reply (Unit {0}) × Table
unfolding key_of
put_row item cond t =
    let k = key_of (GoMap.get item attr_lease_key) in
    if holds cond (GoMap.get t k) then (answer tt, GoMap.put t k item) else (failed check_failed, t)

pub update_row : Item → List Clause → Condition → Table → Reply Item × Table
unfolding key_of
update_row key us cond t =
    let k = key_of (GoMap.get key attr_lease_key) in
    let new = apply_clauses us (base_item k (GoMap.get t k)) in
    if holds cond (GoMap.get t k) then (answer new, GoMap.put t k new) else (failed check_failed, t)

pub delete_row : Item → Condition → Table → Reply (Unit {0}) × Table
unfolding key_of
delete_row key cond t =
    let k = key_of (GoMap.get key attr_lease_key) in
    if holds cond (GoMap.get t k) then (answer tt, GoMap.delete t k) else (failed check_failed, t)

abbrev pub table_client : Client Table
table_client = record {
  builds = λ us cond. true;
  scan = λ k t. (answer (record { items = GoMap.values t; last_evaluated_key = [] }), t);
  get_item = get_row;
  put_item = put_row;
  update_item = update_row;
  delete_item = delete_row;
}

get-put_self : (t : Table) (k : Str) (item : Item) → GoMap.get (GoMap.put t k item) k ≡ some item
get-put_self t k item = ground (arith, get-put t k k item, str_eq_refl k)

get-put_other :
    (t : Table) (k j : Str) (item : Item) → j ≢ k → GoMap.get (GoMap.put t k item) j ≡ GoMap.get t j
get-put_other t k j item ne = ground (arith, get-put t k j item, str_eq_iff k j)

read-WasRead : (x : Option Item) → WasRead x (read x)
unfolding read
read-WasRead none = missing refl
read-WasRead (some item) = found item refl

put_row-Wrote :
    (k : Str) (item : Item) (cond : Condition) (t : Table)
    → GoMap.get item attr_lease_key ≡ some (s k)
    → Wrote cond
        (GoMap.get t k)
        (GoMap.get (put_row item cond t).1 k)
        item
        (with_item item (put_row item cond t).0)
      × ((j : Str) → j ≢ k → GoMap.get (put_row item cond t).1 j ≡ GoMap.get t j)
unfolding put_row
put_row-Wrote k item cond t e = elim (Bool-cases (holds cond (GoMap.get t k))) [
  | inl h ↦
      rw (e, h, put_row)
        (
          wrote item item h (get-put_self t k item) (λ _. same refl) (λ _. same refl),
          λ j. get-put_other t k j item,
        )
  | inr h ↦ rw (e, h, put_row) (refused h refl, λ j _. refl)
]

lease_key_key : (k : Str) → GoMap.get (lease_key k) attr_lease_key ≡ some (s k)
unfolding lease_key GoMap.get str_eq
lease_key_key k = refl

module _ (key : Item) (k : Str) (e : GoMap.get key attr_lease_key ≡ some (s k)) (t : Table) where
  get_row-WasRead :
      WasRead (GoMap.get t k) (get_row key t).0
      × ((j : Str) → GoMap.get (get_row key t).1 j ≡ GoMap.get t j)
  unfolding get_row
  get_row-WasRead = rw (e, get_row) (read-WasRead (GoMap.get t k), λ j. refl)

  update_row-Wrote :
      (us : List Clause) (cond : Condition)
      → Wrote cond
          (GoMap.get t k)
          (GoMap.get (update_row key us cond t).1 k)
          (apply_clauses us (base_item k (GoMap.get t k)))
          (update_row key us cond t).0
        × ((j : Str) → j ≢ k → GoMap.get (update_row key us cond t).1 j ≡ GoMap.get t j)
  unfolding update_row
  update_row-Wrote us cond =
      let new = apply_clauses us (base_item k (GoMap.get t k)) in
      elim (Bool-cases (holds cond (GoMap.get t k))) [
        | inl h ↦
            rw (e, h, update_row)
              (
                wrote new new h (get-put_self t k new) (λ _. same refl) (λ _. same refl),
                λ j. get-put_other t k j new,
              )
        | inr h ↦ rw (e, h, update_row) (refused h refl, λ j _. refl)
      ]

  delete_row-Removed :
      (cond : Condition)
      → Removed cond
          (GoMap.get t k)
          (GoMap.get (delete_row key cond t).1 k)
          (delete_row key cond t).0
        × ((j : Str) → j ≢ k → GoMap.get (delete_row key cond t).1 j ≡ GoMap.get t j)
  unfolding delete_row
  delete_row-Removed cond = elim (Bool-cases (holds cond (GoMap.get t k))) [
    | inl h ↦
        rw (e, h, delete_row)
          (
            removed h (ground (arith, get-delete t k k, str_eq_refl k)),
            λ j ne. ground (arith, get-delete t k j, str_eq_iff k j),
          )
    | inr h ↦ rw (e, h, delete_row) (kept h refl, λ j _. refl)
  ]

pub table_client-IsDynamodb : IsDynamodb table_client (λ t k. GoMap.get t k)
table_client-IsDynamodb = record {
  on_build = λ us cond. refl;
  on_get = λ k t. get_row-WasRead (lease_key k) k (lease_key_key k) t;
  on_put = λ k item cond t e _. put_row-Wrote k item cond t e;
  on_update = λ k us cond t _. update_row-Wrote (lease_key k) k (lease_key_key k) t us cond;
  on_delete = λ k cond t _. delete_row-Removed (lease_key k) k (lease_key_key k) t cond;
}
