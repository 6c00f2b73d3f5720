-- ===== src/Lease/Dynamodb/Refines/Lifetime.antt =====
-- internal/lease/dynamodb.go against internal/lease/memory.go: rows that are created and deleted.
use opentelemetry_kinesis_st.Base.{
  ℕ, ◌<◌, ◌≡◌, ◌≢◌, ◌∙◌, refl, sym, inl, inr, Bool, true, false, ◌==◌, List, [], Option-cases,
  Option, none, some, Str, arith, is_none, is_empty,
}
use opentelemetry_kinesis_st.Base.Decimal.{word_mod}
use opentelemetry_kinesis_st.Base.GoMap
use opentelemetry_kinesis_st.Lease.{Lease, ok, err, lease_conflict}
use opentelemetry_kinesis_st.Lease.Memory
use opentelemetry_kinesis_st.Lease.Memory.{MemoryStore, fresh_lease}
use opentelemetry_kinesis_st.Lease.Memory.Fencing.{ensures, deletes}
use opentelemetry_kinesis_st.Lease.Dynamodb
use opentelemetry_kinesis_st.Lease.Dynamodb.{
  Client, Condition, attribute_not_exists, counter_is, CallError, check_failed, ctx_ended,
  service_error, Reply, answer, failed, ensure_of, delete_reply, done_or_conflict, row_exists,
  as_error, is_conditional_check_failed,
}
use opentelemetry_kinesis_st.Lease.Dynamodb.Rows.{Item, marshal_lease, attr_lease_key}
use opentelemetry_kinesis_st.Lease.Dynamodb.Service.{
  IsDynamodb, holds, Wrote, wrote, refused, Removed, removed, kept, with_item,
}
use opentelemetry_kinesis_st.Lease.Dynamodb.Represents.{
  IsRow, IsRow-SameItem, holds-counter_is, marshal_lease-IsRow,
}
use opentelemetry_kinesis_st.Lease.Dynamodb.Updates.{
  Shows, no_row, row_of, Shows-HasCounter, IsRow-nonempty, there, gone, unread, other_error,
  row_exists-Existence, row_exists_keeps,
}
use opentelemetry_kinesis_st.Lease.Dynamodb.Refines.{
  perform, in_memory, unit, Represents, Refines, agrees, fails, equal, unit_failed, Represents-same,
  Represents-put, Represents-delete,
}

-- The condition of Ensure on a row.
abbrev no_key : Condition
no_key = attribute_not_exists attr_lease_key

holds-no_key : (x : Option Item) (y : Option Lease) → Shows x y → holds no_key x ≡ is_none y
unfolding holds
holds-no_key x y (no_row e f) = rw (e, f, holds) refl
holds-no_key x y (row_of item l e f r) = rw (e, f, r.key, holds) refl

module _ (m : MemoryStore) (k : Str) (ps : List Str) where
  ensure_new :
      is_none (GoMap.get m.leases k) ≡ true
      → Memory.ensure k ps m ≡ (ok tt, record { leases = GoMap.put m.leases k (fresh_lease k ps) })
  unfolding Memory.ensure
  ensure_new h = elim (Option-cases (GoMap.get m.leases k)) [
    | inl e ↦ rw (e, Memory.ensure) refl
    | inr (l, e) ↦ absurd (cc (rw e at h))
  ]

  ensure_old : is_none (GoMap.get m.leases k) ≡ false → Memory.ensure k ps m ≡ (ok tt, m)
  unfolding Memory.ensure
  ensure_old h = elim (Option-cases (GoMap.get m.leases k)) [
    | inl e ↦ absurd (cc (rw e at h))
    | inr (l, e) ↦ rw (e, Memory.ensure) refl
  ]

-- Delete in memory, by whether the row passes the test of its counter.
passes : ℕ → Option Lease → Bool
passes count none = false
passes count (some l) = l.counter == count

holds-passes :
    (count : ℕ) (x : Option Item) (y : Option Lease)
    → Shows x y
    → count < word_mod
    → holds (counter_is count) x ≡ passes count y
unfolding holds passes
holds-passes count x y (no_row e f) h = rw (e, f, passes, holds) refl
holds-passes count x y (row_of item l e f r) h =
    rw (f, passes) (rw e (holds-counter_is item l count r h))

module _ (m : MemoryStore) (k : Str) (count : ℕ) where
  delete_passed :
      passes count (GoMap.get m.leases k) ≡ true
      → Memory.delete k count m ≡ (ok tt, record { leases = GoMap.delete m.leases k })
  unfolding Memory.delete passes
  delete_passed h = elim (Option-cases (GoMap.get m.leases k)) [
    | inl e ↦ absurd (cc (rw e at h))
    | inr (l, e) ↦ rw (e, Memory.delete) (rw (rw e at h) refl)
  ]

  delete_gone : GoMap.get m.leases k ≡ none → Memory.delete k count m ≡ (ok tt, m)
  unfolding Memory.delete
  delete_gone e = rw (e, Memory.delete) refl

  delete_conflict :
      (l : Lease)
      → GoMap.get m.leases k ≡ some l
      → passes count (GoMap.get m.leases k) ≡ false
      → Memory.delete k count m ≡ (err lease_conflict, m)
  unfolding Memory.delete passes
  delete_conflict l e h = rw (e, Memory.delete) (rw (rw e at h) refl)

module _ {W : Type 0} (c : Client W) (row : W → Str → Option Item) (db : IsDynamodb c row) (w : W)
    (m : MemoryStore) (rep : Represents row w m) where
  module _ (k : Str) (ps : List Str) (w' : W)
      (others : (j : Str) → j ≢ k → row w' j ≡ row w j) where
    new_row :
        (item : Item)
        → row w' k ≡ some item
        → IsRow item (fresh_lease k ps)
        → Represents row w' (record { leases = GoMap.put m.leases k (fresh_lease k ps) })
    new_row item e r =
        Represents-put row m rep k others (fresh_lease k ps)
          (row_of item (fresh_lease k ps) e refl r)

    ensure_of-Refines :
        (r : Reply (Unit {0}))
        → Wrote no_key
            (row w k)
            (row w' k)
            (marshal_lease (fresh_lease k ps))
            (with_item (marshal_lease (fresh_lease k ps)) r)
        → Refines row m
            (Memory.ensure k ps m).1
            (unit (ensure_of r))
            (unit (Memory.ensure k ps m).0)
            w'
    unfolding ensure_of is_conditional_check_failed
    ensure_of-Refines (answer x) (wrote a item h e f g) =
        rw (ensure_new m k ps (sym (holds-no_key _ _ (rep k)) ∙ h)) (
          agrees (equal refl) (
            new_row item e
              (IsRow-SameItem item _ _ f (marshal_lease-IsRow (fresh_lease k ps) (omega arith)))))
    ensure_of-Refines (failed check_failed) (refused h f) =
        rw (ensure_old m k ps (sym (holds-no_key _ _ (rep k)) ∙ h))
          (agrees (equal refl) (Represents-same row m rep k others (rw f (rep k))))
    ensure_of-Refines (failed e) (Wrote.broke e' ne (inl f)) =
        rw (other_error e ne)
          (fails (unit_failed e ne refl) (inl (Represents-same row m rep k others (rw f (rep k)))))
    ensure_of-Refines (failed e) (Wrote.broke e' ne (inr (h, item, f, g))) =
        rw (other_error e ne, ensure_new m k ps (sym (holds-no_key _ _ (rep k)) ∙ h))
          (fails (unit_failed e ne refl) (
            inr (
              new_row item f (
                IsRow-SameItem item _ _ g (marshal_lease-IsRow (fresh_lease k ps) (omega arith))))))

  pub ensure-Refines :
      (k : Str) (ps : List Str)
      → Refines row m
          (in_memory (ensures k ps) m).1
          (perform c (ensures k ps) w).0
          (in_memory (ensures k ps) m).0
          (perform c (ensures k ps) w).1
  unfolding perform in_memory Dynamodb.ensure
  ensure-Refines k ps =
      let u =
        db.on_put k (marshal_lease (fresh_lease k ps)) no_key w
          (marshal_lease-IsRow (fresh_lease k ps) (omega arith)).key
          (Shows-HasCounter _ _ (rep k)) in
      rw (db.on_build [] no_key) (ensure_of-Refines k ps _ u.1 _ u.0)

  module _ (k : Str) (count : ℕ) (fits : count < word_mod) (w' : W)
      (others : (j : Str) → j ≢ k → row w' j ≡ row w j) where
    still_Represents : row w' k ≡ row w k → Represents row (row_exists c k w').1 m
    still_Represents e j =
        rw (row_exists_keeps c row db k j w') (Represents-same row m rep k others (rw e (rep k)) j)

    -- After a failed condition the follow-up read tells a row that is gone from a conflict.
    kept-Refines :
        Shows (row w k) (GoMap.get m.leases k)
        → holds (counter_is count) (row w k) ≡ false
        → row w' k ≡ row w k
        → Refines row m
            (Memory.delete k count m).1
            (unit (delete_reply c k (failed check_failed) w').0)
            (unit (Memory.delete k count m).0)
            (delete_reply c k (failed check_failed) w').1
    unfolding delete_reply is_conditional_check_failed
    kept-Refines (no_row n o) h e =
        let still = still_Represents e in
        elim (row_exists-Existence c row db k w') [
          | there item f g ↦ absurd (cc (sym f ∙ e ∙ n))
          | gone f g ↦
              rw (g, done_or_conflict) (rw (delete_gone m k count o) (agrees (equal refl) still))
          | unread e' ne g ↦ rw (g, done_or_conflict) (fails (unit_failed e' ne refl) (inl still))
        ]
    kept-Refines (row_of item l n o r) h e =
        let still = still_Represents e in
        let lost : passes count (GoMap.get m.leases k) ≡ false =
          sym (holds-passes count _ _ (rep k) fits) ∙ h in
        elim (row_exists-Existence c row db k w') [
          | there it f g ↦
              let same : it ≡ item = cc (sym f ∙ e ∙ n) in
              let present : is_empty it ≡ false = rw same (IsRow-nonempty item l r) in
              rw (g, present, done_or_conflict)
                (rw (delete_conflict m k count l o lost) (agrees (equal refl) still))
          | gone f g ↦ absurd (cc (sym f ∙ e ∙ n))
          | unread e' ne g ↦ rw (g, done_or_conflict) (fails (unit_failed e' ne refl) (inl still))
        ]

    delete_reply-Refines :
        (r : Reply (Unit {0}))
        → Removed (counter_is count) (row w k) (row w' k) r
        → Refines row m
            (Memory.delete k count m).1
            (unit (delete_reply c k r w').0)
            (unit (Memory.delete k count m).0)
            (delete_reply c k r w').1
    unfolding delete_reply
    delete_reply-Refines (answer tt) (removed h e) =
        rw (delete_passed m k count (sym (holds-passes count _ _ (rep k) fits) ∙ h))
          (agrees (equal refl) (Represents-delete row m rep k others (no_row e refl)))
    delete_reply-Refines (failed check_failed) (kept h e) = kept-Refines (rep k) h e
    delete_reply-Refines (failed e) (Removed.broke e' ne (inl f)) =
        rw (other_error e ne, delete_reply)
          (fails (unit_failed e ne refl) (inl (Represents-same row m rep k others (rw f (rep k)))))
    delete_reply-Refines (failed e) (Removed.broke e' ne (inr (h, f))) =
        rw
          (
            other_error e ne,
            delete_reply,
            delete_passed m k count (sym (holds-passes count _ _ (rep k) fits) ∙ h),
          )
          (fails (unit_failed e ne refl)
            (inr (Represents-delete row m rep k others (no_row f refl))))

  pub delete-Refines :
      (k : Str) (count : ℕ)
      → count < word_mod
      → Refines row m
          (in_memory (deletes k count) m).1
          (perform c (deletes k count) w).0
          (in_memory (deletes k count) m).0
          (perform c (deletes k count) w).1
  unfolding perform in_memory Dynamodb.delete
  delete-Refines k count h =
      let u = db.on_delete k (counter_is count) w (Shows-HasCounter _ _ (rep k)) in
      rw (db.on_build [] (counter_is count)) (delete_reply-Refines k count h _ u.1 _ u.0)
