-- ===== src/Lease/Dynamodb/Updates.antt =====
-- internal/lease/dynamodb.go: what the calls do to a row that stands for a lease.
use opentelemetry_kinesis_st.Base.{
  ◌≡◌, ◌≢◌, ◌∙◌, ◌⊎◌, refl, sym, inl, inr, Bool, true, false, not, List, [], ◌∷◌, Option-cases,
  Option, none, some, Str, is_empty,
}
use opentelemetry_kinesis_st.Base.GoMap
use opentelemetry_kinesis_st.Lease.{Lease, Result, ok, err, lease_conflict, lease_not_found}
use opentelemetry_kinesis_st.Lease.Dynamodb.{
  Client, Condition, Clause, CallError, check_failed, ctx_ended, service_error, Reply, answer,
  failed, row_exists, exists_of, missing_or_conflict, update, update_reply, as_error,
  is_conditional_check_failed,
}
use opentelemetry_kinesis_st.Lease.Dynamodb.Rows.{Item, unmarshal_lease}
use opentelemetry_kinesis_st.Lease.Dynamodb.Service.{
  holds, apply_clauses, HasCounter, base_item, Wrote, wrote, refused, WasRead, found, missing,
  IsDynamodb,
}
use opentelemetry_kinesis_st.Lease.Dynamodb.Represents.{
  IsRow, SameLease, IsRow-SameItem, as_read, as_read-SameLease, unmarshal_lease-row,
}

-- The row of the table stands for the row of the store.
pub data Shows (x : Option Item) (y : Option Lease) : Type 0 where
  no_row : x ≡ none → y ≡ none → Shows x y
  row_of : (item : Item) (l : Lease) → x ≡ some item → y ≡ some l → IsRow item l → Shows x y

pub Shows-HasCounter : (x : Option Item) (y : Option Lease) → Shows x y → HasCounter x
Shows-HasCounter x y (no_row e f) = rw e tt
Shows-HasCounter x y (row_of item l e f r) = rw e (r.digits, l.counter, r.counter, r.number)

pub IsRow-nonempty : (item : Item) (l : Lease) → IsRow item l → is_empty item ≡ false
unfolding GoMap.get
IsRow-nonempty [] l r = absurd (cc (r.key))
IsRow-nonempty (x ∷ xs) l r = refl

-- What a conditional update of the row may come to.
pub data Updated (old : Option Lease) (test : Lease → Bool) (mutate : Lease → Lease)
    (r : Result Lease) (after : Option Item) : Type 0 where
  moved :
      (l l' : Lease)
      → old ≡ some l
      → test l ≡ true
      → r ≡ ok l'
      → SameLease l' (mutate l)
      → Shows after (some (mutate l))
      → Updated old test mutate r after
  conflict :
      (l : Lease)
      → old ≡ some l
      → test l ≡ false
      → r ≡ err lease_conflict
      → Shows after old
      → Updated old test mutate r after
  absent : old ≡ none → r ≡ err lease_not_found → Shows after old → Updated old test mutate r after
  broken :
      (e : CallError)
      → e ≢ check_failed
      → r ≡ err (as_error e)
      → Shows after old
        ⊎ ((l : Lease) × (old ≡ some l) × (test l ≡ true) × Shows after (some (mutate l)))
      → Updated old test mutate r after

-- What rowExists may come to.
pub data Existence (x : Option Item) (r : Result Bool) : Type 0 where
  there : (item : Item) → x ≡ some item → r ≡ ok (not (is_empty item)) → Existence x r
  gone : x ≡ none → r ≡ ok false → Existence x r
  unread : (e : CallError) → e ≢ check_failed → r ≡ err (as_error e) → Existence x r

WasRead-Existence : (x : Option Item) (r : Reply Item) → WasRead x r → Existence x (exists_of r)
unfolding exists_of
WasRead-Existence x r (found item e) = there item e refl
WasRead-Existence x r (missing e) = gone e refl
WasRead-Existence x r (WasRead.broke e ne) = unread e ne refl

pub other_error : (e : CallError) → e ≢ check_failed → is_conditional_check_failed e ≡ false
unfolding is_conditional_check_failed
other_error check_failed h = absurd (h refl)
other_error ctx_ended h = refl
other_error service_error h = refl

module _ {W : Type 0} (c : Client W) (row : W → Str → Option Item) (db : IsDynamodb c row) where
  pub row_exists-Existence : (k : Str) (w : W) → Existence (row w k) (row_exists c k w).0
  unfolding row_exists
  row_exists-Existence k w = WasRead-Existence (row w k) _ (db.on_get k w).0

  pub row_exists_keeps : (k j : Str) (w : W) → row (row_exists c k w).1 j ≡ row w j
  unfolding row_exists
  row_exists_keeps k j w = (db.on_get k w).1 j

  update_reply_keeps :
      (k j : Str) (r : Reply Item) (w : W) → row (update_reply c k r w).1 j ≡ row w j
  unfolding update_reply is_conditional_check_failed
  update_reply_keeps k j (answer attributes) w = elim (Option-cases (unmarshal_lease attributes)) [
    | inl e ↦ rw (e, update_reply) refl
    | inr (l, e) ↦ rw (e, update_reply) refl
  ]
  update_reply_keeps k j (failed check_failed) w = row_exists_keeps k j w
  update_reply_keeps k j (failed ctx_ended) w = refl
  update_reply_keeps k j (failed service_error) w = refl

  module _ (k : Str) (us : List Clause) (cond : Condition) (old : Option Lease)
      (test : Lease → Bool) (mutate : Lease → Lease)
      (tests : (item : Item) (l : Lease) → IsRow item l → holds cond (some item) ≡ test l)
      (no_create : holds cond none ≡ false)
      (mutates : (item : Item) (l : Lease)
        → IsRow item l
        → IsRow (apply_clauses us item) (mutate l)) where
    -- A condition that holds is that of a lease.
    held :
        (x : Option Item)
        → Shows x old
        → holds cond x ≡ true
        → (l : Lease) × (old ≡ some l)
          × (test l ≡ true)
          × IsRow (apply_clauses us (base_item k x)) (mutate l)
    held x (no_row e f) h = absurd (cc (rw e at h))
    held x (row_of item l e f r) h =
        (l, f, sym (tests item l r) ∙ rw e at h, rw e (mutates item l r))

    -- After a failed condition the follow-up read tells which.
    refused-Updated :
        (x : Option Item) (w : W) (sh : Shows x old)
        → holds cond x ≡ false
        → row w k ≡ x
        → Updated old test mutate
            (update_reply c k (failed check_failed) w).0
            (row (update_reply c k (failed check_failed) w).1 k)
    unfolding update_reply is_conditional_check_failed missing_or_conflict
    refused-Updated x w (no_row n o) h e =
        let shown : Shows (row (row_exists c k w).1 k) old =
          rw (row_exists_keeps k k w, e) (no_row n o) in
        elim (row_exists-Existence k w) [
          | there item f g ↦ absurd (cc (sym f ∙ e ∙ n))
          | gone f g ↦ absent o (rw (g, missing_or_conflict) refl) shown
          | unread e' ne g ↦ broken e' ne (rw (g, missing_or_conflict) refl) (inl shown)
        ]
    refused-Updated x w (row_of item l n o r) h e =
        let shown : Shows (row (row_exists c k w).1 k) old =
          rw (row_exists_keeps k k w, e) (row_of item l n o r) in
        elim (row_exists-Existence k w) [
          | there it f g ↦
              let same : it ≡ item = cc (sym f ∙ e ∙ n) in
              let present : is_empty it ≡ false = rw same (IsRow-nonempty item l r) in
              conflict l o (sym (tests item l r) ∙ rw n at h)
                (rw (g, present, missing_or_conflict) refl) shown
          | gone f g ↦ absurd (cc (sym f ∙ e ∙ n))
          | unread e' ne g ↦ broken e' ne (rw (g, missing_or_conflict) refl) (inl shown)
        ]

    update_reply-Updated :
        (x : Option Item) (r : Reply Item) (w : W)
        → Shows x old
        → Wrote cond x (row w k) (apply_clauses us (base_item k x)) r
        → Updated old test mutate (update_reply c k r w).0 (row (update_reply c k r w).1 k)
    unfolding update_reply
    update_reply-Updated x (answer b) w sh (wrote attributes item h e f g) =
        let (l, o, t, m) = held x sh h in
        let m' = IsRow-SameItem attributes _ (mutate l) g m in
        rw (unmarshal_lease-row attributes (mutate l) m', update_reply)
          (moved l (as_read attributes (mutate l)) o t refl
            (as_read-SameLease attributes (mutate l) m')
            (row_of item (mutate l) e refl (IsRow-SameItem item _ (mutate l) f m)))
    update_reply-Updated x r w sh (refused h e) = refused-Updated x w sh h e
    update_reply-Updated x r w sh (Wrote.broke e ne h) =
        rw (other_error e ne, update_reply)
          (broken e ne refl (elim h [
            | inl s ↦ inl (rw s sh)
            | inr (hc, item, e', f) ↦
                let (l, o, t, m) = held x sh hc in
                inr (l, o, t, row_of item (mutate l) e' refl (IsRow-SameItem item _ (mutate l) f m))
          ]))

    pub update-Updated :
        (w : W)
        → Shows (row w k) old
        → Updated old test mutate (update c k us cond w).0 (row (update c k us cond w).1 k)
          × ((j : Str) → j ≢ k → row (update c k us cond w).1 j ≡ row w j)
    unfolding update
    update-Updated w sh =
        let u = db.on_update k us cond w (Shows-HasCounter _ old sh) in
        rw (db.on_build us cond, update)
          (update_reply-Updated (row w k) _ _ sh u.0, λ j ne. update_reply_keeps k j _ _ ∙ u.1 j ne)
