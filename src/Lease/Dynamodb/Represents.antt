-- ===== src/Lease/Dynamodb/Represents.antt =====
-- internal/lease/dynamodb.go: which items stand for a lease, and what its conditions and its updates
-- mean for the lease.
use mathlib.Core.List.Perm
use opentelemetry_kinesis_st.Base.{
  ℕ, ◌<◌, ◌≡◌, ◌≢◌, ◌∙◌, refl, sym, ap, subst, inl, inr, ◌&&◌, List, [], ◌∷◌, Option, none, some,
  Str, str_eq, str_eq_iff, str_eq-false, ◌==◌, if◌then◌else◌, Perm, arith, Bool-cases,
}
use opentelemetry_kinesis_st.Base.Decimal.{
  word_mod, format_int, parse_int, parse_int-format_int, parse_int-lt,
}
use opentelemetry_kinesis_st.Base.GoMap
use opentelemetry_kinesis_st.Base.GoMap.{get-put, get-delete}
use opentelemetry_kinesis_st.Lease.{Lease}
use opentelemetry_kinesis_st.Lease.Dynamodb.{
  Condition, equal, both, counter_is, owner_counter_condition,
}
use opentelemetry_kinesis_st.Lease.Dynamodb.Rows.{
  AttributeValue, s, n, ss, Item, unmarshal_lease, marshal_lease, read_parents, attr_lease_key,
  attr_lease_owner, attr_lease_counter, attr_checkpoint, attr_parent_shard_id,
}
use opentelemetry_kinesis_st.Lease.Dynamodb.Service.{holds, SameAttr, same, reordered, SameItem}

-- The parents of a lease, as an attribute: a set in any order, or nothing.
pub data Parents (ps : List Str) (x : Option AttributeValue) : Type 0 where
  no_parents : ps ≡ [] → x ≡ none → Parents ps x
  listed : (a : List Str) → x ≡ some (ss a) → Perm a ps → Parents ps x

-- The item is a row of the lease; an owner that is empty has no attribute.
pub record IsRow (item : Item) (l : Lease) : Type 0 where
  pub key : GoMap.get item attr_lease_key ≡ some (s l.shard_id)
  pub owner :
      GoMap.get item attr_lease_owner ≡ (if str_eq l.owner [] then none else some (s l.owner))
  pub digits : Str
  pub counter : GoMap.get item attr_lease_counter ≡ some (n digits)
  pub number : parse_int digits ≡ some l.counter
  pub at : GoMap.get item attr_checkpoint ≡ some (s l.checkpoint)
  pub parents : Parents l.parent_ids (GoMap.get item attr_parent_shard_id)

-- The same lease, up to the order of its parents.
pub record SameLease (a b : Lease) : Type 0 where
  pub same_id : a.shard_id ≡ b.shard_id
  pub same_owner : a.owner ≡ b.owner
  pub same_counter : a.counter ≡ b.counter
  pub same_checkpoint : a.checkpoint ≡ b.checkpoint
  pub same_parents : Perm a.parent_ids b.parent_ids

counter-lt : (item : Item) (l : Lease) → IsRow item l → l.counter < word_mod
counter-lt item l r = parse_int-lt r.digits l.counter r.number

-- An attribute that is no set is the same value in the same item.
SameAttr-eq :
    (x y : Option AttributeValue) → SameAttr x y → ((b : List Str) → y ≢ some (ss b)) → x ≡ y
SameAttr-eq x y (same e) plain = e
SameAttr-eq x y (reordered a b ex ey p) plain = absurd (plain b ey)

Parents-SameAttr :
    (ps : List Str) (x y : Option AttributeValue) → SameAttr x y → Parents ps y → Parents ps x
Parents-SameAttr ps x y (same e) (no_parents h k) = no_parents h (e ∙ k)
Parents-SameAttr ps x y (same e) (listed a k p) = listed a (e ∙ k) p
Parents-SameAttr ps x y (reordered a b ex ey p) (no_parents h k) = absurd (cc)
Parents-SameAttr ps x y (reordered a b ex ey p) (listed d k q) =
    let e : b ≡ d = cc in listed a ex (Perm.trans p (rw e q))

SameAttr-some :
    (x y : Option AttributeValue) (v : AttributeValue)
    → SameAttr x y
    → y ≡ some v
    → ((b : List Str) → v ≢ ss b)
    → x ≡ some v
SameAttr-some x y v h e plain = SameAttr-eq x y h (λ b f. plain b (cc)) ∙ e

pub IsRow-SameItem : (a b : Item) (l : Lease) → SameItem a b → IsRow b l → IsRow a l
IsRow-SameItem a b l e r = record {
  key = SameAttr-some _ _ _ (e attr_lease_key) r.key (λ _ f. cc);
  owner = SameAttr-eq _ _ (e attr_lease_owner) (λ _ f. ground (arith, r.owner)) ∙ r.owner;
  digits = r.digits;
  counter = SameAttr-some _ _ _ (e attr_lease_counter) r.counter (λ _ f. cc);
  number = r.number;
  at = SameAttr-some _ _ _ (e attr_checkpoint) r.at (λ _ f. cc);
  parents = Parents-SameAttr l.parent_ids _ _ (e attr_parent_shard_id) r.parents;
}

-- The lease with the parents in the order of the item.
abbrev pub as_read : Item → Lease → Lease
as_read item l = record l { parent_ids = read_parents item }

read_parents-Perm :
    (item : Item) (ps : List Str)
    → Parents ps (GoMap.get item attr_parent_shard_id)
    → Perm (read_parents item) ps
unfolding read_parents
read_parents-Perm item ps (no_parents e k) = rw (k, e) (Perm.refl [])
read_parents-Perm item ps (listed a k p) = rw k p

pub as_read-SameLease : (item : Item) (l : Lease) → IsRow item l → SameLease (as_read item l) l
as_read-SameLease item l r = record {
  same_id = refl;
  same_owner = refl;
  same_counter = refl;
  same_checkpoint = refl;
  same_parents = read_parents-Perm item l.parent_ids r.parents;
}

pub unmarshal_lease-row :
    (item : Item) (l : Lease) → IsRow item l → unmarshal_lease item ≡ some (as_read item l)
unfolding unmarshal_lease
unmarshal_lease-row item l r = elim (Bool-cases (str_eq l.owner [])) [
  | inl free ↦
      rw (r.key, r.counter, r.number, r.at, r.owner, free, unmarshal_lease)
        (ap (λ o. some (record l { owner = o; parent_ids = read_parents item }))
          (sym ((str_eq_iff l.owner []).0 free)))
  | inr held ↦ rw (r.key, r.counter, r.number, r.at, r.owner, held, unmarshal_lease) refl
]

-- The counter's condition holds for the lease's counter only.
pub holds-counter_is :
    (item : Item) (l : Lease) (k : ℕ)
    → IsRow item l
    → k < word_mod
    → holds (counter_is k) (some item) ≡ (l.counter == k)
unfolding holds
holds-counter_is item l k r h = rw (r.counter, r.number, parse_int-format_int k h, holds) refl

holds-owner :
    (item : Item) (l : Lease) (o : Str)
    → IsRow item l
    → o ≢ []
    → holds (equal attr_lease_owner (s o)) (some item) ≡ str_eq l.owner o
unfolding holds
holds-owner item l o r h = elim (Bool-cases (str_eq l.owner [])) [
  | inl free ↦
      rw (r.owner, free, holds)
        (sym (str_eq-false l.owner o (λ e. h (sym e ∙ (str_eq_iff l.owner []).0 free))))
  | inr held ↦ rw (r.owner, held, holds) refl
]

holds-both :
    (a b : Condition) (row : Option Item) → holds (both a b) row ≡ (holds a row && holds b row)
unfolding holds
holds-both a b row = refl

pub holds-owner_counter :
    (item : Item) (l lease : Lease)
    → IsRow item l
    → lease.counter < word_mod
    → lease.owner ≢ []
    → holds (owner_counter_condition lease) (some item)
      ≡ (str_eq l.owner lease.owner && l.counter == lease.counter)
unfolding owner_counter_condition
holds-owner_counter item l lease r h o =
    rw
      (
        holds-both (equal attr_lease_owner (s lease.owner)) (counter_is lease.counter) (some item),
        holds-owner item l lease.owner r o,
        holds-counter_is item l lease.counter r h,
      )
      refl

module _ (item : Item) (l : Lease) (r : IsRow item l) where
  pub counter-IsRow :
      (k : ℕ)
      → k < word_mod
      → IsRow (GoMap.put item attr_lease_counter (n (format_int k))) (record l { counter = k })
  unfolding str_eq
  counter-IsRow k h = record {
    key = get-put item attr_lease_counter attr_lease_key (n (format_int k)) ∙ r.key;
    owner = get-put item attr_lease_counter attr_lease_owner (n (format_int k)) ∙ r.owner;
    digits = format_int k;
    counter = get-put item attr_lease_counter attr_lease_counter (n (format_int k));
    number = parse_int-format_int k h;
    at = get-put item attr_lease_counter attr_checkpoint (n (format_int k)) ∙ r.at;
    parents =
        subst (Parents l.parent_ids)
          (sym (get-put item attr_lease_counter attr_parent_shard_id (n (format_int k)))) r.parents;
  }

  pub owner-IsRow :
      (o : Str) → o ≢ [] → IsRow (GoMap.put item attr_lease_owner (s o)) (record l { owner = o })
  unfolding str_eq
  owner-IsRow o h = record {
    key = get-put item attr_lease_owner attr_lease_key (s o) ∙ r.key;
    owner = rw (str_eq-false o [] h) (get-put item attr_lease_owner attr_lease_owner (s o));
    digits = r.digits;
    counter = get-put item attr_lease_owner attr_lease_counter (s o) ∙ r.counter;
    number = r.number;
    at = get-put item attr_lease_owner attr_checkpoint (s o) ∙ r.at;
    parents =
        subst (Parents l.parent_ids)
          (sym (get-put item attr_lease_owner attr_parent_shard_id (s o))) r.parents;
  }

  pub no_owner-IsRow : IsRow (GoMap.delete item attr_lease_owner) (record l { owner = [] })
  unfolding str_eq
  no_owner-IsRow = record {
    key = get-delete item attr_lease_owner attr_lease_key ∙ r.key;
    owner = get-delete item attr_lease_owner attr_lease_owner;
    digits = r.digits;
    counter = get-delete item attr_lease_owner attr_lease_counter ∙ r.counter;
    number = r.number;
    at = get-delete item attr_lease_owner attr_checkpoint ∙ r.at;
    parents =
        subst (Parents l.parent_ids) (sym (get-delete item attr_lease_owner attr_parent_shard_id))
          r.parents;
  }

  pub checkpoint-IsRow :
      (seq : Str) → IsRow (GoMap.put item attr_checkpoint (s seq)) (record l { checkpoint = seq })
  unfolding str_eq
  checkpoint-IsRow seq = record {
    key = get-put item attr_checkpoint attr_lease_key (s seq) ∙ r.key;
    owner = get-put item attr_checkpoint attr_lease_owner (s seq) ∙ r.owner;
    digits = r.digits;
    counter = get-put item attr_checkpoint attr_lease_counter (s seq) ∙ r.counter;
    number = r.number;
    at = get-put item attr_checkpoint attr_checkpoint (s seq);
    parents =
        subst (Parents l.parent_ids)
          (sym (get-put item attr_checkpoint attr_parent_shard_id (s seq))) r.parents;
  }

  parents-IsRow :
      (ps : List Str)
      → IsRow (GoMap.put item attr_parent_shard_id (ss ps)) (record l { parent_ids = ps })
  unfolding str_eq
  parents-IsRow ps = record {
    key = get-put item attr_parent_shard_id attr_lease_key (ss ps) ∙ r.key;
    owner = get-put item attr_parent_shard_id attr_lease_owner (ss ps) ∙ r.owner;
    digits = r.digits;
    counter = get-put item attr_parent_shard_id attr_lease_counter (ss ps) ∙ r.counter;
    number = r.number;
    at = get-put item attr_parent_shard_id attr_checkpoint (ss ps) ∙ r.at;
    parents =
        listed ps (get-put item attr_parent_shard_id attr_parent_shard_id (ss ps)) (Perm.refl ps);
  }

-- The attributes that every item has.
bare-IsRow :
    (id at : Str) (k : ℕ)
    → k < word_mod
    → IsRow
        ((attr_lease_key, s id)
          ∷ (attr_lease_counter, n (format_int k))
          ∷ (attr_checkpoint, s at)
          ∷ [])
        (record { shard_id = id; owner = []; counter = k; checkpoint = at; parent_ids = [] })
unfolding GoMap.get str_eq
bare-IsRow id at k h = record {
  key = refl;
  owner = refl;
  digits = format_int k;
  counter = refl;
  number = parse_int-format_int k h;
  at = refl;
  parents = no_parents refl refl;
}

attributes-IsRow :
    (id owner at : Str) (k : ℕ) (ps : List Str)
    → k < word_mod
    → let l : Lease = record {
      shard_id = id;
      owner = owner;
      counter = k;
      checkpoint = at;
      parent_ids = ps;
    } in
      IsRow (marshal_lease l) l
unfolding marshal_lease str_eq
attributes-IsRow id [] at k [] h = bare-IsRow id at k h
attributes-IsRow id [] at k (p ∷ ps) h = parents-IsRow _ _ (bare-IsRow id at k h) (p ∷ ps)
attributes-IsRow id (x ∷ xs) at k [] h = owner-IsRow _ _ (bare-IsRow id at k h) (x ∷ xs) (cc)
attributes-IsRow id (x ∷ xs) at k (p ∷ ps) h =
    parents-IsRow _ _ (owner-IsRow _ _ (bare-IsRow id at k h) (x ∷ xs) (cc)) (p ∷ ps)

pub marshal_lease-IsRow : (l : Lease) → l.counter < word_mod → IsRow (marshal_lease l) l
marshal_lease-IsRow l h = attributes-IsRow l.shard_id l.owner l.checkpoint l.counter l.parent_ids h
