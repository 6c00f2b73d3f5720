-- ===== src/Lease/Dynamodb/RoundTrip.antt =====
-- internal/lease/dynamodb.go: what marshalLease writes is what unmarshalLease reads.
use opentelemetry_kinesis_st.Base.{
  ℕ, ◌<◌, ◌≡◌, ◌≢◌, refl, ap, ◌∙◌, List, [], ◌∷◌, ◌++◌, some, Str, str_eq, arith, All,
}
use opentelemetry_kinesis_st.Base.Decimal.{word_mod, parse_int-format_int}
use opentelemetry_kinesis_st.Base.GoMap
use opentelemetry_kinesis_st.Lease.{Lease}
use opentelemetry_kinesis_st.Lease.Dynamodb.Rows.{
  Item, s, marshal_lease, unmarshal_lease, read_parents, split, attr_parent_shard_id,
  parent_separator,
}

-- By what the optional attributes hold.
round_trip :
    (id owner at : Str) (counter : ℕ) (parents : List Str)
    → counter < word_mod
    → let l : Lease = record {
      shard_id = id;
      owner = owner;
      counter = counter;
      checkpoint = at;
      parent_ids = parents;
    } in
      unmarshal_lease (marshal_lease l) ≡ some l
unfolding unmarshal_lease marshal_lease GoMap.put GoMap.delete GoMap.get str_eq
round_trip id [] at counter [] h = rw (parse_int-format_int counter h, unmarshal_lease)
round_trip id [] at counter (p ∷ ps) h = rw (parse_int-format_int counter h, unmarshal_lease)
round_trip id (x ∷ xs) at counter [] h = rw (parse_int-format_int counter h, unmarshal_lease)
round_trip id (x ∷ xs) at counter (p ∷ ps) h = rw (parse_int-format_int counter h, unmarshal_lease)

-- A lease whose counter is an int64 comes back from its item.
pub unmarshal_lease-marshal_lease :
    (l : Lease) → l.counter < word_mod → unmarshal_lease (marshal_lease l) ≡ some l
unmarshal_lease-marshal_lease l h =
    round_trip l.shard_id l.owner l.checkpoint l.counter l.parent_ids h

-- The parents as earlier versions of the store wrote them.
pub join : List Str → Str
join [] = []
join (p ∷ []) = p
join (p ∷ (q ∷ ps)) = p ++ parent_separator ∷ join (q ∷ ps)

-- No byte of the string is the separator.
abbrev pub IsPart : Str → Type 0
IsPart = All (λ c. c ≢ parent_separator)

split-part : (p : Str) → IsPart p → split p ≡ p ∷ []
unfolding split
split-part [] h = refl
split-part (c ∷ p) h = rw (split-part p h.1) (ground arith)

split-append : (p rest : Str) → IsPart p → split (p ++ parent_separator ∷ rest) ≡ p ∷ split rest
unfolding split
split-append [] rest h = refl
split-append (c ∷ p) rest h = rw (split-append p rest h.1) (ground arith)

split-join : (p : Str) (ps : List Str) → All IsPart (p ∷ ps) → split (join (p ∷ ps)) ≡ p ∷ ps
unfolding join
split-join p [] h = split-part p h.0
split-join p (q ∷ ps) h = split-append p (join (q ∷ ps)) h.0 ∙ ap (λ r. p ∷ r) (split-join q ps h.1)

split_nonempty :
    (c : ℕ) (v : Str) (m : Item)
    → GoMap.get m attr_parent_shard_id ≡ some (s (c ∷ v))
    → read_parents m ≡ split (c ∷ v)
unfolding read_parents str_eq
split_nonempty c v m h = rw h refl

-- A row of an earlier version, whose parents stand in one string with commas between them, is read
-- as the same parents, if no name holds a comma and the first is not empty.
pub read_parents-join :
    (m : Item) (c : ℕ) (p : Str) (ps : List Str)
    → GoMap.get m attr_parent_shard_id ≡ some (s (join ((c ∷ p) ∷ ps)))
    → All IsPart ((c ∷ p) ∷ ps)
    → read_parents m ≡ (c ∷ p) ∷ ps
unfolding join
read_parents-join m c p [] h parts = split_nonempty c p m h ∙ split-join (c ∷ p) [] parts
read_parents-join m c p (q ∷ ps) h parts =
    split_nonempty c _ m h ∙ split-join (c ∷ p) (q ∷ ps) parts
