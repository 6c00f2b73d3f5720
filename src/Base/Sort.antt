-- ===== src/Base/Sort.antt =====
-- `sort.Strings`: the ascending rearrangement. The library promises no algorithm; insertion sort
-- computes its result.
use mathlib.Core.Path.{◌≡◌, refl}
use mathlib.Core.Bool.{true}
use mathlib.Core.List.{List, [], ◌∷◌, Perm, Memᴰ}
use mathlib.Core.List.Memᴰ
use mathlib.Core.List.Perm
use mathlib.Core.Logic.{inl, inr}
use native.Mathlib.Omega.{arith}
use Prim.Native.Nat.{suc}
use opentelemetry_kinesis_st.Base.Tests.{if◌then◌else◌, Bool-cases}
use opentelemetry_kinesis_st.Base.Strings.{Str, str_le, str_le_total, str_le_trans}
use opentelemetry_kinesis_st.Base.Lists.{length, All}

insert : Str → List Str → List Str
insert a [] = a ∷ []
insert a (x ∷ xs) = if str_le a x then a ∷ x ∷ xs else x ∷ insert a xs

unfoldable pub sort : List Str → List Str
unfolding insert
sort [] = []
sort (x ∷ xs) = insert x (sort xs)

-- Ascending.
abbrev pub IsSorted : List Str → Type 0
IsSorted [] = Unit
IsSorted (x ∷ xs) = All (λ y. str_le x y ≡ true) xs × IsSorted xs

insert-perm : (a : Str) (xs : List Str) → Perm (insert a xs) (a ∷ xs)
unfolding insert
insert-perm a [] = Perm.refl _
insert-perm a (x ∷ xs) = elim (Bool-cases (str_le a x)) [
  | inl e ↦ rw e (Perm.refl _)
  | inr e ↦ rw e (Perm.trans (Perm.cons x (insert-perm a xs)) (Perm.swap a x xs))
]

pub sort-perm : (xs : List Str) → Perm (sort xs) xs
unfolding sort
sort-perm [] = Perm.refl []
sort-perm (x ∷ xs) = Perm.trans (insert-perm x (sort xs)) (Perm.cons x (sort-perm xs))

All-le_trans :
    (a x : Str) (xs : List Str)
    → str_le a x ≡ true
    → All (λ y. str_le x y ≡ true) xs
    → All (λ y. str_le a y ≡ true) xs
All-le_trans a x [] h b = tt
All-le_trans a x (y ∷ ys) h b = (str_le_trans a x y h b.0, All-le_trans a x ys h b.1)

All-insert :
    (x a : Str) (xs : List Str)
    → str_le x a ≡ true
    → All (λ y. str_le x y ≡ true) xs
    → All (λ y. str_le x y ≡ true) (insert a xs)
unfolding insert
All-insert x a [] h b = (h, tt)
All-insert x a (y ∷ ys) h b = elim (Bool-cases (str_le a y)) [
  | inl e ↦ rw e (h, b)
  | inr e ↦ rw e (b.0, All-insert x a ys h b.1)
]

insert-IsSorted : (a : Str) (xs : List Str) → IsSorted xs → IsSorted (insert a xs)
unfolding insert
insert-IsSorted a [] s = (tt, tt)
insert-IsSorted a (x ∷ xs) s = elim (Bool-cases (str_le a x)) [
  | inl e ↦ rw e ((e, All-le_trans a x xs e s.0), s)
  | inr e ↦
      let h : str_le x a ≡ true = ground (arith, str_le_total x a) in
      rw e (All-insert x a xs h s.0, insert-IsSorted a xs s.1)
]

pub sort-IsSorted : (xs : List Str) → IsSorted (sort xs)
unfolding sort
sort-IsSorted [] = tt
sort-IsSorted (x ∷ xs) = insert-IsSorted x (sort xs) (sort-IsSorted xs)

of_mem_insert : (b a : Str) (xs : List Str) → Memᴰ b (insert a xs) → Memᴰ b (a ∷ xs)
unfolding insert
of_mem_insert b a [] m = m
of_mem_insert b a (x ∷ xs) m = elim (Bool-cases (str_le a x)) [
  | inl e ↦ rw e at m
  | inr e ↦ elim (Memᴰ.cases_cons (rw e at m)) [
    | inl h ↦ Memᴰ.tail (Memᴰ.head h)
    | inr t ↦ elim (Memᴰ.cases_cons (of_mem_insert b a xs t)) [
      | inl h ↦ Memᴰ.head h
      | inr u ↦ Memᴰ.tail (Memᴰ.tail u)
    ]
  ]
]

-- Sorting adds no entry.
pub of_mem_sort : (b : Str) (xs : List Str) → Memᴰ b (sort xs) → Memᴰ b xs
unfolding sort
of_mem_sort b [] m = m
of_mem_sort b (x ∷ xs) m = elim (Memᴰ.cases_cons (of_mem_insert b x (sort xs) m)) [
  | inl h ↦ Memᴰ.head h
  | inr t ↦ Memᴰ.tail (of_mem_sort b xs t)
]

length-insert : (a : Str) (xs : List Str) → length (insert a xs) ≡ suc (length xs)
unfolding insert
length-insert a [] = refl
length-insert a (x ∷ xs) = ground (arith, length-insert a xs)

pub length-sort : (xs : List Str) → length (sort xs) ≡ length xs
unfolding sort
length-sort [] = refl
length-sort (x ∷ xs) = omega (arith, length-insert x (sort xs), length-sort xs)

mem_insert : (b a : Str) (xs : List Str) → Memᴰ b (a ∷ xs) → Memᴰ b (insert a xs)
unfolding insert
mem_insert b a [] m = m
mem_insert b a (x ∷ xs) m = elim (Bool-cases (str_le a x)) [
  | inl e ↦ rw e m
  | inr e ↦ rw e (elim (Memᴰ.cases_cons m) [
    | inl h ↦ Memᴰ.tail (mem_insert b a xs (Memᴰ.head h))
    | inr t ↦ elim (Memᴰ.cases_cons t) [
      | inl h ↦ Memᴰ.head h
      | inr u ↦ Memᴰ.tail (mem_insert b a xs (Memᴰ.tail u))
    ]
  ])
]

-- Sorting loses no entry.
pub mem_sort : (b : Str) (xs : List Str) → Memᴰ b xs → Memᴰ b (sort xs)
unfolding sort
mem_sort b [] m = m
mem_sort b (x ∷ xs) m =
    mem_insert b x (sort xs)
      (elim (Memᴰ.cases_cons m) [ inl h ↦ Memᴰ.head h | inr t ↦ Memᴰ.tail (mem_sort b xs t) ])
