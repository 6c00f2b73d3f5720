-- ===== src/Lease/Dynamodb/Listing.antt =====
-- internal/lease/dynamodb.go: List over the pages of a Scan.
use opentelemetry_kinesis_st.Base.{
  ℕ, zero, suc, ◌≤◌, ◌≡◌, refl, true, false, List, [], ◌∷◌, ◌++◌, Option, none, some, arith,
  is_empty, length,
}
use mathlib.Core.List.{append_assoc, append-nil}
use opentelemetry_kinesis_st.Lease.{Lease, ok}
use opentelemetry_kinesis_st.Lease.Dynamodb.{
  Client, ScanPage, answer, unmarshal_items, list_pages, list_table,
}
use opentelemetry_kinesis_st.Lease.Dynamodb.Rows.{Item, unmarshal_lease}

-- The pages of a scan from a start key on, each the answer at the state that the one before it left.
pub data Pages {W : Type 0} (c : Client W) : Option Item → W → List (List Item) → W → Type 0 where
  last_page :
      {key : Option Item} {w : W} (page : ScanPage) (w' : W)
      → (c.scan key w).0 ≡ answer page
      → (c.scan key w).1 ≡ w'
      → is_empty page.last_evaluated_key ≡ true
      → Pages c key w (page.items ∷ []) w'
  next_page :
      {key : Option Item} {w w'' : W} {more : List (List Item)} (page : ScanPage) (w' : W)
      → (c.scan key w).0 ≡ answer page
      → (c.scan key w).1 ≡ w'
      → is_empty page.last_evaluated_key ≡ false
      → Pages c (some page.last_evaluated_key) w' more w''
      → Pages c key w (page.items ∷ more) w''

-- Each item is read as the lease at its place.
pub data Reads : List Item → List Lease → Type 0 where
  no_items : Reads [] []
  item_of :
      {items : List Item} {ls : List Lease} (item : Item) (l : Lease)
      → unmarshal_lease item ≡ some l
      → Reads items ls
      → Reads (item ∷ items) (l ∷ ls)

-- So for the pages in order.
pub data ReadsPages : List (List Item) → List Lease → Type 0 where
  no_pages : ReadsPages [] []
  page_of :
      {pages : List (List Item)} {ls : List Lease} (items : List Item) (page : List Lease)
      → Reads items page
      → ReadsPages pages ls
      → ReadsPages (items ∷ pages) (page ++ ls)

unmarshal_items-Reads :
    {items : List Item} {ls : List Lease} → Reads items ls → unmarshal_items items ≡ some ls
unfolding unmarshal_items
unmarshal_items-Reads no_items = refl
unmarshal_items-Reads (item_of item l e r) = rw (e, unmarshal_items-Reads r, unmarshal_items) refl

module _ {W : Type 0} (c : Client W) where
  list_pages-reads :
      {key : Option Item} {w w' : W} {pages : List (List Item)} {ls : List Lease}
      → Pages c key w pages w'
      → ReadsPages pages ls
      → (fuel : ℕ) (out : List Lease) → length pages ≤ fuel
      → list_pages c fuel key out w ≡ (some (ok (out ++ ls)), w')
  unfolding list_pages
  list_pages-reads (last_page page w' e f l) r zero out h = absurd (omega arith)
  list_pages-reads (last_page page w' e f l) (page_of items ls r no_pages) (suc fuel) out h =
      rw (e, unmarshal_items-Reads r, l, append-nil ls, list_pages) (rw f refl)
  list_pages-reads (next_page page w' e f l p) r zero out h = absurd (omega arith)
  list_pages-reads (next_page page w' e f l p) (page_of items ls r rs) (suc fuel) out h =
      rw (e, unmarshal_items-Reads r, l, list_pages)
        (rw (f, ← append_assoc out ls _) (list_pages-reads p rs fuel (out ++ ls) (omega arith)))

  -- If the pages of a Scan hold, in order, items that are read as the leases `ls`, then with a unit
  -- of fuel for each page List ends and returns `ls`.
  pub list_table-reads :
      {w w' : W} {pages : List (List Item)} {ls : List Lease}
      → Pages c none w pages w'
      → ReadsPages pages ls
      → (fuel : ℕ) → length pages ≤ fuel
      → list_table c fuel w ≡ (some (ok ls), w')
  unfolding list_table
  list_table-reads p r fuel h = list_pages-reads p r fuel [] h
