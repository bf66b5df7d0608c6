-- ===== src/Upload/Refines.antt =====
-- The upload of rows does what it says to the catalog, and never finds two items under one key.
use merchant_ai_agent.Base.{
  ◌+◌, ◌≤◌, ◌≡◌, refl, false, List, [], ◌∷◌, ◌++◌, length, select, update_where, count_where, arith,
  ap, sym, ◌∙◌, subst, Bool-cases, inl, inr,
}
use merchant_ai_agent.Base.Results.{ok, err, bind-returned, bind-raised, ok-injective}
use merchant_ai_agent.Inventory.{Item}
use merchant_ai_agent.Upload.{ValidatedUploadRow}
use merchant_ai_agent.Upload.Upsert.{
  Key, same_key, row_key, Shelf, Progress, UploadError, value_out_of_range, flush, new_item, top_up,
  is_listed_as, insert_row, update_row, upsert_found, upsert_row, upsert_rows, upsert_catalog_rows,
}
use merchant_ai_agent.Upload.Listing.{
  Catalog, listing, put_row, put_rows, listing-insert, listing-update, listed-top_up,
  listed-new_item, same_key_comm, same_key-eq,
}

-- The unique index on the key.
abbrev pub IsIdentified : List Item → Type 0
IsIdentified items = (k : Key) → count_where (is_listed_as k) items ≤ 1

count-append :
    (k : Key) (items : List Item) (item : Item)
    → count_where (is_listed_as k) (items ++ item ∷ [])
      ≡ count_where (is_listed_as k) items + count_where (is_listed_as k) (item ∷ [])
unfolding count_where
count-append k [] item = omega arith
count-append k (i ∷ items) item = omega (arith, count-append k items item)

count-select :
    (k : Key) (items : List Item)
    → length (select (is_listed_as k) items) ≡ count_where (is_listed_as k) items
unfolding count_where select
count-select k [] = refl
count-select k (item ∷ items) = ground (arith, count-select k items)

count-update :
    (k key : Key) (row : ValidatedUploadRow) (items : List Item)
    → count_where (is_listed_as k) (update_where (is_listed_as key) (top_up row) items)
      ≡ count_where (is_listed_as k) items
unfolding count_where update_where
count-update k key row [] = refl
count-update k key row (item ∷ items) = elim (Bool-cases (is_listed_as key item)) [
  | inl e ↦ rw (e, listed-top_up, count-update k key row items) refl
  | inr e ↦ rw (e, count-update k key row items) refl
]

-- What one row does, by what the look-up finds.
record Does (row : ValidatedUploadRow) (p q : Progress) : Type 0 where
  lists : (k : Key) → listing q.shelf.items k ≡ put_row row (listing p.shelf.items) k
  counts : q.inserted + q.updated ≡ p.inserted + p.updated + 1
  identifies : IsIdentified p.shelf.items → IsIdentified q.shelf.items

flush-same : (p q : Progress) → flush p ≡ ok q → p ≡ q
unfolding flush
flush-same p q h = ground arith

flush-fails : (p : Progress) (e : UploadError) → flush p ≡ err e → e ≡ value_out_of_range
unfolding flush
flush-fails p e h = ground arith

one_new : (k : Key) (item : Item) → count_where (is_listed_as k) (item ∷ []) ≤ 1
unfolding count_where
one_new k item = ground arith

not_counted :
    (k : Key) (item : Item)
    → is_listed_as k item ≡ false
    → count_where (is_listed_as k) (item ∷ []) ≡ 0
unfolding count_where
not_counted k item h = rw h refl

count-none :
    (k : Key) (items : List Item)
    → select (is_listed_as k) items ≡ []
    → count_where (is_listed_as k) items ≡ 0
count-none k items h = sym (count-select k items) ∙ ap (length {0}) h

insert-Does :
    (row : ValidatedUploadRow) (p : Progress)
    → select (is_listed_as (row_key row)) p.shelf.items ≡ []
    → Does row p (insert_row row p)
unfolding insert_row
insert-Does row p none_found = record {
  lists = λ k. listing-insert p.shelf.next_id row p.shelf.items k none_found;
  counts = omega arith;
  identifies = identifies;
}
  where
    identifies :
        IsIdentified p.shelf.items
        → IsIdentified (p.shelf.items ++ new_item p.shelf.next_id row ∷ [])
    identifies unique k = elim (Bool-cases (same_key (row_key row) k)) [
      | inl same ↦ omega (
        arith,
        count-append k p.shelf.items (new_item p.shelf.next_id row),
        one_new k (new_item p.shelf.next_id row),
        subst (λ x. count_where (is_listed_as x) p.shelf.items ≡ 0)
            (same_key-eq (row_key row) k same) (count-none (row_key row) p.shelf.items none_found),
      )
      | inr other ↦ omega (
        arith,
        count-append k p.shelf.items (new_item p.shelf.next_id row),
        unique k,
        not_counted k (new_item p.shelf.next_id row)
            (listed-new_item k p.shelf.next_id row ∙ same_key_comm k (row_key row) ∙ other),
      )
    ]

update-Does :
    (row : ValidatedUploadRow) (item : Item) (p : Progress)
    → select (is_listed_as (row_key row)) p.shelf.items ≡ item ∷ []
    → Does row p (update_row row item p)
unfolding update_row
update-Does row item p found = record {
  lists = λ k. listing-update row p.shelf.items item [] k found;
  counts = omega arith;
  identifies = λ unique k. omega (arith, count-update k (row_key row) row p.shelf.items, unique k);
}

-- A row that is accepted does its work, and the look-up never finds two items.
found-Does :
    (row : ValidatedUploadRow) (found : List Item) (p q : Progress)
    → select (is_listed_as (row_key row)) p.shelf.items ≡ found
    → upsert_found row found p ≡ ok q
    → Does row p q
unfolding upsert_found
found-Does row [] p q e h =
    subst (Does row p) (flush-same (insert_row row p) q h) (insert-Does row p e)
found-Does row (item ∷ []) p q e h =
    subst (Does row p) (ok-injective (update_row row item p) q h) (update-Does row item p e)
found-Does row (item ∷ other ∷ items) p q e h = cc

found-fails :
    (row : ValidatedUploadRow) (found : List Item) (p : Progress) (e : UploadError)
    → length found ≤ 1
    → upsert_found row found p ≡ err e
    → e ≡ value_out_of_range
unfolding upsert_found
found-fails row [] p e few h = flush-fails (insert_row row p) e h
found-fails row (item ∷ []) p e few h = cc
found-fails row (item ∷ other ∷ items) p e few h = absurd (omega arith)

row-Does : (row : ValidatedUploadRow) (p q : Progress) → upsert_row row p ≡ ok q → Does row p q
unfolding upsert_row
row-Does row p q h = found-Does row _ p q refl h

row-fails :
    (row : ValidatedUploadRow) (p : Progress) (e : UploadError)
    → IsIdentified p.shelf.items
    → upsert_row row p ≡ err e
    → e ≡ value_out_of_range
unfolding upsert_row
row-fails row p e unique h =
    found-fails row _ p e
      (omega (arith, count-select (row_key row) p.shelf.items, unique (row_key row))) h

put_rows-cong :
    (rows : List ValidatedUploadRow) (a b : Catalog)
    → ((k : Key) → a k ≡ b k)
    → (k : Key) → put_rows rows a k ≡ put_rows rows b k
unfolding put_rows put_row
put_rows-cong [] a b h k = h k
put_rows-cong (row ∷ rows) a b h k =
    put_rows-cong rows (put_row row a) (put_row row b) (λ x. rw (h x) refl) k

-- What an upload of rows does.
pub record Uploads (rows : List ValidatedUploadRow) (p q : Progress) : Type 0 where
  pub lists : (k : Key) → listing q.shelf.items k ≡ put_rows rows (listing p.shelf.items) k
  pub counts : q.inserted + q.updated ≡ p.inserted + p.updated + length rows
  pub identifies : IsIdentified p.shelf.items → IsIdentified q.shelf.items

rows-Uploads :
    (rows : List ValidatedUploadRow) (p q : Progress) → upsert_rows rows p ≡ ok q → Uploads rows p q
unfolding upsert_rows put_rows
rows-Uploads [] p q h =
    subst (Uploads [] p) (ok-injective p q h)
      (record { lists = λ k. refl; counts = omega arith; identifies = λ u. u })
rows-Uploads (row ∷ rows) p q h =
    let (mid, first, rest) = bind-returned (upsert_row row p) (upsert_rows rows) q h in
    let does = row-Does row p mid first in
    let more = rows-Uploads rows mid q rest in
    record {
      lists = λ k.
          more.lists k
          ∙ put_rows-cong rows (listing mid.shelf.items) (put_row row (listing p.shelf.items))
              does.lists k;
      counts = omega arith;
      identifies = λ u. more.identifies (does.identifies u);
    }

rows-fail :
    (rows : List ValidatedUploadRow) (p : Progress) (e : UploadError)
    → IsIdentified p.shelf.items
    → upsert_rows rows p ≡ err e
    → e ≡ value_out_of_range
unfolding upsert_rows
rows-fail [] p e unique h = cc
rows-fail (row ∷ rows) p e unique h = elim (bind-raised (upsert_row row p) (upsert_rows rows) e h) [
  | inl first ↦ row-fails row p e unique first
  | inr (mid, done, rest) ↦ rows-fail rows mid e ((row-Does row p mid done).identifies unique) rest
]

abbrev pub started : Shelf → Progress
started shelf = record { shelf = shelf; inserted = 0; updated = 0; touched = [] }

pub catalog_rows-Uploads :
    (rows : List ValidatedUploadRow) (shelf : Shelf) (q : Progress)
    → upsert_catalog_rows rows shelf ≡ ok q
    → Uploads rows (started shelf) q
unfolding upsert_catalog_rows
catalog_rows-Uploads [] shelf q h = rows-Uploads [] (started shelf) q h
catalog_rows-Uploads (row ∷ rows) shelf q h =
    let (p, done, flushed) = bind-returned (upsert_rows (row ∷ rows) (started shelf)) flush q h in
    rows-Uploads (row ∷ rows) (started shelf) q (done ∙ ap ok (flush-same p q flushed))

pub catalog_rows-fail :
    (rows : List ValidatedUploadRow) (shelf : Shelf) (e : UploadError)
    → IsIdentified shelf.items
    → upsert_catalog_rows rows shelf ≡ err e
    → e ≡ value_out_of_range
unfolding upsert_catalog_rows
catalog_rows-fail [] shelf e unique h = cc
catalog_rows-fail (row ∷ rows) shelf e unique h =
    elim (bind-raised (upsert_rows (row ∷ rows) (started shelf)) flush e h) [
      | inl raised ↦ rows-fail (row ∷ rows) (started shelf) e unique raised
      | inr (p, done, raised) ↦ flush-fails p e raised
    ]
