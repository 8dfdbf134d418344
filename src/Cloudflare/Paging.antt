-- ===== src/Cloudflare/Paging.antt =====
-- frp-backend/internal/integration/cloudflare/client.go: the loop of `ListRecords` and of
-- `ListZones` over the pages of a list. The loop has no bound in Go; here it has fuel, and none is a
-- loop that has not ended.
use ashan_frp.Base.{
  ℕ, zero, suc, ◌+◌, ◌≤◌, ◌<◌, ◌≡◌, refl, sym, ap, ◌∙◌, Bool, true, false, ◌||◌, Option, none, some,
  List, [], ◌∷◌, ◌++◌, append_assoc, append-nil, arith,
}
use ashan_frp.Base.{if◌then◌else◌}
use ashan_frp.Base.Int.{ℤ, pos, lebℤ}
use ashan_frp.Base.Result.{Result, ok, failed}

-- One page; `total_pages` is none where the answer has no `result_info`.
pub record Page (A : Type 0) : Type 0 where
  pub items : List A
  pub total_pages : Option ℤ

abbrev pub no_items : {A : Type 0} → List A → Bool
no_items [] = true
no_items (x ∷ xs) = false

abbrev pub is_total : ℕ → Option ℤ → Bool
is_total page none = true
is_total page (some total) = lebℤ total (pos page)

-- The condition that ends the loop.
abbrev pub is_last : {A : Type 0} → ℕ → Page A → Bool
is_last page p = is_total page p.total_pages || no_items p.items

module _ {A : Type 0} (fetch : ℕ → Result (Page A)) where
  -- The body of the loop; `go_on` is the rest of the loop.
  unfoldable pub take_page :
      ℕ → List A → (List A → Option (Result (List A))) → Result (Page A) → Option (Result (List A))
  take_page page acc go_on (failed e) = some (failed e)
  take_page page acc go_on (ok p) =
      if is_last page p then some (ok (acc ++ p.items)) else go_on (acc ++ p.items)

  unfoldable pub list_from : ℕ → ℕ → List A → Option (Result (List A))
  unfolding take_page
  list_from zero page acc = none
  list_from (suc fuel) page acc =
      take_page page acc (λ more. list_from fuel (suc page) more) (fetch page)

  -- The whole list, from the first page.
  unfoldable pub list_pages : ℕ → Option (Result (List A))
  unfolding list_from
  list_pages fuel = list_from fuel 1 []

-- The items of some pages in a row, from one page on.
unfoldable pub collect : {A : Type 0} → (ℕ → List A) → ℕ → ℕ → List A
collect items page zero = []
collect items page (suc n) = items page ++ collect items (suc page) n

module _ {A : Type 0} (fetch : ℕ → Result (Page A)) (items : ℕ → List A) (total : ℕ)
    (pages : (n : ℕ)
      → n ≤ total
      → fetch n ≡ ok (record { items = items n; total_pages = some (pos total) }))
    (full : (n : ℕ) → no_items (items n) ≡ false) where
  abbrev page_at : ℕ → Page A
  page_at n = record { items = items n; total_pages = some (pos total) }

  last : (n : ℕ) → n ≡ total → is_last n (page_at n) ≡ true
  last n e = ground arith

  more : (n : ℕ) → n < total → is_last n (page_at n) ≡ false
  more n h = rw (full n) (ground arith)

  take_page-last :
      (page : ℕ) (acc : List A) (go_on : List A → Option (Result (List A)))
      → page ≡ total
      → take_page fetch page acc go_on (fetch page) ≡ some (ok (acc ++ items page))
  unfolding take_page
  take_page-last page acc go_on e = rw (pages page (omega arith), last page e) refl

  take_page-more :
      (page : ℕ) (acc : List A) (go_on : List A → Option (Result (List A)))
      → page < total
      → take_page fetch page acc go_on (fetch page) ≡ go_on (acc ++ items page)
  unfolding take_page
  take_page-more page acc go_on h = rw (pages page (omega arith), more page h) refl

  list_from-collect :
      (left fuel page : ℕ) (acc : List A)
      → page + left ≡ total
      → left < fuel
      → list_from fetch fuel page acc ≡ some (ok (acc ++ collect items page (suc left)))
  unfolding list_from collect
  list_from-collect left zero page acc at enough = absurd (omega arith)
  list_from-collect zero (suc fuel) page acc at enough =
      take_page-last page acc (list_from fetch fuel (suc page)) (omega arith)
      ∙ ap (λ xs. some (ok (acc ++ xs))) (sym (append-nil (items page)))
  list_from-collect (suc left) (suc fuel) page acc at enough =
      take_page-more page acc (list_from fetch fuel (suc page)) (omega arith)
      ∙ list_from-collect left fuel (suc page) (acc ++ items page) (omega arith) (omega arith)
      ∙ ap (λ xs. some (ok xs)) (append_assoc acc (items page) _)

  -- Where the API says how many pages there are, answers each of them, and none is empty, the loop
  -- ends after that many requests, and the list is that of all the pages in order.
  pub list_pages-collect :
      (fuel rest : ℕ)
      → total ≡ suc rest
      → total ≤ fuel
      → list_pages fetch fuel ≡ some (ok (collect items 1 total))
  unfolding list_pages
  list_pages-collect fuel rest e enough =
      list_from-collect rest fuel 1 [] (omega arith) (omega arith)
      ∙ ap (λ n. some (ok (collect items 1 n))) (sym e)
