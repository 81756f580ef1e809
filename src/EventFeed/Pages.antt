-- ===== src/EventFeed/Pages.antt =====
-- event_feed.py: the pages of the feed.
use deepagent_shell.Prelude.{
  ℕ, zero, suc, ◌+◌, ◌-◌, ◌*◌, ◌/◌, ◌≤◌, ◌<◌, String, Bool, List, [], ◌∷◌, ◌++◌, length, take, drop,
  ltb, ◌≡◌, refl, sym, ◌∙◌, ap, subst, arith, inl, inr, Bool-cases, length-take-le,
}
use native.Mathlib.Nat.{zero-add, suc-add, div-add-mod', mod-lt, mul-le-mul_right}
use mathlib.Core.List.{Perm}
use mathlib.Core.List.Perm
use deepagent_shell.EventFeed.{
  Item, Filters, Feed, listed, insert_item, key_lt, sort_items, page_of, total_pages, list_events,
}

module _ {ℓ} {A : Type ℓ} where
  take-nil : (n : ℕ) → take n (let none_left : List A = [] in none_left) ≡ []
  take-nil zero = refl
  take-nil (suc n) = refl

  take-add : (m n : ℕ) (xs : List A) → take (m + n) xs ≡ take m xs ++ take n (drop m xs)
  take-add zero n xs = ap (λ k. take k xs) (zero-add n)
  take-add (suc m) n [] =
      ap (λ k. take k (let none_left : List A = [] in none_left)) (suc-add m n) ∙ sym (take-nil n)
  take-add (suc m) n (x ∷ xs) =
      ap (λ k. take k (x ∷ xs)) (suc-add m n) ∙ ap (λ rest. x ∷ rest) (take-add m n xs)

  take-all : (n : ℕ) (xs : List A) → length xs ≤ n → take n xs ≡ xs
  take-all zero [] h = refl
  take-all zero (x ∷ xs) h = absurd (omega (arith, h))
  take-all (suc n) [] h = refl
  take-all (suc n) (x ∷ xs) h = ap (λ rest. x ∷ rest) (take-all n xs (omega (arith, h)))

-- The pages from 1 to `k`, one after the other.
abbrev pub pages_to : ℕ → (ℕ → List Item) → List Item
pages_to zero page = []
pages_to (suc k) page = pages_to k page ++ page (suc k)

pages_to-take :
    (k page_size : ℕ) (items : List Item)
    → pages_to k (λ page. page_of page page_size items) ≡ take (k * page_size) items
unfolding page_of
pages_to-take zero page_size items =
    ap (λ n. take n items) (let e : 0 ≡ 0 * page_size = omega arith in e)
pages_to-take (suc k) page_size items =
    let start : (suc k - 1) * page_size ≡ k * page_size = ap (λ j. j * page_size) (omega arith) in
    let end_at : k * page_size + page_size ≡ suc k * page_size = grind arith in
    ap (λ front. front ++ page_of (suc k) page_size items) (pages_to-take k page_size items)
    ∙ ap (λ n. take (k * page_size) items ++ take page_size (drop n items)) start
    ∙ sym (take-add (k * page_size) page_size items)
    ∙ ap (λ n. take n items) end_at

total_pages-enough :
    (total page_size : ℕ) → 0 < page_size → total ≤ total_pages total page_size * page_size
unfolding total_pages
total_pages-enough total page_size h =
    let pages = (total + page_size - 1) / page_size in
    let exact = div-add-mod' (total + page_size - 1) page_size in
    let rest = mod-lt (total + page_size - 1) h in
    elim (Bool-cases (ltb 1 pages)) [
      | inl e ↦ rw e (omega (arith, exact, rest))
      | inr e ↦ rw e (
          let few : pages * page_size ≤ 1 * page_size =
            mul-le-mul_right page_size (ground (arith, e)) in
          omega (arith, exact, rest, few))
    ]

insert_item-Perm : (x : Item) (items : List Item) → Perm (insert_item x items) (x ∷ items)
unfolding insert_item
insert_item-Perm x [] = Perm.refl (x ∷ [])
insert_item-Perm x (y ∷ items) = elim (Bool-cases (key_lt x y)) [
  | inl e ↦ rw e (Perm.trans (Perm.cons y (insert_item-Perm x items)) (Perm.swap x y items))
  | inr e ↦ rw e (Perm.refl (x ∷ y ∷ items))
]

sort_items-Perm : (items : List Item) → Perm (sort_items items) items
unfolding sort_items
sort_items-Perm [] = Perm.refl []
sort_items-Perm (x ∷ items) =
    Perm.trans (insert_item-Perm x (sort_items items)) (Perm.cons x (sort_items-Perm items))

length-insert_item :
    (x : Item) (items : List Item) → length (insert_item x items) ≡ suc (length items)
unfolding insert_item
length-insert_item x [] = refl
length-insert_item x (y ∷ items) = ground (arith, length-insert_item x items)

length-sort_items : (items : List Item) → length (sort_items items) ≡ length items
unfolding sort_items
length-sort_items [] = refl
length-sort_items (x ∷ items) =
    length-insert_item x (sort_items items) ∙ ap (λ n. suc n) (length-sort_items items)

-- For a page size that is not zero: the items of the pages from 1 to the number of pages that any page
-- gives are together the listed items, each as often as it is listed; a page has at most the page size of
-- them, and gives the number of listed items as the total.
pub list_events-pages :
    (found : String → String → Bool) (page_size : ℕ) (filters : Filters) (feed : Feed)
    → 0 < page_size
    → (page : ℕ)
    → Perm
        (pages_to
          (list_events found page page_size filters feed).pages
          (λ p. (list_events found p page_size filters feed).items))
        (listed found filters feed)
      × (length (list_events found page page_size filters feed).items ≤ page_size)
      × ((list_events found page page_size filters feed).total ≡ length (listed found filters feed))
unfolding list_events page_of
list_events-pages found page_size filters feed h page =
    let items = sort_items (listed found filters feed) in
    let pages = total_pages (length items) page_size in
    (
      subst (λ all. Perm all (listed found filters feed))
          (sym (
            pages_to-take pages page_size items
            ∙ take-all (pages * page_size) items (total_pages-enough (length items) page_size h)))
          (sort_items-Perm (listed found filters feed)),
      length-take-le page_size (drop ((page - 1) * page_size) items),
      length-sort_items (listed found filters feed),
    )
