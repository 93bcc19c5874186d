-- ===== src/Task/Pagination/Coverage.antt =====
-- services/task-service/app/pagination.py: the rows that a client sees who follows the cursors.
use mathlib.Core.Path.{subst}
use microservices_project.Prelude.{
  ℕ, zero, suc, ◌+◌, ◌*◌, ◌≡◌, refl, sym, ap, ◌∙◌, inl, inr, true, false, Option, none, some, List,
  [], ◌∷◌, arith, Option-cases, get_elem?, take, filter, nat_eq,
}
use microservices_project.Prelude.{drop}
use microservices_project.Task.Pagination.{
  Cursor, precedes, order_by, make_cursor_page, after_cursor, list_page,
}
use microservices_project.Task.Pagination.Pages.{
  AllBefore, IsDescending, AreDistinct, order_by-IsDescending, order_by-filter,
}

module _ {A : Type 0} where
  get_elem?-drop : (n i : ℕ) (xs : List A) → get_elem? (drop n xs) i ≡ get_elem? xs (n + i)
  get_elem?-drop zero i xs = let e : i ≡ 0 + i = omega arith in ap (λ k. get_elem? xs k) e
  get_elem?-drop (suc n) i [] = refl
  get_elem?-drop (suc n) i (x ∷ xs) =
      let e : suc (n + i) ≡ suc n + i = omega arith in
      get_elem?-drop n i xs ∙ ap (λ k. get_elem? (x ∷ xs) k) e

  drop_nil : (m : ℕ) → drop {A = A} m [] ≡ []
  drop_nil zero = refl
  drop_nil (suc m) = refl

  drop-drop : (n m : ℕ) (xs : List A) → drop m (drop n xs) ≡ drop (n + m) xs
  drop-drop zero m xs = let e : m ≡ 0 + m = omega arith in ap (λ k. drop k xs) e
  drop-drop (suc n) m [] =
      let e : suc (n + m) ≡ suc n + m = omega arith in drop_nil m ∙ ap (λ k. drop k []) e
  drop-drop (suc n) m (x ∷ xs) =
      let e : suc (n + m) ≡ suc n + m = omega arith in
      drop-drop n m xs ∙ ap (λ k. drop k (x ∷ xs)) e

  drop-none : (n : ℕ) (xs : List A) → get_elem? xs n ≡ none → drop (suc n) xs ≡ []
  drop-none n [] e = refl
  drop-none zero (x ∷ xs) e = absurd (ground arith)
  drop-none (suc n) (x ∷ xs) e = drop-none n xs e

  take-none : (n : ℕ) (xs : List A) → get_elem? xs n ≡ none → take (suc n) xs ≡ take n xs
  take-none zero [] e = refl
  take-none (suc n) [] e = refl
  take-none zero (x ∷ xs) e = absurd (ground arith)
  take-none (suc n) (x ∷ xs) e = ap (λ l. x ∷ l) (take-none n xs e)

  take-take-suc : (n : ℕ) (xs : List A) → take n (take (suc n) xs) ≡ take n xs
  take-take-suc zero xs = refl
  take-take-suc (suc n) [] = refl
  take-take-suc (suc n) (x ∷ xs) = ap (λ l. x ∷ l) (take-take-suc n xs)

  get_elem?-take-suc : (n : ℕ) (xs : List A) → get_elem? (take (suc n) xs) n ≡ get_elem? xs n
  get_elem?-take-suc n [] = refl
  get_elem?-take-suc zero (x ∷ xs) = refl
  get_elem?-take-suc (suc n) (x ∷ xs) = get_elem?-take-suc n xs

module _ {A : Type 0} (key : A → Cursor) where
  precedes_irrefl : (a : A) → precedes key (key a) a ≡ false
  unfolding precedes
  precedes_irrefl a = ground arith

  precedes_asym : (a b : A) → precedes key (key a) b ≡ true → precedes key (key b) a ≡ false
  unfolding precedes
  precedes_asym a b h = ground arith

  filter-AllBefore :
      (c : Cursor) (xs : List A) → AllBefore key c xs → filter (precedes key c) xs ≡ xs
  filter-AllBefore c [] h = refl
  filter-AllBefore c (b ∷ bs) h = ground (arith, filter-AllBefore c bs h.1, h.0)

  get_elem?-AllBefore :
      (c : Cursor) (n : ℕ) (x : A) (xs : List A)
      → AllBefore key c xs
      → get_elem? xs n ≡ some x
      → precedes key c x ≡ true
  get_elem?-AllBefore c n x [] h e = absurd (ground arith)
  get_elem?-AllBefore c zero x (b ∷ bs) h e = ground (arith, h.0)
  get_elem?-AllBefore c (suc n) x (b ∷ bs) h e = get_elem?-AllBefore c n x bs h.1 e

  -- What the keyset filter keeps, with a cursor made from the row at an index.
  filter-cursor :
      (n : ℕ) (x : A) (xs : List A)
      → IsDescending key xs
      → get_elem? xs n ≡ some x
      → filter (precedes key (key x)) xs ≡ drop (suc n) xs
  filter-cursor n x [] h e = absurd (ground arith)
  filter-cursor zero x (a ∷ xs) h e =
      let same : a ≡ x = ground arith in
      let rest : filter (precedes key (key x)) xs ≡ xs =
        subst (λ y. filter (precedes key (key y)) xs ≡ xs) same (filter-AllBefore (key a) xs h.0) in
      ground (arith, same, rest, precedes_irrefl x)
  filter-cursor (suc n) x (a ∷ xs) h e =
      let above = precedes_asym a x (get_elem?-AllBefore (key a) n x xs h.0 e) in
      ground (arith, above, filter-cursor n x xs h.1 e)

  key_of : Option A → Option Cursor
  key_of none = none
  key_of (some a) = some (key a)

  -- The page that starts a list.
  page_at : ℕ → List A → List A × Option Cursor
  page_at limit xs = (take limit xs, key_of (get_elem? xs limit))

  page_at_nil : (limit : ℕ) → page_at limit [] ≡ ([], none)
  unfolding page_at key_of
  page_at_nil zero = refl
  page_at_nil (suc limit) = refl

  make_cursor_page-take :
      (limit : ℕ) (xs : List A)
      → make_cursor_page key (take (suc limit) xs) limit ≡ page_at limit xs
  unfolding make_cursor_page key_of page_at
  make_cursor_page-take limit xs = elim (Option-cases (get_elem? xs limit)) [
    | inl e ↦ ground (arith, e, get_elem?-take-suc limit xs, take-none limit xs e)
    | inr (x, e) ↦ ground (arith, e, get_elem?-take-suc limit xs, take-take-suc limit xs)
  ]

  list_page_first :
      (rows : List A) (limit : ℕ)
      → list_page key rows none limit ≡ page_at limit (order_by key rows)
  unfolding list_page after_cursor
  list_page_first rows limit =
      let e : limit + 1 ≡ suc limit = omega arith in
      rw e (make_cursor_page-take limit (order_by key rows))

  list_page_next :
      (rows : List A) (limit n : ℕ) (x : A)
      → AreDistinct key rows
      → get_elem? (order_by key rows) n ≡ some x
      → list_page key rows (some (key x)) limit ≡ page_at limit (drop (suc n) (order_by key rows))
  unfolding list_page after_cursor
  list_page_next rows limit n x d h =
      let e : limit + 1 ≡ suc limit = omega arith in
      let kept =
        order_by-filter key (precedes key (key x)) rows d
        ∙ filter-cursor n x (order_by key rows) (order_by-IsDescending key rows d) h in
      rw (e, kept) (make_cursor_page-take limit (drop (suc n) (order_by key rows)))

  -- The page that a client asks for next: there is none without a cursor.
  unfoldable pub follow : List A → ℕ → Option Cursor → List A × Option Cursor
  follow rows limit none = ([], none)
  follow rows limit (some c) = list_page key rows (some c) limit

  unfoldable pub nth_page : List A → ℕ → ℕ → List A × Option Cursor
  nth_page rows limit zero = list_page key rows none limit
  nth_page rows limit (suc k) = follow rows limit (nth_page rows limit k).1

  follow-key_of :
      (rows : List A) (limit n : ℕ) (o : Option A)
      → AreDistinct key rows
      → get_elem? (order_by key rows) n ≡ o
      → follow rows limit (key_of o) ≡ page_at limit (drop (suc n) (order_by key rows))
  unfolding follow key_of
  follow-key_of rows limit n none d h =
      sym (ap (λ l. page_at limit l) (drop-none n (order_by key rows) h) ∙ page_at_nil limit)
  follow-key_of rows limit n (some x) d h = list_page_next rows limit n x d h

  nth_page_cursor :
      (rows : List A) (limit k : ℕ)
      → nth_page rows limit k ≡ page_at limit (drop (k * (limit + 1)) (order_by key rows))
      → (nth_page rows limit k).1
        ≡ key_of (get_elem? (drop (k * (limit + 1)) (order_by key rows)) limit)
  unfolding page_at
  nth_page_cursor rows limit k h = ap (λ page. page.1) h

  nth_page-page_at :
      (rows : List A) (limit k : ℕ)
      → AreDistinct key rows
      → nth_page rows limit k ≡ page_at limit (drop (k * (limit + 1)) (order_by key rows))
  unfolding nth_page
  nth_page-page_at rows limit zero d =
      let e : 0 * (limit + 1) ≡ 0 = omega arith in rw e (list_page_first rows limit)
  nth_page-page_at rows limit (suc k) d =
      let l = order_by key rows in
      let start = k * (limit + 1) in
      let cursor : (nth_page rows limit k).1 ≡ key_of (get_elem? (drop start l) limit) =
        nth_page_cursor rows limit k (nth_page-page_at rows limit k d) in
      let e : suc (start + limit) ≡ suc k * (limit + 1) = omega arith in
      ap (λ c. follow rows limit c) cursor
      ∙ follow-key_of rows limit (start + limit) (get_elem? (drop start l) limit) d
          (sym (get_elem?-drop start limit l))
      ∙ ap (λ i. page_at limit (drop i l)) e

  -- Where no two rows have one id: following the cursors from the first page, the page of index k
  -- is the first `limit` of the ordered rows from index k * (limit + 1) on. So the row between
  -- each page and the next is on no page.
  pub nth_page_segment :
      (rows : List A) (limit k : ℕ)
      → AreDistinct key rows
      → (nth_page rows limit k).0 ≡ take limit (drop (k * (limit + 1)) (order_by key rows))
  unfolding page_at
  nth_page_segment rows limit k d = ap (λ page. page.0) (nth_page-page_at rows limit k d)
