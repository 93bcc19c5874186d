-- ===== src/Task/Pagination/Pages.antt =====
-- services/task-service/app/pagination.py: what following the cursors returns.
use microservices_project.Prelude.{
  ℕ, ◌≡◌, refl, ap, ◌∙◌, inl, inr, Bool, true, false, ◌||◌, List, [], ◌∷◌, arith, ◌==◌,
  if◌then◌else◌, Bool-cases, filter, nat_eq,
}
use microservices_project.Task.Pagination.{Cursor, precedes, place, order_by}

module _ {A : Type 0} (key : A → Cursor) where
  -- Each row comes strictly before all the rows above it, in the order of a page.
  abbrev pub AllBefore : Cursor → List A → Type 0
  AllBefore c [] = Unit
  AllBefore c (b ∷ bs) = (precedes key c b ≡ true) × AllBefore c bs

  abbrev pub IsDescending : List A → Type 0
  IsDescending [] = Unit
  IsDescending (a ∷ xs) = AllBefore (key a) xs × IsDescending xs

  -- No two rows have the same id.
  abbrev pub has_id : ℕ → List A → Bool
  has_id i [] = false
  has_id i (a ∷ xs) = (key a).item_id == i || has_id i xs

  abbrev pub AreDistinct : List A → Type 0
  AreDistinct [] = Unit
  AreDistinct (a ∷ xs) = (has_id (key a).item_id xs ≡ false) × AreDistinct xs

  precedes_trans :
      (a b : A) (c : Cursor)
      → precedes key c a ≡ true
      → precedes key (key a) b ≡ true
      → precedes key c b ≡ true
  unfolding precedes
  precedes_trans a b c h k = ground arith

  AllBefore-trans :
      (a : A) (c : Cursor) (xs : List A)
      → precedes key c a ≡ true
      → AllBefore (key a) xs
      → AllBefore c xs
  AllBefore-trans a c [] h k = tt
  AllBefore-trans a c (b ∷ bs) h k = (precedes_trans a b c h k.0, AllBefore-trans a c bs h k.1)

  place_first : (a : A) (xs : List A) → AllBefore (key a) xs → place key a xs ≡ a ∷ xs
  place_first a [] h = refl
  place_first a (b ∷ bs) h = ground (arith, h.0)

  keep_before :
      (c : Cursor) (b : A) (rest : List A) (t : Bool)
      → precedes key c b ≡ true
      → AllBefore c rest
      → AllBefore c (if t then b ∷ rest else rest)
  keep_before c b rest true h k = (h, k)
  keep_before c b rest false h k = k

  AllBefore-filter :
      (p : A → Bool) (c : Cursor) (xs : List A) → AllBefore c xs → AllBefore c (filter p xs)
  AllBefore-filter p c [] h = tt
  AllBefore-filter p c (b ∷ bs) h =
      keep_before c b (filter p bs) (p b) h.0 (AllBefore-filter p c bs h.1)

  filter-place :
      (p : A → Bool) (a : A) (xs : List A)
      → IsDescending xs
      → filter p (place key a xs) ≡ (if p a then place key a (filter p xs) else filter p xs)
  filter-place p a [] h = ground arith
  filter-place p a (b ∷ bs) h = elim (Bool-cases (precedes key (key a) b)) [
    | inl e ↦
        let first =
          place_first a (filter p bs)
            (AllBefore-filter p (key a) bs (AllBefore-trans b (key a) bs e h.0)) in
        ground (arith, e, first)
    | inr e ↦ ground (arith, e, filter-place p a bs h.1)
  ]

  AllBefore-place :
      (c : Cursor) (a : A) (xs : List A)
      → precedes key c a ≡ true
      → AllBefore c xs
      → AllBefore c (place key a xs)
  AllBefore-place c a [] h k = (h, tt)
  AllBefore-place c a (b ∷ bs) h k = go (precedes key (key a) b) (AllBefore-place c a bs h k.1)
    where
      go :
          (t : Bool)
          → AllBefore c (place key a bs)
          → AllBefore c (if t then a ∷ b ∷ bs else b ∷ place key a bs)
      go true r = (h, k)
      go false r = (k.0, r)

  -- Of two rows with different ids one comes before the other.
  precedes_total :
      (a b : A)
      → ((key b).item_id == (key a).item_id) ≡ false
      → precedes key (key a) b ≡ false
      → precedes key (key b) a ≡ true
  unfolding precedes
  precedes_total a b h k = ground arith

  place-IsDescending :
      (a : A) (xs : List A)
      → has_id (key a).item_id xs ≡ false
      → IsDescending xs
      → IsDescending (place key a xs)
  place-IsDescending a [] d h = (tt, tt)
  place-IsDescending a (b ∷ bs) d h =
      go (precedes key (key a) b) refl (place-IsDescending a bs (ground (arith, d)) h.1)
    where
      go :
          (t : Bool)
          → precedes key (key a) b ≡ t
          → IsDescending (place key a bs)
          → IsDescending (if t then a ∷ b ∷ bs else b ∷ place key a bs)
      go true e r = ((e, AllBefore-trans b (key a) bs e h.0), h)
      go false e r =
          (AllBefore-place (key b) a bs (precedes_total a b (ground (arith, d)) e) h.0, r)

  has_id-place :
      (i : ℕ) (a : A) (xs : List A)
      → has_id i (place key a xs) ≡ ((key a).item_id == i || has_id i xs)
  has_id-place i a [] = refl
  has_id-place i a (b ∷ bs) = ground (arith, has_id-place i a bs)

  has_id-order_by : (i : ℕ) (xs : List A) → has_id i (order_by key xs) ≡ has_id i xs
  unfolding order_by
  has_id-order_by i [] = refl
  has_id-order_by i (a ∷ xs) =
      has_id-place i a (order_by key xs)
      ∙ ap (λ t. (key a).item_id == i || t) (has_id-order_by i xs)

  pub order_by-IsDescending : (xs : List A) → AreDistinct xs → IsDescending (order_by key xs)
  unfolding order_by
  order_by-IsDescending [] d = tt
  order_by-IsDescending (a ∷ xs) d =
      place-IsDescending a (order_by key xs) (has_id-order_by (key a).item_id xs ∙ d.0)
        (order_by-IsDescending xs d.1)

  pub order_by-filter :
      (p : A → Bool) (xs : List A)
      → AreDistinct xs
      → order_by key (filter p xs) ≡ filter p (order_by key xs)
  unfolding order_by
  order_by-filter p [] d = refl
  order_by-filter p (a ∷ xs) d =
      let ih = order_by-filter p xs d.1 in
      let step = filter-place p a (order_by key xs) (order_by-IsDescending xs d.1) in
      elim (Bool-cases (p a)) [
        | inl e ↦ ground (arith, e, ih, step)
        | inr e ↦ ground (arith, e, ih, step)
      ]
