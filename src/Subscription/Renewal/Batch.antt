-- ===== src/Subscription/Renewal/Batch.antt =====
-- A loop that updates rows by their ids, over the rows that a query found, treats each row by itself:
-- ids are a primary key.
use angavu_intelligence_back.Common.{
  ◌≡◌, refl, ap, ap₂, ◌∙◌, Bool, false, List, [], ◌∷◌, map, String, str_eq, str_eq_iff, str_eq_refl,
  retain, All, if◌then◌else◌, Bool-cases, inl, inr, arith,
}
use angavu_intelligence_back.Subscription.{SubscriptionRow}
use angavu_intelligence_back.Subscription.Store.{has_id, update_where}

abbrev Fresh : String → List SubscriptionRow → Type 0
Fresh id = All (λ r. str_eq r.id id ≡ false)

-- The primary key of the table.
abbrev pub DistinctIds : List SubscriptionRow → Type 0
DistinctIds [] = Unit
DistinctIds (r ∷ rows) = Fresh r.id rows × DistinctIds rows

module _ (act : SubscriptionRow → SubscriptionRow → SubscriptionRow) where
  -- The updates for the rows of `ds`, one after the other.
  unfoldable pub apply_all : List SubscriptionRow → List SubscriptionRow → List SubscriptionRow
  apply_all [] rows = rows
  apply_all (d ∷ ds) rows = apply_all ds (update_where (has_id d.id) (act d) rows)

  one_row : List SubscriptionRow → SubscriptionRow → SubscriptionRow
  one_row [] r = r
  one_row (d ∷ ds) r = one_row ds (if has_id d.id r then act d r else r)

  apply_all-nil : (ds : List SubscriptionRow) → apply_all ds [] ≡ []
  unfolding apply_all update_where
  apply_all-nil [] = refl
  apply_all-nil (d ∷ ds) = apply_all-nil ds

  apply_all-cons :
      (ds : List SubscriptionRow) (r : SubscriptionRow) (rows : List SubscriptionRow)
      → apply_all ds (r ∷ rows) ≡ one_row ds r ∷ apply_all ds rows
  unfolding apply_all one_row update_where
  apply_all-cons [] r rows = refl
  apply_all-cons (d ∷ ds) r rows =
      apply_all-cons ds (if has_id d.id r then act d r else r)
        (update_where (has_id d.id) (act d) rows)

  one_row-Fresh :
      (ds : List SubscriptionRow) (r : SubscriptionRow) → Fresh r.id ds → one_row ds r ≡ r
  unfolding one_row
  one_row-Fresh [] r h = refl
  one_row-Fresh (d ∷ ds) r h =
      let other : str_eq r.id d.id ≡ false =
        ground (arith, str_eq_iff r.id d.id, str_eq_iff d.id r.id, h.0) in
      rw (other, one_row) (one_row-Fresh ds r h.1)

  Fresh-retain :
      (p : SubscriptionRow → Bool) (id : String) (rows : List SubscriptionRow)
      → Fresh id rows
      → Fresh id (retain p rows)
  unfolding retain
  Fresh-retain p id [] h = tt
  Fresh-retain p id (r ∷ rows) h = ground (arith, Fresh-retain p id rows h.1)

  update-Fresh :
      (id : String) (f : SubscriptionRow → SubscriptionRow) (rows : List SubscriptionRow)
      → Fresh id rows
      → update_where (has_id id) f rows ≡ rows
  unfolding update_where
  update-Fresh id f [] h = refl
  update-Fresh id f (r ∷ rows) h = ground (arith, update-Fresh id f rows h.1)

  update-first :
      (r : SubscriptionRow) (f : SubscriptionRow → SubscriptionRow) (rows : List SubscriptionRow)
      → Fresh r.id rows
      → update_where (has_id r.id) f (r ∷ rows) ≡ f r ∷ rows
  unfolding update_where
  update-first r f rows h = ap₂ ◌∷◌ (ground (arith, str_eq_refl r.id)) (update-Fresh r.id f rows h)

  module _ (keeps : (d r : SubscriptionRow) → (act d r).id ≡ r.id)
      (p : SubscriptionRow → Bool) where
    abbrev pub acted : SubscriptionRow → SubscriptionRow
    acted r = if p r then act r r else r

    pub apply_all-map :
        (rows : List SubscriptionRow)
        → DistinctIds rows
        → apply_all (retain p rows) rows ≡ map acted rows
    unfolding retain apply_all
    apply_all-map [] h = refl
    apply_all-map (r ∷ rows) h = elim (Bool-cases (p r)) [
      | inl here ↦
          let ds = retain p rows in
          let alone : Fresh (act r r).id ds = rw (keeps r r) (Fresh-retain p r.id rows h.0) in
          rw here (
            ap (apply_all ds) (update-first r (act r) rows h.0)
            ∙ apply_all-cons ds (act r r) rows
            ∙ ap₂ ◌∷◌ (one_row-Fresh ds (act r r) alone) (apply_all-map rows h.1))
      | inr there ↦
          let ds = retain p rows in
          rw there (
            apply_all-cons ds r rows
            ∙ ap₂ ◌∷◌ (one_row-Fresh ds r (Fresh-retain p r.id rows h.0)) (apply_all-map rows h.1))
    ]

module _ (f : SubscriptionRow → SubscriptionRow)
    (keeps : (r : SubscriptionRow) → (f r).id ≡ r.id) where
  map-Fresh : (id : String) (rows : List SubscriptionRow) → Fresh id rows → Fresh id (map f rows)
  map-Fresh id [] h = tt
  map-Fresh id (r ∷ rows) h = (rw (keeps r) h.0, map-Fresh id rows h.1)

  pub map-DistinctIds : (rows : List SubscriptionRow) → DistinctIds rows → DistinctIds (map f rows)
  map-DistinctIds [] h = tt
  map-DistinctIds (r ∷ rows) h = (rw (keeps r) (map-Fresh r.id rows h.0), map-DistinctIds rows h.1)
