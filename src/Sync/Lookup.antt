-- ===== src/Sync/Lookup.antt =====
-- The external ids that a run knows are those that the table has.
use assetlog.Prelude.{
  text_same, ℕ, String, Bool, ◌||◌, ◌≡◌, refl, true, false, none, some, List, [], ◌∷◌, ◌++◌, All,
  arith, ◌==ₛ◌, eq_iff, inl, inr, Bool-cases, Option-cases, All-append,
}
use assetlog.Db.{Transaction}
use assetlog.Sync.Trades.{Incoming, is_key, has_key, elem, existing_tx_external_ids, new_row}

text_comm : (s t : String) → (s ==ₛ t) ≡ (t ==ₛ s)
text_comm s t = ground (arith, eq_iff s t, eq_iff t s)

module _ (source : String) where
  pub has_key-append :
      (e : String) (rows : List Transaction) (row : Incoming) (asset_id id : ℕ)
      → has_key source e (rows ++ new_row source row asset_id id ∷ [])
        ≡ (has_key source e rows || row.external_id ==ₛ e)
  has_key-append e [] row asset_id id = ground (arith, text_same source)
  has_key-append e (tx ∷ rows) row asset_id id =
      ground (arith, has_key-append e rows row asset_id id)

  pub elem-existing :
      (ids : List String) (e : String) (rows : List Transaction)
      → elem e ids ≡ true
      → elem e (existing_tx_external_ids source ids rows) ≡ has_key source e rows
  unfolding existing_tx_external_ids
  elem-existing ids e [] known = refl
  elem-existing ids e (tx ∷ rows) known = elim (Option-cases tx.external_id) [
    | inl null ↦ ground (arith, elem-existing ids e rows known)
    | inr (id, keyed) ↦ elim (Bool-cases (id ==ₛ e)) [
      | inl same ↦
          let there : elem id ids ≡ true = rw ((eq_iff id e).0 same) known in
          ground (arith, elem-existing ids e rows known)
      | inr other ↦ ground (arith, elem-existing ids e rows known)
    ]
  ]

-- Two rows with one key: what UNIQUE (external_source, external_id) forbids. A NULL clashes with
-- nothing.
abbrev clash : Transaction → Transaction → Bool
clash x y = elim x.external_source [
  | none ↦ false
  | some source ↦ elim x.external_id [ none ↦ false | some id ↦ is_key source id y ]
]

abbrev pub UniqueKeys : List Transaction → Type 0
UniqueKeys [] = Unit
UniqueKeys (x ∷ rows) = All (λ y. clash x y ≡ false) rows × UniqueKeys rows

clash-new_row :
    (source : String) (x : Transaction) (row : Incoming) (asset_id id : ℕ)
    → is_key source row.external_id x ≡ false
    → clash x (new_row source row asset_id id) ≡ false
clash-new_row source x row asset_id id free = elim (Option-cases x.external_source) [
  | inl null ↦ ground arith
  | inr (s, sourced) ↦ elim (Option-cases x.external_id) [
    | inl null ↦ ground arith
    | inr (e, keyed) ↦ ground (arith, text_comm source s, text_comm row.external_id e)
  ]
]

clash-append :
    (source : String) (x : Transaction) (rows : List Transaction) (row : Incoming) (asset_id id : ℕ)
    → is_key source row.external_id x ≡ false
    → All (λ y. clash x y ≡ false) rows
    → All (λ y. clash x y ≡ false) (rows ++ new_row source row asset_id id ∷ [])
clash-append source x rows row asset_id id free h =
    All-append (λ y. clash x y ≡ false) rows _ h (clash-new_row source x row asset_id id free, tt)

pub UniqueKeys-append :
    (source : String) (rows : List Transaction) (row : Incoming) (asset_id id : ℕ)
    → has_key source row.external_id rows ≡ false
    → UniqueKeys rows
    → UniqueKeys (rows ++ new_row source row asset_id id ∷ [])
UniqueKeys-append source [] row asset_id id free unique = (tt, tt)
UniqueKeys-append source (x ∷ rows) row asset_id id free unique =
    let here : is_key source row.external_id x ≡ false = ground arith in
    let later : has_key source row.external_id rows ≡ false = ground arith in
    (
      clash-append source x rows row asset_id id here unique.0,
      UniqueKeys-append source rows row asset_id id later unique.1,
    )
