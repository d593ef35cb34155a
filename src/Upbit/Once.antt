-- ===== src/Upbit/Once.antt =====
-- The uuids of the history.
use mathlib.Core.Path.{subst}
use assetlog.Prelude.{
  ℕ, zero, suc, ◌≡◌, refl, ap, sym, String, Bool, true, false, Option, none, some, List, [], ◌∷◌,
  ◌++◌, map, length, arith, eq_iff, inl, inr, Bool-cases, Option-cases, ◌==ₛ◌, ◌||◌, ◌&&◌,
  if◌then◌else◌,
}
use assetlog.Sync.Records.{ExternalTrade}
use assetlog.Sync.Trades.{elem}
use assetlog.Sync.Replacing.{NoRepeat}
use assetlog.Upbit.Raw.{RawOrder, Python, parts_at, positive, or_price}
use assetlog.Upbit.Orders.{
  trade_of, swapped, time_of, native_trade, native_order, map_native_order, Paging, with_trade,
  older, scan_new, scan_page, next_cursor, fetch_pages, max_pages, fetch_all_closed_orders,
}

abbrev pub uuids : List ExternalTrade → List String
uuids trades = map (λ (t : ExternalTrade). t.external_id) trades

abbrev HasId : String → Option ExternalTrade → Type 0
HasId uuid none = Unit
HasId uuid (some t) = t.external_id ≡ uuid

elem-append :
    (e : String) (ids : List String) (i : String)
    → elem e (ids ++ i ∷ []) ≡ (elem e ids || (i ==ₛ e))
elem-append e [] i = ground arith
elem-append e (j ∷ ids) i = ground (arith, elem-append e ids i)

uuids-append :
    (trades : List ExternalTrade) (t : ExternalTrade)
    → uuids (trades ++ t ∷ []) ≡ uuids trades ++ t.external_id ∷ []
uuids-append [] t = refl
uuids-append (x ∷ trades) t = ap (λ ids. x.external_id ∷ ids) (uuids-append trades t)

NoRepeat-append :
    (ids : List String) (e : String) → NoRepeat ids → elem e ids ≡ false → NoRepeat (ids ++ e ∷ [])
NoRepeat-append [] e h new = (refl, tt)
NoRepeat-append (i ∷ ids) e h new = (
  ground (arith, h.0, new, eq_iff i e, eq_iff e i, elem-append i ids e),
  NoRepeat-append ids e h.1 (ground arith),
)

module _ (py : Python) where
  trade_of-HasId :
      (id : String) (buys : Bool) (parts : Option (String × String)) (amount price at : Option ℕ)
      → HasId id (trade_of py id buys parts amount price at)
  trade_of-HasId id buys none amount price at = tt
  trade_of-HasId id buys (some parts) none price at = tt
  trade_of-HasId id buys (some parts) (some amount) none at = tt
  trade_of-HasId id buys (some parts) (some amount) (some price) none = tt
  trade_of-HasId id buys (some parts) (some amount) (some price) (some at) = refl

  HasId-if :
      (id : String) (b : Bool) (t : Option ExternalTrade)
      → HasId id t
      → HasId id (if b then t else none)
  HasId-if id true t h = h
  HasId-if id false t h = tt

  native_trade-HasId :
      (uuid side market : String) (raw : RawOrder)
      → HasId uuid (native_trade py uuid side market raw)
  unfolding native_trade
  native_trade-HasId uuid side market raw =
      trade_of-HasId uuid (side ==ₛ "bid") (swapped (parts_at "-" market))
        (positive raw.executed_volume) (positive (or_price raw.avg_price raw.price))
        (time_of py raw.created_at)

  native_order-HasId :
      (uuid : String) (side market state : Option String) (raw : RawOrder)
      → HasId uuid (native_order py (some uuid) side market state raw)
  native_order-HasId uuid none market state raw = tt
  native_order-HasId uuid (some side) none state raw = tt
  native_order-HasId uuid (some side) (some market) none raw = tt
  native_order-HasId uuid (some side) (some market) (some state) raw =
      HasId-if uuid (state ==ₛ "done" && (side ==ₛ "bid" || side ==ₛ "ask"))
        (native_trade py uuid side market raw) (native_trade-HasId uuid side market raw)

  -- The trades are of different orders, all of which have been seen.
  abbrev Seen : Paging → Type 0
  Seen p =
      NoRepeat (uuids p.trades)
      × ((e : String) → elem e (uuids p.trades) ≡ true → elem e p.seen ≡ true)

  with_trade-Seen :
      (uuid : String) (t : Option ExternalTrade) (trades : List ExternalTrade) (seen : List String)
      (oldest : Option String)
      → HasId uuid t
      → elem uuid seen ≡ false
      → Seen (record { seen = seen; trades = trades; oldest = oldest })
      → Seen (record { seen = uuid ∷ seen; trades = with_trade t trades; oldest = oldest })
  with_trade-Seen uuid none trades seen oldest id new h =
      (h.0, λ e there. ground (arith, h.1 e there))
  with_trade-Seen uuid (some t) trades seen oldest id new h =
      let fresh : elem t.external_id (uuids trades) ≡ false =
        elim (Bool-cases (elem t.external_id (uuids trades))) [
          | inl old ↦ absurd (ground (arith, h.1 t.external_id old, ap (λ i. elem i seen) id, new))
          | inr free ↦ free
        ] in
      (
        rw (uuids-append trades t) (NoRepeat-append (uuids trades) t.external_id h.0 fresh),
        λ e there. ground (
          arith,
          h.1 e,
          elem-append e (uuids trades) t.external_id,
          ap (elem e) (uuids-append trades t),
          there,
          id,
          eq_iff uuid e,
          eq_iff t.external_id e,
        ),
      )

  scan_new-Seen :
      (uuid : Option String) (raw : RawOrder) (p : Paging)
      → raw.uuid ≡ uuid
      → Seen p
      → Seen (scan_new py uuid raw p)
  scan_new-Seen none raw p same h = h
  scan_new-Seen (some uuid) raw p same h = elim (Bool-cases (elem uuid p.seen)) [
    | inl old ↦ rw old h
    | inr new ↦
        let id : HasId uuid (map_native_order py raw) =
          subst (λ u. HasId uuid (native_order py u raw.side raw.market raw.state raw)) (sym same)
            (native_order-HasId uuid raw.side raw.market raw.state raw) in
        rw new (
          with_trade-Seen uuid (map_native_order py raw) p.trades p.seen
            (older raw.created_at p.oldest) id new h)
  ]

  scan_page-Seen : (raws : List RawOrder) (p : Paging) → Seen p → Seen (scan_page py raws p)
  unfolding scan_page
  scan_page-Seen [] p h = h
  scan_page-Seen (raw ∷ raws) p h =
      scan_page-Seen raws (scan_new py raw.uuid raw p) (scan_new-Seen raw.uuid raw p refl h)

  module _ (orders : Option String → Option (List RawOrder)) where
    fetch_pages-Seen :
        (pages : ℕ) (end_time : Option String) (p : Paging)
        → Seen p
        → (last : Paging) × (fetch_pages py orders pages end_time p ≡ last.trades) × Seen last
    unfolding fetch_pages
    fetch_pages-Seen zero end_time p h = (p, refl, h)
    fetch_pages-Seen (suc pages) end_time p h = elim (Option-cases (orders end_time)) [
      | inl failed ↦ (p, rw (failed, fetch_pages) refl, h)
      | inr ([], page) ↦ (p, rw (page, fetch_pages) refl, h)
      | inr (raw ∷ raws, page) ↦
          let begun : Paging = record p { oldest = none } in
          let p' = scan_page py (raw ∷ raws) begun in
          let seen : Seen p' = scan_page-Seen (raw ∷ raws) begun h in
          elim (Option-cases (next_cursor (length (raw ∷ raws)) p'.oldest end_time)) [
            | inl over ↦ (p', rw (page, over, fetch_pages) refl, seen)
            | inr (cursor, on) ↦
                let (last, e, h') = fetch_pages-Seen pages (some cursor) p' seen in
                (last, rw (page, on, fetch_pages) e, h')
          ]
    ]

-- However the exchange pages its answers, and whatever it repeats, the history has no order twice.
pub fetch_all_closed_orders-NoRepeat :
    (py : Python) (orders : Option String → Option (List RawOrder))
    → NoRepeat (uuids (fetch_all_closed_orders py orders))
unfolding fetch_all_closed_orders
fetch_all_closed_orders-NoRepeat py orders =
    let start : Paging = record { seen = []; trades = []; oldest = none } in
    let (last, e, h) = fetch_pages-Seen py orders max_pages none start (tt, λ e h. h) in rw e h.0
