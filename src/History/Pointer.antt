-- ===== src/History/Pointer.antt =====
-- The forward pointer of `_price_at` against a search of the whole list.
use assetlog.Prelude.{
  ℕ, zero, suc, ◌+◌, ◌≤◌, ◌<◌, ◌≡◌, refl, ap, ◌∙◌, sym, Option, none, some, List, [], ◌∷◌, All, leb,
  drop, length, true, get_elem?, arith, inl, inr, Bool-cases, if◌then◌else◌, ◌==◌,
}
use assetlog.Prelude.Sorting.{Ascending}
use assetlog.Prelude.Keyed.{Keyed, at_key_or, set_key, at_key_or-set_key}
use assetlog.History.Rows.{Price}
use assetlog.History.Points.{advance, before, is_empty, price_at}

abbrev pub when : Price → ℕ
when p = p.at

-- The last price of the list that is not later than a time.
unfoldable pub last_until : ℕ → List Price → Option Price
last_until ts [] = none
last_until ts (p ∷ pts) =
    let later = last_until ts pts in
    if leb p.at ts then elim later [ none ↦ some p | some l ↦ some l ] else later

-- How many prices at the front are not later than a time.
pub lead : ℕ → List Price → ℕ
lead ts [] = 0
lead ts (p ∷ pts) = let more = lead ts pts in if leb p.at ts then suc more else 0

lead_mono : (ts later : ℕ) (pts : List Price) → ts ≤ later → lead ts pts ≤ lead later pts
unfolding lead
lead_mono ts later [] h = omega arith
lead_mono ts later (p ∷ pts) h = ground (arith, h, lead_mono ts later pts h)

advance-count : (ts : ℕ) (pts : List Price) (ptr : ℕ) → advance ts pts ptr ≡ ptr + lead ts pts
unfolding advance lead
advance-count ts [] ptr = omega arith
advance-count ts (p ∷ pts) ptr = ground (arith, advance-count ts pts (suc ptr))

lead-drop :
    (ts : ℕ) (pts : List Price) (ptr : ℕ)
    → ptr ≤ lead ts pts
    → ptr + lead ts (drop ptr pts) ≡ lead ts pts
unfolding lead
lead-drop ts pts zero h = omega arith
lead-drop ts [] (suc ptr) h = absurd (omega (arith, h))
lead-drop ts (p ∷ pts) (suc ptr) h = ground (arith, h, lead-drop ts pts ptr)

-- From any place that it may have reached, the pointer moves to the same place.
advance_lem :
    (ts : ℕ) (pts : List Price) (ptr : ℕ)
    → ptr ≤ lead ts pts
    → advance ts (drop ptr pts) ptr ≡ lead ts pts
advance_lem ts pts ptr h = advance-count ts (drop ptr pts) ptr ∙ lead-drop ts pts ptr h

pub none_until :
    (ts n : ℕ) (pts : List Price)
    → ts < n
    → All (λ (p : Price). n ≤ p.at) pts
    → last_until ts pts ≡ none
unfolding last_until
none_until ts n [] lt h = refl
none_until ts n (p ∷ pts) lt h = ground (arith, lt, h.0, none_until ts n pts lt h.1)

abbrev or_this : Price → Option Price → Option Price
or_this p none = some p
or_this p (some l) = some l

found_at :
    (p : Price) (pts : List Price) (n : ℕ)
    → n < length pts
    → get_elem? pts n ≡ or_this p (get_elem? pts n)
found_at p [] n h = absurd (omega (arith, h))
found_at p (x ∷ pts) zero h = refl
found_at p (x ∷ pts) (suc n) h = found_at p pts n (omega (arith, h))

after_one :
    (p : Price) (pts : List Price) (n : ℕ)
    → n ≤ length pts
    → before (p ∷ pts) (suc n) ≡ or_this p (before pts n)
after_one p pts zero h = refl
after_one p [] (suc n) h = absurd (omega (arith, h))
after_one p (x ∷ pts) (suc zero) h = refl
after_one p (x ∷ pts) (suc (suc n)) h = found_at p pts n (omega (arith, h))

lead_bound : (ts : ℕ) (pts : List Price) → lead ts pts ≤ length pts
unfolding lead
lead_bound ts [] = omega arith
lead_bound ts (p ∷ pts) = ground (arith, lead_bound ts pts)

empty_until : (ts : ℕ) (pts : List Price) → is_empty pts ≡ true → last_until ts pts ≡ none
unfolding last_until
empty_until ts [] h = refl
empty_until ts (p ∷ pts) h = absurd (ground arith)

before-lead :
    (ts : ℕ) (pts : List Price) → Ascending when pts → before pts (lead ts pts) ≡ last_until ts pts
unfolding last_until lead
before-lead ts [] h = refl
before-lead ts (p ∷ pts) h = elim (Bool-cases (leb p.at ts)) [
  | inl in_time ↦
      rw in_time (
        after_one p pts (lead ts pts) (lead_bound ts pts) ∙ ap (or_this p) (before-lead ts pts h.1))
  | inr late ↦ rw (late, none_until ts p.at pts (ground arith) h.0) refl
]

module _ (price_index : Keyed (List Price)) where
  abbrev pub prices : ℕ → List Price
  prices sym_id = at_key_or sym_id [] price_index

  -- No pointer has passed a price that is later than the time.
  abbrev pub Fits : ℕ → Keyed ℕ → Type 0
  Fits ts pointer = (sym_id : ℕ) → at_key_or sym_id 0 pointer ≤ lead ts (prices sym_id)

  pub Fits-later :
      (ts later : ℕ) (pointer : Keyed ℕ) → ts ≤ later → Fits ts pointer → Fits later pointer
  Fits-later ts later pointer le fits s = omega (arith, fits s, lead_mono ts later (prices s) le)

  pub Fits-start : (ts : ℕ) → Fits ts []
  unfolding at_key_or
  Fits-start ts s = omega arith

  set_key-Fits :
      (sym_id other ts ptr : ℕ) (pointer : Keyed ℕ)
      → Fits ts pointer
      → ptr ≡ lead ts (prices sym_id)
      → at_key_or other 0 (set_key sym_id ptr pointer) ≤ lead ts (prices other)
  set_key-Fits sym_id other ts ptr pointer fits e = elim (Bool-cases (sym_id == other)) [
    | inl same ↦
        let eq : sym_id ≡ other = ground arith in
        let moved : ptr ≡ lead ts (prices other) = e ∙ ap (λ s. lead ts (prices s)) eq in
        rw (at_key_or-set_key sym_id other ptr 0 pointer, same) (omega (arith, moved))
    | inr apart ↦ rw (at_key_or-set_key sym_id other ptr 0 pointer, apart) (fits other)
  ]

  pub price_at_lem :
      (sym_id ts : ℕ) (pointer : Keyed ℕ)
      → Ascending when (prices sym_id)
      → Fits ts pointer
      → ((price_at sym_id ts price_index pointer).0 ≡ last_until ts (prices sym_id))
        × Fits ts (price_at sym_id ts price_index pointer).1
  unfolding price_at
  price_at_lem sym_id ts pointer up fits =
      let pts = prices sym_id in
      let moved = advance_lem ts pts (at_key_or sym_id 0 pointer) (fits sym_id) in
      elim (Bool-cases (is_empty pts)) [
        | inl nothing ↦ rw nothing (sym (empty_until ts pts nothing), fits)
        | inr found ↦ rw found (
          ap (before pts) moved ∙ before-lead ts pts up,
          λ other. set_key-Fits sym_id other ts _ pointer fits moved,
        )
      ]
