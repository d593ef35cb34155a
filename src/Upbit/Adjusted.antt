-- ===== src/Upbit/Adjusted.antt =====
-- What the adjustments do to the coins' quantities.
use assetlog.Prelude.{
  ℕ, ◌+◌, ◌*◌, ◌≤◌, ◌<◌, ◌≡◌, refl, ap, ◌∙◌, sym, String, Bool, true, false, Option, none, some,
  List, [], ◌∷◌, ◌++◌, length, filter, find, arith, eq_iff, inl, inr, ◌⊎◌, Bool-cases, ltb, ◌==ₛ◌,
  if◌then◌else◌, text_same,
}
use assetlog.Prelude.Int.{
  ℤ, pos, negsuc, pos_part, neg_part, ◌+ℤ◌, ◌-ℤ◌, ◌*ℤ◌, ltb_ℤ, int_laws, +ℤ_assoc, zero-+ℤ, +ℤ_comm,
}
use assetlog.Prelude.Sums.{sum_of, sum_of-append}
use assetlog.Prelude.Dict.{Dict, get_or, bump, get_or-bump}
use assetlog.Db.{is_buy, buy, sell}
use assetlog.Sync.Records.{ExternalTrade}
use assetlog.Upbit.Raw.{BalanceRow, Python, q, qty_quantum}
use assetlog.Upbit.Balances.{
  signed, history_qty, in_api_unit, adjust, coin_of, adjust_row, put_first, adjust_rows,
  balance_adjustments,
}

-- What a list of trades adds to a coin.
abbrev term : String → ExternalTrade → ℤ
term s t = if t.symbol ==ₛ s then signed t else pos 0

unfoldable pub net : String → List ExternalTrade → ℤ
unfolding sum_of
net s trades = sum_of (term s) trades

get_or-history_qty :
    (s : String) (history : List ExternalTrade) (d : Dict ℤ)
    → get_or s (pos 0) (history_qty history d) ≡ get_or s (pos 0) d +ℤ net s history
unfolding history_qty net sum_of
get_or-history_qty s [] d = omega int_laws
get_or-history_qty s (t ∷ history) d =
    get_or-history_qty s history (bump t.symbol (signed t) d)
    ∙ ap (λ n. n +ℤ net s history) (get_or-bump t.symbol s (signed t) d)
    ∙ +ℤ_assoc (get_or s (pos 0) d) (term s t) (net s history)

round_qty :
    (n : ℕ)
    → (2 * (q n qty_quantum * 1_000_000) ≤ 2 * n + 1_000_000)
      × (2 * n ≤ 2 * (q n qty_quantum * 1_000_000) + 1_000_000)
unfolding q
round_qty n = ground arith

api_unit_parts :
    (n : ℤ)
    → pos_part (in_api_unit n) + neg_part n * 1_000_000
      ≡ neg_part (in_api_unit n) + pos_part n * 1_000_000
unfolding ◌*ℤ◌
api_unit_parts n = ground arith

-- The value of a trade, if there is one.
abbrev term_of : String → Option ExternalTrade → ℤ
term_of s none = pos 0
term_of s (some t) = term s t

-- How far a quantity is from a balance.
abbrev pub distance : ℤ → ℤ → ℕ
distance a b = pos_part (a -ℤ b) + neg_part (a -ℤ b)

apart : (n : ℤ) → (pos_part n ≡ 0) ⊎ (neg_part n ≡ 0)
apart (pos n) = inr refl
apart (negsuc n) = inl refl

-- Moving by the rounded difference brings the quantity to within half a quantum.
moved_close :
    (a h : ℤ) (n : ℕ)
    → let diff = a -ℤ in_api_unit h in
      let size = pos_part diff + neg_part diff in
      (2 * (n * 1_000_000) ≤ 2 * size + 1_000_000)
      → (2 * size ≤ 2 * (n * 1_000_000) + 1_000_000)
      → let t = if ltb_ℤ (pos 0) diff then pos n else pos 0 -ℤ pos n in
        distance a (in_api_unit (h +ℤ t)) < 1_000_000
moved_close a h n below above = elim (Bool-cases (ltb_ℤ (pos 0) (a -ℤ in_api_unit h))) [
  | inl up ↦ rw up (
      grind (
        int_laws,
        api_unit_parts h,
        api_unit_parts (h +ℤ pos n),
        apart (a -ℤ in_api_unit h),
        up,
        apart (a -ℤ in_api_unit (h +ℤ pos n)),
        below,
        above,
      ))
  | inr down ↦ rw down (
      grind (
        int_laws,
        api_unit_parts h,
        api_unit_parts (h +ℤ (pos 0 -ℤ pos n)),
        apart (a -ℤ in_api_unit h),
        down,
        apart (a -ℤ in_api_unit (h +ℤ (pos 0 -ℤ pos n))),
        below,
        above,
      ))
]

sided :
    (up : Bool) (n : ℕ)
    → (if is_buy (if up then buy else sell) then pos n else pos 0 -ℤ pos n)
      ≡ (if up then pos n else pos 0 -ℤ pos n)
sided true n = refl
sided false n = refl

adjust_close :
    (now : ℕ) (held : Dict ℤ) (s : String) (a : ℕ) (avg : Option ℤ)
    → let h = get_or s (pos 0) held in
      distance (pos a) (in_api_unit (h +ℤ term_of s (adjust now held s (some (pos a)) avg)))
      < 1_000_000
unfolding adjust
adjust_close now held s a avg =
    let h = get_or s (pos 0) held in
    let diff = pos a -ℤ in_api_unit h in
    let size = pos_part diff + neg_part diff in
    elim (Bool-cases (ltb size qty_quantum)) [
      | inl small ↦ rw (small, +ℤ_comm h (pos 0), zero-+ℤ h) (ground arith)
      | inr big ↦
          let n = q size qty_quantum in
          rw (big, text_same s, sided (ltb_ℤ (pos 0) diff) n)
            (moved_close (pos a) h n (round_qty size).0 (round_qty size).1)
    ]

net-put_first :
    (s : String) (t : Option ExternalTrade) (out : List ExternalTrade)
    → net s (put_first t out) ≡ term_of s t +ℤ net s out
unfolding net sum_of
net-put_first s none out = sym (zero-+ℤ (net s out))
net-put_first s (some t) out = refl

adjust_other :
    (now : ℕ) (held : Dict ℤ) (s coin : String) (balance avg : Option ℤ)
    → (coin ==ₛ s) ≡ false
    → term_of s (adjust now held coin balance avg) ≡ pos 0
unfolding adjust
adjust_other now held s coin none avg other = refl
adjust_other now held s coin (some (negsuc n)) avg other = refl
adjust_other now held s coin (some (pos a)) avg other =
    let diff = pos a -ℤ in_api_unit (get_or coin (pos 0) held) in
    elim (Bool-cases (ltb (pos_part diff + neg_part diff) qty_quantum)) [
      | inl small ↦ rw small refl
      | inr big ↦ rw (big, other) refl
    ]

module _ (py : Python) (now : ℕ) where
  abbrev is_symbol : String → Option String → Bool
  is_symbol s none = false
  is_symbol s (some coin) = coin ==ₛ s

  -- A row of a coin.
  abbrev pub is_coin : String → BalanceRow → Bool
  is_coin s row = is_symbol s (coin_of py row)

  module _ (held : Dict ℤ) (s : String) where
    other_row :
        (coin : Option String) (row : BalanceRow)
        → is_symbol s coin ≡ false
        → term_of s (adjust_row py now held coin row) ≡ pos 0
    other_row none row e = refl
    other_row (some coin) row e = adjust_other now held s coin row.balance row.avg_buy_price e

    own_row :
        (coin : Option String) (row : BalanceRow)
        → is_symbol s coin ≡ true
        → adjust_row py now held coin row ≡ adjust now held s row.balance row.avg_buy_price
    own_row none row e = absurd (ground arith)
    own_row (some coin) row e =
        ap (λ c. adjust now held c row.balance row.avg_buy_price) ((eq_iff coin s).0 e)

    no_rows :
        (info : List BalanceRow)
        → length (filter (is_coin s) info) ≤ 0
        → net s (adjust_rows py now held info) ≡ pos 0
    unfolding adjust_rows filter net sum_of ◌+ℤ◌
    no_rows [] h = refl
    no_rows (row ∷ info) h =
        let other : is_coin s row ≡ false = ground (arith, h) in
        let first = other_row (coin_of py row) row other in
        let rest = no_rows info (rw other at h) in
        net-put_first s (adjust_row py now held (coin_of py row) row) (adjust_rows py now held info)
        ∙ rw (first, rest) refl

    one_row :
        (info : List BalanceRow) (row : BalanceRow)
        → length (filter (is_coin s) info) ≤ 1
        → find (is_coin s) info ≡ some row
        → net s (adjust_rows py now held info)
          ≡ term_of s (adjust now held s row.balance row.avg_buy_price)
    unfolding adjust_rows filter find
    one_row [] row h e = cc
    one_row (x ∷ info) row h e = elim (Bool-cases (is_coin s x)) [
      | inl here ↦
          let same : x ≡ row = ground (arith, e) in
          let few : length (filter (is_coin s) info) ≤ 0 = ground (arith, h) in
          net-put_first s (adjust_row py now held (coin_of py x) x) (adjust_rows py now held info)
          ∙ rw (own_row (coin_of py x) x here, no_rows info few, same)
              (+ℤ_comm (term_of s (adjust now held s row.balance row.avg_buy_price)) (pos 0)
                ∙ zero-+ℤ (term_of s (adjust now held s row.balance row.avg_buy_price)))
      | inr there ↦
          net-put_first s (adjust_row py now held (coin_of py x) x) (adjust_rows py now held info)
          ∙ rw (other_row (coin_of py x) x there) (
              zero-+ℤ (net s (adjust_rows py now held info))
              ∙ one_row info row (ground (arith, h)) (ground (arith, e)))
    ]

-- After the adjustments, what the trades add up to for a coin is within 10^-10 of its balance, for a
-- coin that the account lists once, with a balance that can be read and is not negative: whatever the
-- history is.
pub balance_adjustments_close :
    (py : Python) (now : ℕ) (info : List BalanceRow) (history : List ExternalTrade) (s : String)
    (row : BalanceRow) (a : ℕ)
    → length (filter (is_coin py now s) info) ≤ 1
    → find (is_coin py now s) info ≡ some row
    → row.balance ≡ some (pos a)
    → distance
        (pos a)
        (in_api_unit (net s (history ++ balance_adjustments py now (some info) history)))
      < qty_quantum
unfolding balance_adjustments net get_or
balance_adjustments_close py now info history s row a once listed known =
    let held = history_qty history [] in
    let total = sum_of-append (term s) history (adjust_rows py now held info) in
    let own = one_row py now held s info row once listed in
    let qty = get_or-history_qty s history [] ∙ zero-+ℤ (net s history) in
    rw (total, own, known, sym qty) (adjust_close now held s a row.avg_buy_price)
