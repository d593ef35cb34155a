-- ===== src/Performance/Cached.antt =====
-- The rates that are fetched beforehand are all that the transactions of the window need.
use assetlog.Prelude.{
  ℕ, ◌≡◌, refl, sym, ap, ◌∙◌, String, Bool, true, false, Option, none, some, List, [], ◌∷◌, ◌++◌,
  All, All-mono, any, filter, ◌==ₛ◌, ◌&&◌, arith, eq_iff, text_same, inl, inr, Bool-cases,
  Option-cases, if◌then◌else◌,
}
use assetlog.Prelude.Int.{ℤ, pos}
use assetlog.Prelude.Keyed.{Keyed, at_key_or}
use assetlog.Fx.Service.{FxStore, convert_at}
use assetlog.History.Rows.{AllTxRow}
use assetlog.Performance.Flows.{in_window, gross}
use assetlog.Performance.Moments.{unconverted, is_none}
use assetlog.Performance.Rates.{
  FxKey, same_key, hour_of, add_key, add_symbols, add_timestamps, fetch_one, fetch_all, cached,
  scaled, fx_at_sync,
}
use assetlog.Performance.Service.{add_flow_keys, unique_pairs, among, sorted_set, times_of}

abbrev pub Has : FxKey → List FxKey → Type 0
Has key pairs = any (λ k. same_key k key) pairs ≡ true

same_key_self : (key : FxKey) → same_key key key ≡ true
same_key_self key = ground (arith, text_same key.from_cur, text_same key.to_cur)

add_key-Has : (key : FxKey) (pairs : List FxKey) → Has key (add_key key pairs)
add_key-Has key pairs = elim (Bool-cases (any (λ k. same_key k key) pairs)) [
  | inl there ↦ rw there there
  | inr new ↦ rw (new, same_key_self key) refl
]

add_key-keeps :
    (key other : FxKey) (pairs : List FxKey) → Has key pairs → Has key (add_key other pairs)
add_key-keeps key other pairs h = elim (Bool-cases (any (λ k. same_key k other) pairs)) [
  | inl there ↦ rw there h
  | inr new ↦ elim (Bool-cases (same_key other key)) [
    | inl e ↦ rw (new, e) refl
    | inr e ↦ rw (new, e) h
  ]
]

module _ (key : FxKey) (currency : String) where
  unless-keeps :
      (b : Bool) (other : FxKey) (pairs : List FxKey)
      → Has key pairs
      → Has key (if b then pairs else add_key other pairs)
  unless-keeps true other pairs h = h
  unless-keeps false other pairs h = add_key-keeps key other pairs h

  add_symbols-keeps :
      (symbol_currency : Keyed String) (ts : ℕ) (ids : List ℕ) (pairs : List FxKey)
      → Has key pairs
      → Has key (add_symbols currency symbol_currency ts ids pairs)
  unfolding add_symbols
  add_symbols-keeps symbol_currency ts [] pairs h = h
  add_symbols-keeps symbol_currency ts (sym_id ∷ ids) pairs h =
      add_symbols-keeps symbol_currency ts ids _
        (unless-keeps (at_key_or sym_id currency symbol_currency ==ₛ currency) _ pairs h)

  add_timestamps-keeps :
      (symbol_currency : Keyed String) (ids timestamps : List ℕ) (pairs : List FxKey)
      → Has key pairs
      → Has key (add_timestamps currency symbol_currency ids timestamps pairs)
  unfolding add_timestamps
  add_timestamps-keeps symbol_currency ids [] pairs h = h
  add_timestamps-keeps symbol_currency ids (ts ∷ timestamps) pairs h =
      add_timestamps-keeps symbol_currency ids timestamps _
        (add_symbols-keeps symbol_currency ts ids pairs h)

  add_flow_keys-keeps :
      (txs : List AllTxRow) (pairs : List FxKey)
      → Has key pairs
      → Has key (add_flow_keys currency txs pairs)
  unfolding add_flow_keys
  add_flow_keys-keeps [] pairs h = h
  add_flow_keys-keeps (tx ∷ txs) pairs h = add_flow_keys-keeps txs _ (add_key-keeps key _ pairs h)

abbrev pub key_of : String → AllTxRow → FxKey
key_of currency tx = record { from_cur = tx.currency; to_cur = currency; at = hour_of tx.traded_at }

add_flow_keys-All :
    (currency : String) (txs : List AllTxRow) (pairs : List FxKey)
    → All (λ tx. Has (key_of currency tx) (add_flow_keys currency txs pairs)) txs
unfolding add_flow_keys
add_flow_keys-All currency [] pairs = tt
add_flow_keys-All currency (tx ∷ txs) pairs = (
  add_flow_keys-keeps (key_of currency tx) currency txs _ (add_key-Has (key_of currency tx) pairs),
  add_flow_keys-All currency txs _,
)

same_key-eq : (k key : FxKey) → same_key k key ≡ true → k ≡ key
same_key-eq k key same = ground (arith, eq_iff k.from_cur key.from_cur, eq_iff k.to_cur key.to_cur)

both_none : (b : Bool) → (if◌then◌else◌ {A = Option ℤ} b none none) ≡ none
both_none true = refl
both_none false = refl

is_none-scaled : (amount : ℤ) (rate : Option ℤ) → is_none (scaled amount rate) ≡ is_none rate
is_none-scaled amount none = refl
is_none-scaled amount (some rate) = refl

pub unique_pairs-All :
    (currency : String) (symbol_currency : Keyed String) (ids : List ℕ) (txs : List AllTxRow)
    (start_dt end_dt : ℕ)
    → All
        (λ tx.
          Has (key_of currency tx) (unique_pairs currency symbol_currency ids txs start_dt end_dt))
        txs
unfolding unique_pairs
unique_pairs-All currency symbol_currency ids txs start_dt end_dt =
    All-mono _ _ txs
      (λ tx h.
        add_timestamps-keeps (key_of currency tx) currency symbol_currency ids
          (sorted_set (times_of txs ++ start_dt ∷ end_dt ∷ [])) (add_flow_keys currency txs []) h)
      (add_flow_keys-All currency txs [])

module _ (fx : FxStore) where
  fetch_one-same : (k key : FxKey) → same_key k key ≡ true → fetch_one fx k ≡ fetch_one fx key
  fetch_one-same k key same = ap (fetch_one fx) (same_key-eq k key same)

  -- The cache gives for a key that was collected what its fetch gives.
  cached-fetch_all :
      (key : FxKey) (pairs : List FxKey)
      → cached key (fetch_all fx pairs)
        ≡ (if any (λ k. same_key k key) pairs then fetch_one fx key else none)
  unfolding cached fetch_all
  cached-fetch_all key [] = refl
  cached-fetch_all key (k ∷ pairs) = elim (Bool-cases (same_key k key)) [
    | inl same ↦ elim (Option-cases (fetch_one fx k)) [
      | inl e ↦
          let nothing : fetch_one fx key ≡ none = sym (fetch_one-same k key same) ∙ e in
          rw (same, e) (cached-fetch_all key pairs ∙ rw nothing (both_none _))
      | inr (rate, e) ↦ rw (same, e) (rw same (sym e ∙ fetch_one-same k key same))
    ]
    | inr other ↦ elim (Option-cases (fetch_one fx k)) [
      | inl e ↦ rw (other, e) (cached-fetch_all key pairs)
      | inr (rate, e) ↦ rw (other, e) (rw other (cached-fetch_all key pairs))
    ]
  ]

  -- A transaction in a currency other than the report's, whose rate of its hour is not to be had.
  abbrev pub lacks_rate : String → AllTxRow → Bool
  lacks_rate currency tx =
      is_none (convert_at (pos 1) tx.currency currency (hour_of tx.traded_at) fx)

  convert_at-same :
      (currency : String) (tx : AllTxRow)
      → (tx.currency ==ₛ currency) ≡ true
      → lacks_rate currency tx ≡ false
  unfolding convert_at
  convert_at-same currency tx e = rw e refl

  fx_at_sync-lacks_rate :
      (currency : String) (pairs : List FxKey) (tx : AllTxRow) (amount : ℤ)
      → Has (key_of currency tx) pairs
      → is_none (fx_at_sync (fetch_all fx pairs) amount tx.currency currency tx.traded_at)
        ≡ lacks_rate currency tx
  unfolding fx_at_sync fetch_one
  fx_at_sync-lacks_rate currency pairs tx amount h = elim (Bool-cases (tx.currency ==ₛ currency)) [
    | inl e ↦ rw (convert_at-same currency tx e, e) refl
    | inr e ↦
        rw (e, cached-fetch_all (key_of currency tx) pairs, h)
          (is_none-scaled amount (fetch_one fx (key_of currency tx)) ∙ rw e refl)
  ]

  unconverted-lacks_rate :
      (currency : String) (ws we : ℕ) (pairs : List FxKey) (tx : AllTxRow)
      → Has (key_of currency tx) pairs
      → unconverted currency (fx_at_sync (fetch_all fx pairs)) ws we tx
        ≡ (in_window ws we tx && lacks_rate currency tx)
  unconverted-lacks_rate currency ws we pairs tx h =
      ap (λ b. in_window ws we tx && b) (fx_at_sync-lacks_rate currency pairs tx (gross tx) h)

  -- A transaction of the window whose rate is not to be had.
  abbrev pub blocks : String → ℕ → ℕ → AllTxRow → Bool
  blocks currency ws we tx = in_window ws we tx && lacks_rate currency tx

  pub any-unconverted :
      (currency : String) (ws we : ℕ) (pairs : List FxKey) (txs : List AllTxRow)
      → All (λ tx. Has (key_of currency tx) pairs) txs
      → any (unconverted currency (fx_at_sync (fetch_all fx pairs)) ws we) txs
        ≡ any (blocks currency ws we) txs
  any-unconverted currency ws we pairs [] h = refl
  any-unconverted currency ws we pairs (tx ∷ txs) h =
      rw
        (
          unconverted-lacks_rate currency ws we pairs tx h.0,
          any-unconverted currency ws we pairs txs h.1,
        )
        refl

  pub any-among :
      (currency : String) (ws we : ℕ) (txs : List AllTxRow)
      → any (blocks currency ws we) (among ws we txs) ≡ any (blocks currency ws we) txs
  unfolding filter
  any-among currency ws we [] = refl
  any-among currency ws we (tx ∷ txs) = elim (Bool-cases (in_window ws we tx)) [
    | inl within ↦ rw (within, within, any-among currency ws we txs) refl
    | inr out ↦ rw (out, any-among currency ws we txs) refl
  ]
