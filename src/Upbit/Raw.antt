-- ===== src/Upbit/Raw.antt =====
-- What Upbit's API answers, and the readings of it in backend/app/adapters/upbit_account.py. A field
-- is none where it is missing or not of the type that the code asks for. A decimal of the API is an
-- integer number of 10^-16; a quantity and a price are in their columns' units. `str.upper` and
-- `datetime.fromisoformat`, which reads a final Z as +00:00, are parameters.
use Prim.Native.Nat.{Ordering}
use Prim.Native.String.{len, slice, compare}
use text.Mathlib.Text.{find?}
use assetlog.Prelude.{
  ℕ, zero, suc, ◌+◌, ◌*◌, ◌/◌, String, Bool, true, false, Option, none, some, List, ◌==ₛ◌, ◌||◌,
  if◌then◌else◌,
}
use assetlog.Prelude.Int.{ℤ, pos, negsuc}

-- An entry of /v1/orders/closed.
pub record RawOrder : Type 0 where
  pub uuid : Option String
  pub side : Option String
  pub market : Option String
  pub state : Option String
  pub executed_volume : Option ℤ
  pub avg_price : Option ℤ
  pub price : Option ℤ
  pub created_at : Option String

-- A closed order as ccxt gives it.
pub record RawTrade : Type 0 where
  pub id : Option String
  pub side : Option String
  pub symbol : Option String
  pub timestamp : Option ℕ
  pub filled : Option ℤ
  pub amount : Option ℤ
  pub average : Option ℤ
  pub price : Option ℤ

-- A row of a balance's `info`.
pub record BalanceRow : Type 0 where
  pub currency : Option String
  pub balance : Option ℤ
  pub avg_buy_price : Option ℤ

-- The account, as ccxt's client shows it; none where a call raises or does not give a list.
pub record Client : Type 0 where
  pub orders_closed : Option String → Option (List RawOrder)
  pub markets : List String
  pub total : List (String × ℤ)
  pub closed_orders : String → Option (List RawTrade)
  pub info : Option (List BalanceRow)

-- The two functions of the standard library.
pub record Python : Type 0 where
  pub upper : String → String
  pub from_iso : String → Option ℕ

-- `_q`, of what is not negative: ROUND_HALF_UP to a multiple of `quantum`.
unfoldable pub q : ℕ → ℕ → ℕ
q value quantum = (2 * value + quantum) / (2 * quantum)

abbrev pub qty_quantum : ℕ
qty_quantum = 1_000_000

abbrev pub price_quantum : ℕ
price_quantum = 10_000_000_000

-- `a < b`, of texts.
abbrev pub text_ltb : String → String → Bool
text_ltb a b = elim (compare a b) [ Ordering.lt ↦ true | _ ↦ false ]

-- `text.partition(sep)`: none where a part is empty, as it is where the separator is missing.
unfoldable pub parts_at : String → String → Option (String × String)
parts_at sep text = elim (find? text sep) [
  | none ↦ none
  | some i ↦
      let base = slice text 0 i in
      let rest = slice text (i + len sep) (len text) in
      if (base ==ₛ "") || (rest ==ₛ "") then none else some (base, rest)
]

-- A number above zero.
abbrev pub positive : Option ℤ → Option ℕ
positive (some (pos (suc n))) = some (suc n)
positive (some (pos zero)) = none
positive (some (negsuc n)) = none
positive none = none

-- `a or b`, where zero is false.
abbrev pub or_price : Option ℤ → Option ℤ → Option ℤ
or_price none b = b
or_price (some (pos zero)) b = b
or_price (some (pos (suc n))) b = some (pos (suc n))
or_price (some (negsuc n)) b = some (negsuc n)
