-- ===== src/Upbit/Cash.antt =====
-- The deposits and withdrawals of KRW. An amount is none where it is missing, and none of a number
-- where `Decimal` raises InvalidOperation, which the loop does not catch.
use Prim.Native.String.{◌++◌ as concat}
use assetlog.Prelude.{
  ℕ, zero, suc, String, Option, none, some, List, [], ◌∷◌, ◌++◌, length, ltb, ◌==ₛ◌, if◌then◌else◌,
}
use assetlog.Prelude.Int.{ℤ, pos}
use assetlog.Upbit.Raw.{Python, positive}

-- The endpoint's answer for a page; none where the call raises or gives no list. An entry is none
-- where it is no object.
abbrev pub Endpoint {ℓ} : Type ℓ → Type ℓ
Endpoint A = ℕ → Option (List (Option A))

abbrev pub objects {ℓ} : {A : Type ℓ} → List (Option A) → List A
objects [] = []
objects (none ∷ rows) = objects rows
objects (some row ∷ rows) = row ∷ objects rows

-- The pages from `page` on, as many as are left.
unfoldable pub collect_pages {ℓ} : {A : Type ℓ} → Endpoint A → ℕ → ℕ → List A
collect_pages endpoint zero page = []
collect_pages endpoint (suc pages) page =
    let on = collect_pages endpoint pages (suc page) in
    elim (endpoint page) [
      | none ↦ []
      | some rows ↦ if ltb (length rows) 100 then objects rows else objects rows ++ on
    ]

unfoldable pub paginate_cash_rows {ℓ} : {A : Type ℓ} → Endpoint A → List A
unfolding collect_pages
paginate_cash_rows endpoint = collect_pages endpoint 200 1

pub record RawCash : Type 0 where
  pub uuid : Option String
  pub amount : Option (Option ℤ)
  pub done_at : Option String
  pub created_at : Option String

pub data CashKind : Type 0 where
  deposit withdraw : CashKind

-- The rows that `_cash_flow_sync` gives.
pub record CashRow : Type 0 where
  pub external_id : String
  pub kind : CashKind
  pub amount : ℤ
  pub currency : String
  pub traded_at : ℕ

-- `a or b`, where an empty text is false.
abbrev or_text : Option String → Option String → Option String
or_text none b = b
or_text (some a) b = if a ==ₛ "" then b else some a

abbrev prefix : CashKind → String
prefix deposit = "upbit-dep-"
prefix withdraw = "upbit-wd-"

abbrev pub cash_row : CashKind → String → ℕ → ℕ → CashRow
cash_row kind uuid amount at = record {
  external_id = concat (prefix kind) uuid;
  kind = kind;
  amount = pos amount;
  currency = "KRW";
  traded_at = at;
}

-- One entry: none where reading its amount raises; otherwise its row, if it has one.
abbrev with_amount : CashKind → String → ℕ → Option ℤ → Option (Option CashRow)
with_amount kind uuid at none = none
with_amount kind uuid at (some amount) =
    some (elim (positive (some amount)) [ none ↦ none | some n ↦ some (cash_row kind uuid n at) ])

abbrev complete_row :
    CashKind → Option String → Option (Option ℤ) → Option ℕ → Option (Option CashRow)
complete_row kind (some uuid) (some amount) (some at) =
    if uuid ==ₛ "" then some none else with_amount kind uuid at amount
complete_row kind none amount at = some none
complete_row kind (some uuid) none at = some none
complete_row kind (some uuid) (some amount) none = some none

abbrev norm_iso : Python → Option String → Option ℕ
norm_iso py none = none
norm_iso py (some s) = py.from_iso s

unfoldable pub read_row : Python → CashKind → RawCash → Option (Option CashRow)
read_row py kind raw =
    complete_row kind raw.uuid raw.amount (norm_iso py (or_text raw.done_at raw.created_at))

unfoldable pub read_rows : Python → CashKind → List RawCash → Option (List CashRow)
unfolding read_row
read_rows py kind [] = some []
read_rows py kind (raw ∷ raws) =
    let rest = read_rows py kind raws in
    elim (read_row py kind raw) [
      | none ↦ none
      | some none ↦ rest
      | some (some row) ↦ elim rest [ none ↦ none | some rows ↦ some (row ∷ rows) ]
    ]

unfoldable pub cash_flow_sync : Python → Endpoint RawCash → Endpoint RawCash → Option (List CashRow)
unfolding read_rows paginate_cash_rows
cash_flow_sync py deposits withdraws =
    elim (read_rows py CashKind.deposit (paginate_cash_rows deposits)) [
      | none ↦ none
      | some paid_in ↦ elim (read_rows py CashKind.withdraw (paginate_cash_rows withdraws)) [
        | none ↦ none
        | some paid_out ↦ some (paid_in ++ paid_out)
      ]
    ]

-- Whatever raises, the adapter answers with no rows.
unfoldable pub fetch_cash_flow : Python → Endpoint RawCash → Endpoint RawCash → List CashRow
unfolding cash_flow_sync
fetch_cash_flow py deposits withdraws = elim (cash_flow_sync py deposits withdraws) [
  | none ↦ []
  | some rows ↦ rows
]
