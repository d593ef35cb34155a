-- ===== src/Cash/AccountMap.antt =====
-- The table of cash accounts as a map from ids to accounts: what each request does to the map.
use assetlog.Prelude.{
  ℕ, suc, ◌<◌, ◌≡◌, refl, ap, ◌∙◌, sym, Bool, true, Option, none, some, List, [], ◌∷◌, ◌++◌, All,
  All-mono, All-append, All-filter, filter, find, ◌==◌, arith, inl, inr, Bool-cases, if◌then◌else◌,
}
use assetlog.Prelude.Table.{set_row, drop_row, find-holds}
use assetlog.Cash.Accounts.{
  CashAccount, CashStore, CashAccountCreate, CashAccountUpdate, account_id, get_account, account_of,
  create_account, changed, updated, update_account, deleted, delete_account,
}

abbrev has_id : ℕ → CashAccount → Bool
has_id k a = a.id == k

-- Ids below the next one.
abbrev pub Fresh : CashStore → Type 0
Fresh s = All (λ (a : CashAccount). a.id < s.next_account) s.accounts

find-new :
    (k n : ℕ) (rows : List CashAccount) (row : CashAccount)
    → row.id ≡ n
    → All (λ (a : CashAccount). a.id < n) rows
    → find (has_id k) (rows ++ row ∷ []) ≡ (if n == k then some row else find (has_id k) rows)
unfolding find
find-new k n [] row e h = rw e refl
find-new k n (x ∷ rows) row e h = ground (arith, e, h.0, find-new k n rows row e h.1)

find-set_row :
    (k j : ℕ) (u : CashAccount → CashAccount) (rows : List CashAccount)
    → ((a : CashAccount) → (u a).id ≡ a.id)
    → find (has_id k) (set_row account_id j u rows) ≡ (
        if j == k
        then (elim (find (has_id k) rows) [ none ↦ none | some a ↦ some (u a) ])
        else find (has_id k) rows)
unfolding find
find-set_row k j u [] same = ground arith
find-set_row k j u (x ∷ rows) same = ground (arith, same x, find-set_row k j u rows same)

find-drop_row :
    (k j : ℕ) (rows : List CashAccount)
    → find (has_id k) (drop_row account_id j rows) ≡ (if j == k then none else find (has_id k) rows)
unfolding find filter
find-drop_row k j [] = ground arith
find-drop_row k j (x ∷ rows) = ground (arith, find-drop_row k j rows)

pub data Request : Type 0 where
  creation : ℕ → CashAccountCreate → Request
  change : ℕ → CashAccountUpdate → Request
  removal : ℕ → Request

unfoldable pub handle : Request → CashStore → CashStore
unfolding create_account update_account delete_account
handle (creation now d) s = (create_account now d s).1
handle (change id d) s = (update_account id d s).1
handle (removal id) s = (delete_account id s).1

unfoldable pub handle_all : List Request → CashStore → CashStore
unfolding handle
handle_all [] s = s
handle_all (r ∷ rs) s = handle_all rs (handle r s)

-- The abstract state: a map from ids, and the id that comes next.
pub record Accounts : Type 0 where
  pub account : ℕ → Option CashAccount
  pub next : ℕ

abbrev pub mapped : (CashAccount → CashAccount) → Option CashAccount → Option CashAccount
mapped u none = none
mapped u (some a) = some (u a)

-- The account that a request asks for.
abbrev pub opened : ℕ → ℕ → CashAccountCreate → CashAccount
opened id now d = record {
  id = id;
  label = d.label;
  currency = d.currency;
  balance = d.balance;
  interest_rate_annual = d.interest_rate_annual;
  created_at = now;
}

-- An account with each field that the request gives, and the others as they are.
abbrev pub amended : CashAccountUpdate → CashAccount → CashAccount
amended d a = record {
  id = a.id;
  label = elim d.label [ none ↦ a.label | some label ↦ label ];
  currency = a.currency;
  balance = elim d.balance [ none ↦ a.balance | some balance ↦ balance ];
  interest_rate_annual = elim d.interest_rate_annual [
    | none ↦ a.interest_rate_annual
    | some rate ↦ some rate
  ];
  created_at = a.created_at;
}

changed-amended : (d : CashAccountUpdate) (a : CashAccount) → changed d a ≡ amended d a
changed-amended d a = ground arith

mapped-amended :
    (d : CashAccountUpdate) (found : Option CashAccount)
    → mapped (changed d) found ≡ mapped (amended d) found
mapped-amended d none = refl
mapped-amended d (some a) = ap some (changed-amended d a)

abbrev pub spec : Request → Accounts → Accounts
spec (creation now d) m = record {
  account = λ k. if m.next == k then some (opened m.next now d) else m.account k;
  next = suc m.next;
}
spec (change id d) m = record m {
  account = λ k. if id == k then mapped (amended d) (m.account k) else m.account k;
}
spec (removal id) m = record m { account = λ k. if id == k then none else m.account k }

abbrev pub spec_all : List Request → Accounts → Accounts
spec_all [] m = m
spec_all (r ∷ rs) m = spec_all rs (spec r m)

-- The table shows the map, and its ids are below the next one.
pub record Shows (s : CashStore) (m : Accounts) : Type 0 where
  pub same : (k : ℕ) → get_account k s ≡ m.account k
  pub next : s.next_account ≡ m.next
  pub fresh : Fresh s

own_id : (id : ℕ) (s : CashStore) (a : CashAccount) → get_account id s ≡ some a → a.id ≡ id
unfolding get_account
own_id id s a e = ground (arith, find-holds (has_id id) s.accounts a e)

-- The same id finds the same.
elsewhere :
    (id k : ℕ) (s : CashStore) (found : Option CashAccount)
    → (id == k) ≡ true
    → get_account id s ≡ found
    → get_account k s ≡ found
elsewhere id k s found same e =
    let eq : k ≡ id = ground (arith, same) in ap (λ j. get_account j s) eq ∙ e

updated-view :
    (id k : ℕ) (d : CashAccountUpdate) (s : CashStore) (found : Option CashAccount)
    → get_account id s ≡ found
    → get_account k (updated d found s).1
      ≡ (if id == k then mapped (changed d) (get_account k s) else get_account k s)
updated-view id k d s none e = elim (Bool-cases (id == k)) [
  | inl same ↦
      let nothing = elsewhere id k s none same e in
      rw same (nothing ∙ sym (ap (mapped (changed d)) nothing))
  | inr other ↦ rw other refl
]
updated-view id k d s (some a) e =
    unfold get_account in
    (find-set_row k a.id (changed d) s.accounts (λ b. refl)
      ∙ ap (λ j. if j == k then mapped (changed d) (get_account k s) else get_account k s)
          (own_id id s a e))

deleted-view :
    (id k : ℕ) (s : CashStore) (found : Option CashAccount)
    → get_account id s ≡ found
    → get_account k (deleted found s).1 ≡ (if id == k then none else get_account k s)
deleted-view id k s none e = elim (Bool-cases (id == k)) [
  | inl same ↦ rw same (elsewhere id k s none same e)
  | inr other ↦ rw other refl
]
deleted-view id k s (some a) e =
    unfold get_account in
    (find-drop_row k a.id s.accounts
      ∙ ap (λ j. if j == k then none else get_account k s) (own_id id s a e))

updated-Fresh :
    (d : CashAccountUpdate) (found : Option CashAccount) (s : CashStore)
    → Fresh s
    → Fresh (updated d found s).1
updated-Fresh d none s h = h
updated-Fresh d (some a) s h = kept s.accounts h
  where
    kept :
        (rows : List CashAccount)
        → All (λ (b : CashAccount). b.id < s.next_account) rows
        → All
            (λ (b : CashAccount). b.id < s.next_account)
            (set_row account_id a.id (changed d) rows)
    kept [] k = tt
    kept (x ∷ rows) k = (ground (arith, k.0), kept rows k.1)

deleted-Fresh : (found : Option CashAccount) (s : CashStore) → Fresh s → Fresh (deleted found s).1
deleted-Fresh none s h = h
deleted-Fresh (some a) s h = All-filter _ _ s.accounts h

next-updated :
    (d : CashAccountUpdate) (found : Option CashAccount) (s : CashStore)
    → (updated d found s).1.next_account ≡ s.next_account
next-updated d none s = refl
next-updated d (some a) s = refl

next-deleted :
    (found : Option CashAccount) (s : CashStore) → (deleted found s).1.next_account ≡ s.next_account
next-deleted none s = refl
next-deleted (some a) s = refl

handle-Shows :
    (r : Request) (s : CashStore) (m : Accounts) → Shows s m → Shows (handle r s) (spec r m)
unfolding handle create_account update_account delete_account
handle-Shows (creation now d) s m h =
    let row = account_of s.next_account now d in
    record {
      same = λ k.
          unfold get_account in
          (find-new k s.next_account s.accounts row refl h.fresh
            ∙ rw (h.next)
                (ap (λ o. if m.next == k then some (opened m.next now d) else o) (h.same k)));
      next = ap suc h.next;
      fresh =
          All-append _ s.accounts (row ∷ [])
            (All-mono _ _ s.accounts (λ a lt. omega (arith, lt)) h.fresh) (omega arith, tt);
    }
handle-Shows (change id d) s m h =
    let found = get_account id s in
    record {
      same = λ k.
          updated-view id k d s found refl
          ∙ ap (λ o. if id == k then mapped (changed d) o else o) (h.same k)
          ∙ ap (λ o. if id == k then o else m.account k) (mapped-amended d (m.account k));
      next = next-updated d found s ∙ h.next;
      fresh = updated-Fresh d found s h.fresh;
    }
handle-Shows (removal id) s m h =
    let found = get_account id s in
    record {
      same = λ k. deleted-view id k s found refl ∙ ap (λ o. if id == k then none else o) (h.same k);
      next = next-deleted found s ∙ h.next;
      fresh = deleted-Fresh found s h.fresh;
    }

-- After any requests that create, change and delete cash accounts, refused ones among them, the
-- table shows the map that the same requests make of the map it showed before: a new account has the
-- next id, a change concerns its account alone and only the fields it sets, and no id comes again.
pub handle_all-Shows :
    (rs : List Request) (s : CashStore) (m : Accounts)
    → Shows s m
    → Shows (handle_all rs s) (spec_all rs m)
unfolding handle_all
handle_all-Shows [] s m h = h
handle_all-Shows (r ∷ rs) s m h = handle_all-Shows rs (handle r s) (spec r m) (handle-Shows r s m h)
