-- ===== src/Accounts/Paging.antt =====
-- The pages of a steady account list are put together without loss.
use porta_phone_adapter.Base.{
  ℕ, zero, suc, ◌+◌, ◌≤◌, ◌≡◌, ◌≢◌, refl, sym, ap, ◌∙◌, subst, inl, inr, true, false, ◌||◌, none,
  some, List, [], ◌∷◌, ◌++◌, arith, ltb, leb, min, ◌==◌, length, take, drop, take-append-drop,
  drop-drop, drop-past, take-short, length-take, Bool-cases,
}
use mathlib.Core.List.{append-nil, append_assoc}
use porta_phone_adapter.Base.Eq.{nat_eq}
use porta_phone_adapter.Base.Dict.{Dict, lookup, insert, lookup-insert_ne}
use porta_phone_adapter.Base.Result.{Result, ok, err, Raised}
use porta_phone_adapter.Accounts.Fetch.{
  Account, Page, limit, offsets, gather, by_i_account, values, assemble, assemble_pages, is_last,
  fetch_rest, fetch_accounts, stop_of,
}

-- A switch whose list does not change between the pages.
abbrev pub Steady : List Account → (ℕ → Result Raised Page) → Type 0
Steady xs api =
    (o : ℕ)
    → api o ≡ ok (record { account_list = take limit (drop o xs); total = some (length xs) })

-- No two rows have one `i_account`.
abbrev pub Fresh : ℕ → List Account → Type 0
Fresh i [] = Unit {0}
Fresh i (a ∷ rows) = (i ≢ a.i_account) × Fresh i rows

abbrev pub Distinct : List Account → Type 0
Distinct [] = Unit {0}
Distinct (a ∷ rows) = Fresh (a.i_account) rows × Distinct rows

-- The pages from `start` on are the rows from `start` on.
gather-drop :
    (xs : List Account) (api : ℕ → Result Raised Page) (n start : ℕ)
    → Steady xs api
    → length xs ≤ start + n
    → gather api (offsets n start (length xs)) ≡ ok (drop start xs)
unfolding gather offsets
gather-drop xs api zero start steady h = ap ok (sym (drop-past start xs (omega arith)))
gather-drop xs api (suc n) start steady h = elim (Bool-cases (ltb start (length xs))) [
  | inl a ↦
      let ih = gather-drop xs api n (start + limit) steady (omega arith) in
      let whole : take limit (drop start xs) ++ drop (start + limit) xs ≡ drop start xs =
        ap (◌++◌ (take limit (drop start xs))) (drop-drop start limit xs)
        ∙ take-append-drop limit (drop start xs) in
      rw (a, gather, steady start, ih) (ap ok whole)
  | inr b ↦ rw (b, gather) (ap ok (sym (drop-past start xs (ground arith))))
]

-- The rows whose key a dict does not have yet.
abbrev Absent : Dict ℕ Account → List Account → Type 0
Absent d [] = Unit {0}
Absent d (a ∷ rows) = (lookup (a.i_account) d ≡ none) × Absent d rows

values-insert :
    (i : ℕ) (a : Account) (d : Dict ℕ Account)
    → lookup i d ≡ none
    → values (insert i a d) ≡ values d ++ (a ∷ [])
unfolding lookup insert
values-insert i a [] h = refl
values-insert i a ((j, b) ∷ d) h =
    let other : (j == i) ≡ false = ground arith in
    rw other (ap (◌∷◌ b) (values-insert i a d (ground arith)))

Absent-insert :
    (i : ℕ) (a : Account) (d : Dict ℕ Account) (rows : List Account)
    → Absent d rows
    → Fresh i rows
    → Absent (insert i a d) rows
Absent-insert i a d [] h k = tt
Absent-insert i a d (b ∷ rows) h k =
    (lookup-insert_ne (b.i_account) i a d (k.0) ∙ h.0, Absent-insert i a d rows (h.1) (k.1))

by_i_account-append :
    (rows : List Account) (d : Dict ℕ Account)
    → Distinct rows
    → Absent d rows
    → values (by_i_account rows d) ≡ values d ++ rows
unfolding by_i_account
by_i_account-append [] d h k = sym (append-nil (values d))
by_i_account-append (a ∷ rows) d h k =
    by_i_account-append rows (insert (a.i_account) a d) (h.1)
      (Absent-insert (a.i_account) a d rows (k.1) (h.0))
    ∙ ap (λ v. v ++ rows) (values-insert (a.i_account) a d (k.0))
    ∙ append_assoc (values d) (a ∷ []) rows

Absent-empty : (rows : List Account) → Absent [] rows
unfolding lookup
Absent-empty [] = tt
Absent-empty (a ∷ rows) = (refl, Absent-empty rows)

assemble-same : (rows : List Account) → Distinct rows → assemble rows ≡ rows
unfolding assemble
assemble-same rows h = by_i_account-append rows [] h (Absent-empty rows)

abbrev first_of : List Account → Page
first_of xs = record { account_list = take limit xs; total = some (length xs) }

last_le : (m n : ℕ) → m ≡ min limit n → (ltb m limit || n == 0 || leb n m) ≡ true → n ≤ limit
last_le m n e h = ground arith

last-short :
    (xs : List Account) → is_last (take limit xs) (some (length xs)) ≡ true → length xs ≤ limit
unfolding is_last
last-short xs h = last_le (length (take limit xs)) (length xs) (length-take limit xs) h

first_page :
    (xs : List Account) (api : ℕ → Result Raised Page)
    → Steady xs api
    → Distinct xs
    → fetch_rest api (first_of xs) ≡ ok xs
unfolding fetch_rest assemble_pages
first_page xs api steady distinct = elim (Bool-cases (is_last (take limit xs) (some (length xs)))) [
  | inl a ↦ rw a (ap ok (take-short limit xs (last-short xs a)))
  | inr b ↦
      rw (b, gather-drop xs api (length xs) limit steady (omega arith))
        (ap ok (ap assemble (take-append-drop limit xs) ∙ assemble-same xs distinct))
]

-- Paging loses nothing and repeats nothing: if the switch answers each page from one list with
-- its total, and no two accounts of the list have the same `i_account`, the fetched list is that
-- list, in its order, however many pages it takes.
pub fetch_complete :
    (xs : List Account) (api : ℕ → Result Raised Page)
    → Steady xs api
    → Distinct xs
    → fetch_accounts api ≡ ok xs
unfolding fetch_accounts
fetch_complete xs api steady distinct =
    rw (fetch_accounts, steady 0) (first_page xs api steady distinct)

-- Every `i_account` stands once in what several pages are assembled to.
abbrev Keyed : Dict ℕ Account → Type 0
Keyed [] = Unit {0}
Keyed ((k, a) ∷ d) = (k ≡ a.i_account) × Keyed d

Fresh-insert :
    (j i : ℕ) (a : Account) (d : Dict ℕ Account)
    → j ≢ a.i_account
    → Fresh j (values d)
    → Fresh j (values (insert i a d))
unfolding insert
Fresh-insert j i a [] n h = (n, tt)
Fresh-insert j i a ((k, b) ∷ d) n h = elim (Bool-cases (k == i)) [
  | inl e ↦ rw e (n, h.1)
  | inr e ↦ rw e (h.0, Fresh-insert j i a d n (h.1))
]

Keyed-insert : (a : Account) (d : Dict ℕ Account) → Keyed d → Keyed (insert (a.i_account) a d)
unfolding insert
Keyed-insert a [] h = (refl, tt)
Keyed-insert a ((k, b) ∷ d) h = elim (Bool-cases (k == a.i_account)) [
  | inl e ↦ rw e ((ground arith), h.1)
  | inr e ↦ rw e (h.0, Keyed-insert a d (h.1))
]

Distinct-insert :
    (a : Account) (d : Dict ℕ Account)
    → Keyed d
    → Distinct (values d)
    → Distinct (values (insert (a.i_account) a d))
unfolding insert
Distinct-insert a [] k h = (tt, tt)
Distinct-insert a ((j, b) ∷ d) k h = elim (Bool-cases (j == a.i_account)) [
  | inl e ↦
      let same : b.i_account ≡ a.i_account = ground arith in
      rw e (subst (λ i. Fresh i (values d)) same (h.0), h.1)
  | inr e ↦ rw e (
    Fresh-insert (b.i_account) (a.i_account) a d (λ q. ground arith) (h.0),
    Distinct-insert a d (k.1) (h.1),
  )
]

by_i_account-Distinct :
    (rows : List Account) (d : Dict ℕ Account)
    → Keyed d
    → Distinct (values d)
    → Distinct (values (by_i_account rows d))
unfolding by_i_account
by_i_account-Distinct [] d k h = h
by_i_account-Distinct (a ∷ rows) d k h =
    by_i_account-Distinct rows (insert (a.i_account) a d) (Keyed-insert a d k)
      (Distinct-insert a d k h)

pages-Distinct :
    (first rows : List Account) (rest : Result Raised (List Account))
    → assemble_pages first rest ≡ ok rows
    → Distinct rows
unfolding assemble_pages assemble
pages-Distinct first rows (err r) h = cc
pages-Distinct first rows (ok rest) h =
    let e : assemble (first ++ rest) ≡ rows = cc in
    subst Distinct e (by_i_account-Distinct (first ++ rest) [] tt tt)

-- What several pages are put together to has no `i_account` twice, even when the pages repeat
-- rows: for every switch, if the first page is not the last one and the fetch succeeds, the
-- accounts of its result are distinct.
pub fetch_accounts-Distinct :
    (api : ℕ → Result Raised Page) (first : Page) (rows : List Account)
    → api 0 ≡ ok first
    → is_last (first.account_list) (first.total) ≡ false
    → fetch_accounts api ≡ ok rows
    → Distinct rows
unfolding fetch_accounts fetch_rest
fetch_accounts-Distinct api first rows asked more h =
    let stop = stop_of (first.total) in
    let opened : fetch_accounts api ≡ fetch_rest api first = rw (fetch_accounts, asked) refl in
    let taken : fetch_rest api first
        ≡ assemble_pages (first.account_list) (gather api (offsets stop limit stop)) =
      rw (fetch_rest, more) refl in
    pages-Distinct (first.account_list) rows (gather api (offsets stop limit stop))
      (sym taken ∙ sym opened ∙ h)
