-- ===== src/Portaswitch/Numbers/Found.antt =====
-- app/bss/adapters/portaswitch/adapter.py: a number is never mapped to the account of another
-- number, and is found where a customer has it.
use porta_phone_adapter.Base.{
  ℕ, zero, suc, ◌+◌, ◌≡◌, ◌≢◌, refl, sym, ap, ◌∙◌, subst, Bool, true, false, ◌||◌, Option, some,
  List, [], ◌∷◌, ltb, length, Bool-cases, inl, inr,
}
use porta_phone_adapter.Base.Eq.{Text, text_eq, text_eq_iff, text_key}
use porta_phone_adapter.Base.Dict.{
  Dict, lookup, insert, some_inj, lookup-insert_self, lookup-insert_ne,
}
use porta_phone_adapter.Base.Result.{Result, ok, err}
use porta_phone_adapter.Portaswitch.{Failure}
use porta_phone_adapter.Portaswitch.Account.{AccountInfo, AccountPage, member}
use porta_phone_adapter.Portaswitch.Email.{reaches}
use porta_phone_adapter.Portaswitch.Numbers.{
  Search, without, take_account, process_page, no_more, page_limit, after_page, with_page,
  search_pages, search_customers, get_number_to_customer_accounts_map_for_numbers,
}

-- The account of a number in the map, which has it as its id.
abbrev pub Found : Text → Dict Text AccountInfo → Type 0
Found number accounts = (a : AccountInfo) × (lookup number accounts ≡ some a) × (a.id ≡ number)

abbrev pub some_has : Text → List AccountInfo → Bool
some_has number [] = false
some_has number (a ∷ page) = text_eq a.id number || some_has number page

-- Every number in the map has the account of that id.
abbrev pub Own : Dict Text AccountInfo → Type 0
Own accounts = (number : Text) (a : AccountInfo) → lookup number accounts ≡ some a → a.id ≡ number

insert-Found :
    (number : Text) (b : AccountInfo) (accounts : Dict Text AccountInfo)
    → Found number accounts
    → Found number (insert b.id b accounts)
insert-Found number b accounts (a, h, same) = elim (Bool-cases (text_eq b.id number)) [
  | inl e ↦
      let key = (text_eq_iff b.id number).0 e in
      (
        b,
        subst (λ k. lookup k (insert b.id b accounts) ≡ some b) key
            (lookup-insert_self b.id b accounts),
        key,
      )
  | inr e ↦
      let other : b.id ≢ number = λ q. let same' = (text_eq_iff b.id number).1 q in cc in
      (a, lookup-insert_ne number b.id b accounts other ∙ h, same)
]

pub take-Found :
    (number : Text) (b : AccountInfo) (progress : Search)
    → Found number (progress.0)
    → Found number ((take_account b progress).0)
take-Found number b (accounts, remaining) f = elim (Bool-cases (member b.id remaining)) [
  | inl e ↦ rw e (insert-Found number b accounts f)
  | inr e ↦ rw e f
]

-- What every account leaves, every search leaves.
module _ (P : Search → Type 0)
    (keep : (b : AccountInfo) (s : Search) → P s → P (take_account b s)) where
  pub process_keeps :
      (page : List AccountInfo) (progress : Search) → P progress → P (process_page page progress)
  unfolding process_page
  process_keeps [] progress p = p
  process_keeps (b ∷ page) progress p =
      process_keeps page (take_account b progress) (keep b progress p)

  next_keeps :
      (pages : ℕ → Result Failure AccountPage) (next : ℕ → Search → Search) (offset rows : ℕ)
      (total : Option ℕ) (s : Search)
      → ((at : ℕ) (t : Search) → P t → P (next at t))
      → P s
      → P (after_page pages next offset rows total s)
  next_keeps pages next offset rows total s k q =
      elim (Bool-cases (no_more (s.1) || ltb rows page_limit || reaches total (offset + rows))) [
        | inl e ↦ rw e q
        | inr e ↦ rw e (k (offset + page_limit) s q)
      ]

  page_keeps :
      (pages : ℕ → Result Failure AccountPage) (next : ℕ → Search → Search) (offset : ℕ)
      (s : Search) (r : Result Failure AccountPage)
      → ((at : ℕ) (t : Search) → P t → P (next at t))
      → P s
      → P (with_page pages next offset s r)
  page_keeps pages next offset s (err f) k p = p
  page_keeps pages next offset s (ok page) k p =
      next_keeps pages next offset (length page.account_list) page.total
        (process_page page.account_list s) k (process_keeps page.account_list s p)

  pub pages_keep :
      (pages : ℕ → Result Failure AccountPage) (fuel offset : ℕ) (s : Search)
      → P s
      → P (search_pages pages fuel offset s)
  unfolding search_pages
  pages_keep pages zero offset s p = p
  pages_keep pages (suc fuel) offset s p = elim (Bool-cases (no_more (s.1))) [
    | inl e ↦ rw e p
    | inr e ↦ rw e (
        page_keeps pages (search_pages pages fuel) offset s (pages offset)
          (λ at t q. pages_keep pages fuel at t q) p)
  ]

  pub customers_keep :
      (pages : ℕ → ℕ → Result Failure AccountPage) (customers : List ℕ) (progress : Search)
      → P progress
      → P (search_customers pages customers progress)
  unfolding search_customers
  customers_keep pages [] progress p = p
  customers_keep pages (c ∷ customers) progress p = elim (Bool-cases (no_more (progress.1))) [
    | inl e ↦ rw e p
    | inr e ↦ rw e (
        customers_keep pages customers (search_pages (pages c) 10 0 progress)
          (pages_keep (pages c) 10 0 progress p))
  ]

member-without :
    (number other : Text) (remaining : List Text)
    → text_eq other number ≡ false
    → member number remaining ≡ true
    → member number (without other remaining) ≡ true
member-without number other [] d m = cc
member-without number other (x ∷ xs) d m = elim (Bool-cases (text_eq x other)) [
  | inl e ↦
      let same = (text_eq_iff x other).0 e in
      let off : text_eq x number ≡ false = ap (λ t. text_eq t number) same ∙ d in
      rw e (member-without number other xs d (sym (ap (λ b. b || member number xs) off) ∙ m))
  | inr e ↦ rw e (elim (Bool-cases (text_eq x number)) [
    | inl here ↦ rw here refl
    | inr there ↦
        rw there
          (member-without number other xs d (sym (ap (λ b. b || member number xs) there) ∙ m))
  ])
]

pub still_asked :
    (number : Text) (b : AccountInfo) (progress : Search)
    → text_eq b.id number ≡ false
    → member number (progress.1) ≡ true
    → member number ((take_account b progress).1) ≡ true
still_asked number b (accounts, remaining) d m = elim (Bool-cases (member b.id remaining)) [
  | inl e ↦ rw e (member-without number b.id remaining d m)
  | inr e ↦ rw e m
]

-- A number that is looked for and that a row has is found.
pub process-finds :
    (number : Text) (page : List AccountInfo) (progress : Search)
    → member number (progress.1) ≡ true
    → some_has number page ≡ true
    → Found number ((process_page page progress).0)
unfolding process_page
process-finds number [] progress m h = cc
process-finds number (b ∷ page) (accounts, remaining) m h =
    elim (Bool-cases (text_eq b.id number)) [
      | inl e ↦
          let key = (text_eq_iff b.id number).0 e in
          let asked : member b.id remaining ≡ true =
            subst (λ k. member k remaining ≡ true) (sym key) m in
          process_keeps (λ s. Found number (s.0)) (take-Found number) page
            (take_account b (accounts, remaining))
            (rw asked (
              b,
              subst (λ k. lookup k (insert b.id b accounts) ≡ some b) key
                  (lookup-insert_self b.id b accounts),
              key,
            ))
      | inr e ↦
          process-finds number page (take_account b (accounts, remaining))
            (still_asked number b (accounts, remaining) e m)
            (sym (ap (λ x. x || some_has number page) e) ∙ h)
    ]

take-Own : (b : AccountInfo) (s : Search) → Own (s.0) → Own ((take_account b s).0)
take-Own b (accounts, remaining) own = elim (Bool-cases (member b.id remaining)) [
  | inl e ↦ rw e (own_insert b accounts own)
  | inr e ↦ rw e own
]
  where
    own_insert :
        (b : AccountInfo) (accounts : Dict Text AccountInfo)
        → Own accounts
        → Own (insert b.id b accounts)
    own_insert b accounts own number a h = elim (Bool-cases (text_eq b.id number)) [
      | inl e ↦
          let key = (text_eq_iff b.id number).0 e in
          let here =
            subst (λ k. lookup k (insert b.id b accounts) ≡ some b) key
              (lookup-insert_self b.id b accounts) in
          let same : b ≡ a = some_inj (sym here ∙ h) in ap (λ x. x.id) (sym same) ∙ key
      | inr e ↦
          let other : b.id ≢ number = λ q. let same = (text_eq_iff b.id number).1 q in cc in
          own number a (sym (lookup-insert_ne number b.id b accounts other) ∙ h)
    ]

-- Where customers are configured, a number is only ever mapped to an account that has it as its
-- id, whatever the pages hold and however their reads fail.
pub numbers_own_accounts :
    (pages : ℕ → ℕ → Result Failure AccountPage)
    (account_of : Text → Result Failure (Option AccountInfo)) (c : ℕ) (customers : List ℕ)
    (numbers : List Text) (number : Text) (a : AccountInfo)
    → lookup number
        (get_number_to_customer_accounts_map_for_numbers pages account_of (c ∷ customers) numbers)
      ≡ some a
    → a.id ≡ number
unfolding get_number_to_customer_accounts_map_for_numbers lookup
numbers_own_accounts pages account_of c customers [] number a h = cc
numbers_own_accounts pages account_of c customers (n ∷ numbers) number a h =
    customers_keep (λ s. Own (s.0)) take-Own pages (c ∷ customers) ([], n ∷ numbers) (λ k b e. cc)
      number a h
