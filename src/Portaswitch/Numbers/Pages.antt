-- ===== src/Portaswitch/Numbers/Pages.antt =====
-- app/bss/adapters/portaswitch/adapter.py: the search of the numbers reads all the pages of a
-- customer, and finds every number that a customer has.
use porta_phone_adapter.Base.{
  ℕ, zero, suc, ◌+◌, ◌*◌, ◌≤◌, ◌<◌, ◌≡◌, refl, sym, ap, ◌∙◌, subst, Bool, true, false, ◌||◌, ◌⊎◌,
  Option, some, List, [], ◌∷◌, ◌++◌, arith, ltb, leb, length, take, drop, Bool-cases, inl, inr,
  length-take, length-drop, take-append-drop, take-short, drop-drop, lt→leb,
}
use porta_phone_adapter.Base.Eq.{Text, text_eq, text_key}
use porta_phone_adapter.Base.Result.{Result, ok}
use porta_phone_adapter.Portaswitch.{Failure}
use porta_phone_adapter.Portaswitch.Account.{AccountInfo, AccountPage, member}
use porta_phone_adapter.Portaswitch.Numbers.Found.{
  Found, some_has, process_keeps, pages_keep, customers_keep, process-finds, take-Found,
  still_asked,
}
use porta_phone_adapter.Portaswitch.Numbers.{
  Search, take_account, process_page, no_more, after_page, search_pages, search_customers,
  get_number_to_customer_accounts_map_for_numbers,
}

nothing_left :
    (page : List AccountInfo) (s : Search) → no_more (s.1) ≡ true → process_page page s ≡ s
unfolding process_page
nothing_left [] s h = refl
nothing_left (b ∷ page) (accounts, []) h = nothing_left page (accounts, []) h
nothing_left (b ∷ page) (accounts, x ∷ xs) h = cc

process-append :
    (xs ys : List AccountInfo) (s : Search)
    → process_page (xs ++ ys) s ≡ process_page ys (process_page xs s)
unfolding process_page
process-append [] ys s = refl
process-append (x ∷ xs) ys s = process-append xs ys (take_account x s)

or_true : (b : Bool) → (b || true) ≡ true
or_true true = refl
or_true false = refl

module _ (pages : ℕ → Result Failure AccountPage) (all : List AccountInfo) where
  -- The switch pages through a list of accounts that does not change, and says how many it has.
  abbrev pub Steady : Type 0
  Steady =
      (offset : ℕ)
      → pages offset
        ≡ ok (record { account_list = take 1000 (drop offset all); total = some (length all) })

  page_split :
      (rows : List AccountInfo) (s : Search)
      → process_page rows s ≡ process_page (drop 1000 rows) (process_page (take 1000 rows) s)
  page_split rows s =
      ap (λ r. process_page r s) (sym (take-append-drop 1000 rows))
      ∙ process-append (take 1000 rows) (drop 1000 rows) s

  last_page :
      (next : ℕ → Search → Search) (offset : ℕ) (s : Search)
      → offset ≤ length all
      → length all ≤ offset + 1000
      → after_page pages next offset
          (length (take 1000 (drop offset all)))
          (some (length all))
          (process_page (take 1000 (drop offset all)) s)
        ≡ process_page (drop offset all) s
  last_page next offset s o e =
      let left = length-drop offset all in
      let cut = length-take 1000 (drop offset all) in
      let found = process_page (take 1000 (drop offset all)) s in
      let reached : leb (length all) (offset + length (take 1000 (drop offset all))) ≡ true =
        ground arith in
      rw (reached, or_true (no_more (found.1) || ltb (length (take 1000 (drop offset all))) 1000))
        (ap (λ r. process_page r s) (take-short 1000 (drop offset all) (omega (arith, left))))

  ended :
      (next : ℕ → Search → Search) (offset : ℕ) (s : Search)
      → no_more ((process_page (take 1000 (drop offset all)) s).1) ≡ true
      → after_page pages next offset
          (length (take 1000 (drop offset all)))
          (some (length all))
          (process_page (take 1000 (drop offset all)) s)
        ≡ process_page (drop offset all) s
  ended next offset s done = rw done (
      sym (
        page_split (drop offset all) s
        ∙ nothing_left (drop 1000 (drop offset all)) (process_page (take 1000 (drop offset all)) s)
            done))

  next_page :
      (next : ℕ → Search → Search) (offset : ℕ) (s : Search)
      → no_more ((process_page (take 1000 (drop offset all)) s).1) ≡ false
      → offset + 1000 < length all
      → after_page pages next offset
          (length (take 1000 (drop offset all)))
          (some (length all))
          (process_page (take 1000 (drop offset all)) s)
        ≡ next (offset + 1000) (process_page (take 1000 (drop offset all)) s)
  next_page next offset s more e =
      let left = length-drop offset all in
      let cut = length-take 1000 (drop offset all) in
      let full : length (take 1000 (drop offset all)) ≡ 1000 = omega (arith, left, cut) in
      let further = lt→leb (length all) (offset + 1000) e in
      ap
        (λ n.
          after_page pages next offset n (some (length all))
            (process_page (take 1000 (drop offset all)) s))
        full
      ∙ rw (more, further) refl

  pages_read :
      (fuel offset : ℕ) (s : Search)
      → Steady
      → offset ≤ length all
      → length all ≤ offset + 1000 * fuel
      → 0 < fuel
      → search_pages pages fuel offset s ≡ process_page (drop offset all) s
  unfolding search_pages
  pages_read zero offset s steady o f p = absurd (omega arith)
  pages_read (suc fuel) offset s steady o f p = elim (Bool-cases (no_more (s.1))) [
    | inl none_left ↦ rw none_left (sym (nothing_left (drop offset all) s none_left))
    | inr asked ↦
        rw (asked, steady offset)
          (elim (Bool-cases (leb (length all) (offset + 1000))) [
            | inl end ↦ last_page (search_pages pages fuel) offset s o (ground arith)
            | inr further ↦
                elim (Bool-cases (no_more ((process_page (take 1000 (drop offset all)) s).1))) [
                  | inl done ↦ ended (search_pages pages fuel) offset s done
                  | inr more ↦
                      next_page (search_pages pages fuel) offset s more (ground arith)
                      ∙ pages_read fuel (offset + 1000)
                          (process_page (take 1000 (drop offset all)) s) steady (ground arith)
                          (ground arith) (ground arith)
                      ∙ ap (λ r. process_page r (process_page (take 1000 (drop offset all)) s))
                          (drop-drop offset 1000 all)
                      ∙ sym (page_split (drop offset all) s)
                ]
          ])
  ]

-- A number that is found or still looked for stays so.
Tracked : Text → Search → Type 0
Tracked number s = Found number (s.0) ⊎ (member number (s.1) ≡ true)

take-Tracked :
    (number : Text) (b : AccountInfo) (s : Search)
    → Tracked number s
    → Tracked number (take_account b s)
unfolding Tracked process_page
take-Tracked number b s (inl f) = inl (take-Found number b s f)
take-Tracked number b (accounts, remaining) (inr m) = elim (Bool-cases (text_eq b.id number)) [
  | inl e ↦ inl (process-finds number (b ∷ []) (accounts, remaining) m (ap (λ x. x || false) e))
  | inr e ↦ inr (still_asked number b (accounts, remaining) e m)
]

Tracked-end :
    (number : Text) (s : Search) → Tracked number s → no_more (s.1) ≡ true → Found number (s.0)
unfolding Tracked
Tracked-end number s (inl f) h = f
Tracked-end number (accounts, []) (inr m) h = cc
Tracked-end number (accounts, x ∷ xs) (inr m) h = cc

module _ (pages : ℕ → ℕ → Result Failure AccountPage) (c : ℕ) (all : List AccountInfo)
    (number : Text) where
  at_customer :
      (s : Search)
      → Steady (pages c) all
      → length all ≤ 10000
      → some_has number all ≡ true
      → Tracked number s
      → Found number ((search_pages (pages c) 10 0 s).0)
  unfolding Tracked
  at_customer s steady few has t =
      subst (λ r. Found number (r.0))
        (sym (pages_read (pages c) all 10 0 s steady (omega arith) (omega arith) (omega arith)))
        (elim t [
          | inl f ↦ process_keeps (λ r. Found number (r.0)) (take-Found number) all s f
          | inr m ↦ process-finds number all s m has
        ])

  Found-in :
      (before behind : List ℕ) (s : Search)
      → Steady (pages c) all
      → length all ≤ 10000
      → some_has number all ≡ true
      → Tracked number s
      → Found number ((search_customers pages (before ++ c ∷ behind) s).0)
  unfolding search_customers
  Found-in [] behind s steady few has t = elim (Bool-cases (no_more (s.1))) [
    | inl e ↦ rw e (Tracked-end number s t e)
    | inr e ↦ rw e (
        customers_keep (λ r. Found number (r.0)) (take-Found number) pages behind
          (search_pages (pages c) 10 0 s) (at_customer s steady few has t))
  ]
  Found-in (d ∷ before) behind s steady few has t = elim (Bool-cases (no_more (s.1))) [
    | inl e ↦ rw e (Tracked-end number s t e)
    | inr e ↦ rw e (
        Found-in before behind (search_pages (pages d) 10 0 s) steady few has
          (pages_keep (Tracked number) (take-Tracked number) (pages d) 10 0 s t))
  ]

-- A number that is asked for is found where one of the configured customers has an account of that
-- id, and the switch pages through the accounts of this customer, at most 10,000, without a change:
-- whatever the pages of the other customers hold, and however their reads fail, the map has for
-- the number an account with that id.
pub asked_number-Found :
    (pages : ℕ → ℕ → Result Failure AccountPage)
    (account_of : Text → Result Failure (Option AccountInfo)) (before behind : List ℕ) (c : ℕ)
    (all : List AccountInfo) (numbers : List Text) (number : Text)
    → Steady (pages c) all
    → length all ≤ 10000
    → member number numbers ≡ true
    → some_has number all ≡ true
    → Found number (
        get_number_to_customer_accounts_map_for_numbers pages account_of
          (before ++ c ∷ behind)
          numbers)
unfolding get_number_to_customer_accounts_map_for_numbers Tracked
asked_number-Found pages account_of before behind c all [] number steady few m has = cc
asked_number-Found pages account_of [] behind c all (n ∷ numbers) number steady few m has =
    Found-in pages c all number [] behind ([], n ∷ numbers) steady few has (inr m)
asked_number-Found pages account_of (d ∷ before) behind c all (n ∷ numbers) number steady few m
      has =
    Found-in pages c all number (d ∷ before) behind ([], n ∷ numbers) steady few has (inr m)
