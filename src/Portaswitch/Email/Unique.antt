-- ===== src/Portaswitch/Email/Unique.antt =====
-- app/bss/adapters/portaswitch/adapter.py: an address signs in the one account that carries it.
use porta_phone_adapter.Base.{
  ℕ, zero, suc, ◌+◌, ◌*◌, ◌≤◌, ◌<◌, ◌≡◌, ◌≢◌, refl, sym, ap, ◌∙◌, Bool, true, false, ◌||◌, some,
  List, [], arith, ltb, leb, if◌then◌else◌, length, take, drop, Bool-cases, lt→leb, lt→ltb, inl,
  inr, subst, length-take, length-drop, take-append-drop, take-short, drop-drop,
}
use porta_phone_adapter.Base.Eq.{Text}
use porta_phone_adapter.Base.Result.{Result, ok, err}
use porta_phone_adapter.Portaswitch.{Failure}
use porta_phone_adapter.Portaswitch.Account.{AccountInfo, Api}
use porta_phone_adapter.Portaswitch.Limits.{strip}
use porta_phone_adapter.Portaswitch.Email.{
  matches_email, add_matches, ambiguous, read_matches, with_page, after_page, read_match,
  find_account_by_email,
}
use porta_phone_adapter.Portaswitch.Email.Match.{
  carries, add_matches-append, length-add_matches, among-add_matches, add_matches-Once, two_among,
  only_among,
}

or_true : (b : Bool) → (b || true) ≡ true
or_true true = refl
or_true false = refl

-- What is made of the whole set.
abbrev pub verdict : List ℕ → Result Failure (List ℕ)
verdict m = if ltb 1 (length m) then err ambiguous else ok m

module _ (api : Api) (address : Text) (s : api.State) (all : List AccountInfo) where
  -- The switch pages through a list of candidates that does not change, and says how many it has.
  abbrev pub Steady : Type 0
  Steady =
      (offset : ℕ)
      → api.accounts_by_email s address offset
        ≡ ok (record { account_list = take 1000 (drop offset all); total = some (length all) })

  -- The matches of the rows are those of a page and then of the rest.
  matches-split :
      (rows : List AccountInfo) (m : List ℕ)
      → add_matches address rows m
        ≡ add_matches address (drop 1000 rows) (add_matches address (take 1000 rows) m)
  matches-split rows m =
      ap (λ r. add_matches address r m) (sym (take-append-drop 1000 rows))
      ∙ add_matches-append address (take 1000 rows) (drop 1000 rows) m

  verdict-more :
      (rows : List AccountInfo) (m : List ℕ)
      → ltb 1 (length (add_matches address (take 1000 rows) m)) ≡ true
      → verdict (add_matches address rows m) ≡ err ambiguous
  verdict-more rows m h =
      let first = add_matches address (take 1000 rows) m in
      let longer = length-add_matches address (drop 1000 rows) first in
      let many : ltb 1 (length (add_matches address (drop 1000 rows) first)) ≡ true =
        ground arith in
      ap verdict (matches-split rows m) ∙ rw many refl

  -- What a page with at most one match decides, where it is the last and where it is not.
  last_page :
      (next : ℕ → List ℕ → Result Failure (List ℕ)) (offset : ℕ) (m : List ℕ)
      → ltb 1 (length (add_matches address (take 1000 (drop offset all)) m)) ≡ false
      → offset ≤ length all
      → length all ≤ offset + 1000
      → after_page api address s next offset
          (length (take 1000 (drop offset all)))
          (some (length all))
          (add_matches address (take 1000 (drop offset all)) m)
        ≡ verdict (add_matches address (drop offset all) m)
  last_page next offset m one o e =
      let left = length-drop offset all in
      let page = length-take 1000 (drop offset all) in
      let reached : leb (length all) (offset + length (take 1000 (drop offset all))) ≡ true =
        ground arith in
      let whole = take-short 1000 (drop offset all) (omega (arith, left)) in
      let single = subst (λ r. ltb 1 (length (add_matches address r m)) ≡ false) whole one in
      rw (one, reached, or_true (ltb (length (take 1000 (drop offset all))) 1000))
        (ap (λ r. ok (add_matches address r m)) whole ∙ sym (rw single refl))

  next_page :
      (next : ℕ → List ℕ → Result Failure (List ℕ)) (offset : ℕ) (m : List ℕ)
      → ltb 1 (length (add_matches address (take 1000 (drop offset all)) m)) ≡ false
      → length all ≤ 10000
      → offset + 1000 < length all
      → after_page api address s next offset
          (length (take 1000 (drop offset all)))
          (some (length all))
          (add_matches address (take 1000 (drop offset all)) m)
        ≡ next (offset + 1000) (add_matches address (take 1000 (drop offset all)) m)
  next_page next offset m one few e =
      let left = length-drop offset all in
      let page = length-take 1000 (drop offset all) in
      let full : length (take 1000 (drop offset all)) ≡ 1000 = omega (arith, left, page) in
      let open_end = lt→leb (length all) (offset + 1000) e in
      let within = lt→leb 10000 (offset + 1000) (omega arith) in
      ap
        (λ n.
          after_page api address s next offset n (some (length all))
            (add_matches address (take 1000 (drop offset all)) m))
        full
      ∙ rw (one, open_end, within) refl

  pages_read :
      (fuel offset : ℕ) (m : List ℕ)
      → Steady
      → length all ≤ 10000
      → offset ≤ length all
      → length all ≤ offset + 1000 * fuel
      → 0 < fuel
      → read_matches api address s fuel offset m ≡ verdict (add_matches address (drop offset all) m)
  unfolding read_matches
  pages_read zero offset m steady few o f p = absurd (omega arith)
  pages_read (suc fuel) offset m steady few o f p =
      ap (with_page api address s (read_matches api address s fuel) offset m) (steady offset)
      ∙ elim (Bool-cases (ltb 1 (length (add_matches address (take 1000 (drop offset all)) m)))) [
        | inl many ↦ rw many (sym (verdict-more (drop offset all) m many))
        | inr one ↦ elim (Bool-cases (leb (length all) (offset + 1000))) [
          | inl end ↦ last_page (read_matches api address s fuel) offset m one o (ground arith)
          | inr further ↦
              next_page (read_matches api address s fuel) offset m one few (ground arith)
              ∙ pages_read fuel (offset + 1000)
                  (add_matches address (take 1000 (drop offset all)) m) steady few (ground arith)
                  (ground arith) (ground arith)
              ∙ ap
                  (λ r.
                    verdict
                      (add_matches address r (add_matches address (take 1000 (drop offset all)) m)))
                  (drop-drop offset 1000 all)
              ∙ ap verdict (sym (matches-split (drop offset all) m))
        ]
      ]

-- The account of the address, read from the page by page search of a list that does not change.
found :
    (api : Api) (user_ref : Text) (s : api.State) (all : List AccountInfo)
    → matches_email (strip user_ref) ≡ true
    → Steady api (strip user_ref) s all
    → length all ≤ 10000
    → find_account_by_email api user_ref s
      ≡ read_match api (strip user_ref) s (verdict (add_matches (strip user_ref) all []))
unfolding find_account_by_email
found api user_ref s all m steady few = rw m (
    ap (read_match api (strip user_ref) s) (
      pages_read api (strip user_ref) s all 10 0 [] steady few (omega arith) (omega arith)
        (omega arith)))

-- Where the switch pages through a list of at most 10,000 candidates that does not change: if two
-- of them with different account numbers carry the address that was given, the search ends with
-- the error 422 ambiguous_user_ref, and no account is picked.
pub shared_address_refused :
    (api : Api) (user_ref : Text) (s : api.State) (all : List AccountInfo) (i j : ℕ)
    → matches_email (strip user_ref) ≡ true
    → Steady api (strip user_ref) s all
    → length all ≤ 10000
    → i ≢ j
    → carries (strip user_ref) i all ≡ true
    → carries (strip user_ref) j all ≡ true
    → find_account_by_email api user_ref s ≡ err ambiguous
shared_address_refused api user_ref s all i j m steady few n h g =
    let at = among-add_matches (strip user_ref) i all [] ∙ h in
    let at' = among-add_matches (strip user_ref) j all [] ∙ g in
    let many =
      lt→ltb 1 (length (add_matches (strip user_ref) all []))
        (two_among i j (add_matches (strip user_ref) all []) n at at') in
    found api user_ref s all m steady few ∙ rw many refl

-- Where the switch pages through a list of at most 10,000 candidates that does not change: if one
-- of them carries the address that was given, and all that do have its account number, the search
-- gives the record of that account.
pub unique_address_found :
    (api : Api) (user_ref : Text) (s : api.State) (all : List AccountInfo) (i : ℕ)
    → matches_email (strip user_ref) ≡ true
    → Steady api (strip user_ref) s all
    → length all ≤ 10000
    → carries (strip user_ref) i all ≡ true
    → ((j : ℕ) → carries (strip user_ref) j all ≡ true → j ≡ i)
    → find_account_by_email api user_ref s ≡ api.account_by_number s i
unique_address_found api user_ref s all i m steady few h one =
    let at = among-add_matches (strip user_ref) i all [] ∙ h in
    let single =
      only_among i (add_matches (strip user_ref) all [])
        (add_matches-Once (strip user_ref) all [] tt) at
        (λ j g. one j (sym (among-add_matches (strip user_ref) j all []) ∙ g)) in
    found api user_ref s all m steady few
    ∙ ap (λ l. read_match api (strip user_ref) s (verdict l)) single
