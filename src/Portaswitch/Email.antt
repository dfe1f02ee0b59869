-- ===== src/Portaswitch/Email.antt =====
-- app/bss/adapters/portaswitch/adapter.py: the account that an email address belongs to, for an OTP
-- sign-in. Texts are ASCII. The candidates are read page by page from the switch, which answers
-- every read from one state. A set of account numbers is the list of them in the order of their
-- first occurrence.
mod Match
mod Unique
mod Tests
use porta_phone_adapter.Base.{
  ℕ, zero, suc, ◌+◌, Bool, true, false, not, ◌&&◌, ◌||◌, Option, none, some, List, [], ◌∷◌, ltb,
  leb, ◌==◌, if◌then◌else◌, length, ◌++◌,
}
use porta_phone_adapter.Base.Eq.{Text}
use porta_phone_adapter.Base.Result.{Result, ok, err}
use porta_phone_adapter.Portaswitch.{Failure, adapter}
use porta_phone_adapter.Portaswitch.Account.{AccountInfo, AccountPage, Api}
use porta_phone_adapter.Portaswitch.Limits.{is_space, strip}

-- EMAIL_LOOKUP_PAGE and EMAIL_LOOKUP_MAX_ROWS
abbrev pub lookup_page : ℕ
lookup_page = 1000

abbrev pub lookup_max_rows : ℕ
lookup_max_rows = 10000

-- `_EMAIL_RE`: `[^@\s,%]+ @ [^@\s,%]+ \. [^@\s,%]+`. A dot belongs to the class, so the domain has
-- one where it can be cut: not at its start nor at its end.
abbrev pub is_plain : ℕ → Bool
is_plain c = not (c == b'@') && not (is_space c) && not (c == b',') && not (c == b'%')

-- A domain; `after` tells that a dot that is not its first character came before, `start` that no
-- character did.
abbrev pub is_domain : Bool → Bool → Text → Bool
is_domain start dotted [] = false
is_domain start dotted (c ∷ []) = is_plain c && dotted
is_domain start dotted (c ∷ d ∷ t) =
    let rest = is_domain false (dotted || (not start && c == b'.')) (d ∷ t) in is_plain c && rest

abbrev pub is_address : Bool → Text → Bool
is_address start [] = false
is_address start (c ∷ t) =
    let rest = is_address false t in
    if c == b'@' then not start && is_domain true false t else is_plain c && rest

-- `_EMAIL_RE.match(t)` of a stripped text.
unfoldable pub matches_email : Text → Bool
matches_email t = is_address true t

-- A character as `re.IGNORECASE` compares it.
abbrev pub fold : ℕ → ℕ
fold c = if leb b'A' c && leb c b'Z' then c + 32 else c

-- What is left of a text after an address, none where the text does not start with it.
abbrev pub after_address : Text → Text → Option Text
after_address [] t = some t
after_address (a ∷ address) [] = none
after_address (a ∷ address) (c ∷ t) =
    let rest = after_address address t in if fold a == fold c then rest else none

abbrev pub skip_spaces : Text → Text
skip_spaces [] = []
skip_spaces (c ∷ t) = let rest = skip_spaces t in if is_space c then rest else c ∷ t

-- `\s*(?:,|$)` and `\s*>` at the start of a text.
abbrev pub ends_entry : Text → Bool
ends_entry [] = true
ends_entry (c ∷ t) = c == b','

abbrev pub ends_bracket : Text → Bool
ends_bracket [] = false
ends_bracket (c ∷ t) = c == b'>'

abbrev pub then_ends : (Text → Bool) → Option Text → Bool
then_ends ends none = false
then_ends ends (some t) = ends (skip_spaces t)

-- `\s*ADDR\s*` and what ends it, at the start of a text.
abbrev pub entry_here : (Text → Bool) → Text → Text → Bool
entry_here ends address t = then_ends ends (after_address address (skip_spaces t))

-- The search: past a comma an entry can start, past a `<` an address in brackets.
abbrev pub search_email : Text → Text → Bool
search_email address [] = false
search_email address (c ∷ t) =
    let rest = search_email address t in
    (c == b',' && entry_here ends_entry address t)
    || (c == b'<' && entry_here ends_bracket address t)
    || rest

-- `_has_email`
unfoldable pub has_email : Text → Text → Bool
has_email field address = entry_here ends_entry address field || search_email address field

-- `matches.add(i)`
abbrev pub among : ℕ → List ℕ → Bool
among i [] = false
among i (j ∷ js) = j == i || among i js

abbrev pub add_match : ℕ → List ℕ → List ℕ
add_match i matches = if among i matches then matches else matches ++ i ∷ []

unfoldable pub add_matches : Text → List AccountInfo → List ℕ → List ℕ
add_matches address [] matches = matches
add_matches address (row ∷ rows) matches =
    add_matches address rows
      (if has_email row.email address then add_match row.i_account matches else matches)

-- `ambiguous_user_error`
abbrev pub ambiguous : Failure
ambiguous = adapter 422 (some "ambiguous_user_ref")

-- `total is not None and offset >= int(total)`
abbrev pub reaches : Option ℕ → ℕ → Bool
reaches none offset = false
reaches (some total) offset = leb total offset

module _ (api : Api) (address : Text) (s : api.State) where
  -- What one page decides: whether the loop goes on, with which matches and offset.
  abbrev pub after_page :
      (ℕ → List ℕ → Result Failure (List ℕ)) → ℕ → ℕ → Option ℕ → List ℕ → Result Failure (List ℕ)
  after_page next offset rows total matches =
      if ltb 1 (length matches)
      then err ambiguous
      else if ltb rows lookup_page || reaches total (offset + rows)
      then ok matches
      else if leb lookup_max_rows (offset + rows)
      then err ambiguous
      else next (offset + rows) matches

  abbrev pub with_page :
      (ℕ → List ℕ → Result Failure (List ℕ))
      → ℕ
      → List ℕ
      → Result Failure AccountPage
      → Result Failure (List ℕ)
  with_page next offset matches (err f) = err f
  with_page next offset matches (ok page) =
      after_page next offset (length page.account_list) page.total
        (add_matches address page.account_list matches)

  -- The loop; without fuel the read goes no further. Every page but the last has 1000 rows, so ten
  -- turns are enough.
  unfoldable pub read_matches : ℕ → ℕ → List ℕ → Result Failure (List ℕ)
  read_matches zero offset matches = err Failure.crash
  read_matches (suc fuel) offset matches =
      with_page (read_matches fuel) offset matches (api.accounts_by_email s address offset)

  abbrev pub read_match : Result Failure (List ℕ) → Result Failure (Option AccountInfo)
  read_match (err f) = err f
  read_match (ok []) = ok none
  read_match (ok (i ∷ matches)) = api.account_by_number s i

-- `_find_account_by_email`
unfoldable pub find_account_by_email :
    (api : Api) → Text → api.State → Result Failure (Option AccountInfo)
find_account_by_email api user_ref s =
    let email = strip user_ref in
    if matches_email email
    then read_match api email s (read_matches api email s 10 0 [])
    else ok none
