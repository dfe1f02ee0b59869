-- ===== src/FreePbx/Renewal.antt =====
-- The session of the PBX after it was renewed.
use porta_phone_adapter.Base.{
  ℕ, ◌≡◌, refl, ap, ◌∙◌, inl, inr, true, false, Option, none, some, [], ◌-◌, ◌*◌, not, ◌&&◌, ◌||◌,
  arith, ltb, if◌then◌else◌, Bool-cases,
}
use porta_phone_adapter.Base.Eq.{Text, text_key}
use porta_phone_adapter.Base.Dict.{lookup, insert, lookup-insert_self}
use porta_phone_adapter.Base.Result.{ok}
use porta_phone_adapter.HttpApi.Login.{
  OAuthSession, TokenTable, User, is_absent, no_token, valid_session, extract_access_token,
  withdrawn,
}
use porta_phone_adapter.HttpApi.Login
use porta_phone_adapter.HttpApi.Sync.{
  Calls, Reply, store_auth_session, bearer, checked, expired, session_until, renewed,
  session_in_progress, current, keyed, session_for,
}
use porta_phone_adapter.FreePbx.{
  Pbx, Tokens, refresh_grant, nobody, session_of, taken, request_token, refresh, calls,
}

kept_until :
    (calls : Calls) (now : ℕ) (s : OAuthSession) (exp : Option ℕ) (tokens : TokenTable)
    (b : calls.State)
    → not (no_token s.access_token) && Login.unexpired now s exp ≡ true
    → checked calls (renewed calls now nobody s exp tokens b) ≡ (ok (some s), tokens, b)
unfolding checked renewed session_until
kept_until calls now s none tokens b v = ground arith
kept_until calls now s (some exp) tokens b v = ground arith

-- A session that is valid serves a request without a call.
valid_serves :
    (calls : Calls) (now : ℕ) (s : OAuthSession) (tokens : TokenTable) (b : calls.State)
    → lookup [] tokens ≡ some s
    → valid_session now (some s) ≡ true
    → session_for calls false now nobody tokens b ≡ (ok (some s), tokens, b)
unfolding session_for keyed current session_in_progress valid_session
valid_serves calls now s tokens b found v =
    ap
      (λ o.
        keyed calls nobody (current calls nobody (session_in_progress calls now nobody o tokens b)))
      found
    ∙ ap (λ r. keyed calls nobody (current calls nobody r))
        (kept_until calls now s s.access_token_expires_at tokens b v)

module _ (pbx : Pbx) where
  taken_stored :
      (now : ℕ) (tokens : TokenTable) (r : Tokens) (b : pbx.State)
      → no_token r.access ≡ false
      → taken pbx now tokens (ok r, b)
        ≡ (ok (session_of now r), insert [] (session_of now r) tokens, b)
  unfolding taken store_auth_session
  taken_stored now tokens r b h = rw h refl

  refresh_stored :
      (now : ℕ) (tokens : TokenTable) (b b' : pbx.State) (s : OAuthSession) (r : Tokens)
      → ((bearing : Option Text) → pbx.token bearing (refresh_grant s.refresh_token) b ≡ (ok r, b'))
      → no_token r.access ≡ false
      → refresh pbx now nobody s tokens b
        ≡ (ok (session_of now r), insert [] (session_of now r) tokens, b')
  unfolding refresh request_token
  refresh_stored now tokens b b' s r answer h =
      ap (taken pbx now tokens) (answer (bearer (lookup [] tokens)))
      ∙ taken_stored now tokens r b' h

  -- The table that a renewal writes into: that of the withdrawn session, if the token had expired.
  before_renewal : ℕ → ℕ → OAuthSession → TokenTable → TokenTable
  before_renewal now exp s tokens = if ltb exp now then insert [] (withdrawn s) tokens else tokens

  until_stored :
      (now exp : ℕ) (tokens : TokenTable) (b b' : pbx.State) (s : OAuthSession) (r : Tokens)
      → is_absent s.refresh_token ≡ false
      → ltb exp now || ltb (exp - now) (15 * 60 * 1000000) ≡ true
      → ((bearing : Option Text) → pbx.token bearing (refresh_grant s.refresh_token) b ≡ (ok r, b'))
      → no_token r.access ≡ false
      → session_until (calls pbx now) now nobody s exp tokens b ≡ (
        ok (session_of now r),
        insert [] (session_of now r) (before_renewal now exp s tokens),
        b',
      )
  unfolding session_until expired before_renewal
  until_stored now exp tokens b b' s r renewable soon answer h = elim (Bool-cases (ltb exp now)) [
    | inl e ↦ rw e (
        rw renewable
          (refresh_stored now (insert [] (withdrawn s) tokens) b b' (withdrawn s) r answer h))
    | inr e ↦
        let near : ltb (exp - now) (15 * 60 * 1000000) ≡ true = ground arith in
        rw e (rw near (rw renewable (refresh_stored now tokens b b' s r answer h)))
  ]

  token_there :
      (now later : ℕ) (r : Tokens)
      → valid_session later (some (session_of now r)) ≡ true
      → no_token r.access ≡ false
  unfolding valid_session extract_access_token
  token_there now later r v = ground arith

  token_kept :
      (now : ℕ) (r : Tokens)
      → no_token r.access ≡ false
      → no_token ((session_of now r).access_token) ≡ false
  unfolding extract_access_token
  token_kept now r h = h

  checked-renewed :
      (now exp : ℕ) (tokens : TokenTable) (b b' : pbx.State) (s n : OAuthSession) (t : TokenTable)
      → no_token s.access_token ≡ false
      → session_until (calls pbx now) now nobody s exp tokens b ≡ (ok n, t, b')
      → no_token n.access_token ≡ false
      → checked (calls pbx now) (renewed (calls pbx now) now nobody s (some exp) tokens b)
        ≡ (ok (some n), t, b')
  unfolding checked renewed
  checked-renewed now exp tokens b b' s n t present u h =
      ap
        (λ m. checked (calls pbx now) (
          if m then (ok s, tokens, b) else session_until (calls pbx now) now nobody s exp tokens b))
        present
      ∙ ap (checked (calls pbx now)) u
      ∙ ap (λ m. (ok (if m then none else some n), t, b')) h

  renewal_opens :
      (now exp : ℕ) (tokens : TokenTable) (b b' : pbx.State) (s n : OAuthSession) (t : TokenTable)
      → lookup [] tokens ≡ some s
      → no_token s.access_token ≡ false
      → s.access_token_expires_at ≡ some exp
      → session_until (calls pbx now) now nobody s exp tokens b ≡ (ok n, t, b')
      → no_token n.access_token ≡ false
      → session_for (calls pbx now) false now nobody tokens b ≡ (ok (some n), t, b')
  unfolding session_for keyed current session_in_progress
  renewal_opens now exp tokens b b' s n t found present expires u h =
      let after : Reply pbx.State (Option OAuthSession) → Reply pbx.State (Option OAuthSession) =
        λ r. keyed (calls pbx now) nobody (current (calls pbx now) nobody r) in
      ap (λ o. after (session_in_progress (calls pbx now) now nobody o tokens b)) found
      ∙ ap (λ e. after (checked (calls pbx now) (renewed (calls pbx now) now nobody s e tokens b)))
          expires
      ∙ ap after (checked-renewed now exp tokens b b' s n t present u h)

  -- A renewal lasts: when the stored session of the PBX is due or has expired, and the PBX answers
  -- the refresh token in it with new tokens, the request carries the new session, and any later
  -- request at which that is valid carries it too, without a call of the PBX.
  pub renewal_lasts :
      (now later exp : ℕ) (tokens : TokenTable) (b b' : pbx.State) (s : OAuthSession) (r : Tokens)
      → lookup [] tokens ≡ some s
      → no_token s.access_token ≡ false
      → is_absent s.refresh_token ≡ false
      → s.access_token_expires_at ≡ some exp
      → ltb exp now || ltb (exp - now) (15 * 60 * 1000000) ≡ true
      → ((bearing : Option Text) → pbx.token bearing (refresh_grant s.refresh_token) b ≡ (ok r, b'))
      → valid_session later (some (session_of now r)) ≡ true
      → let (first, tokens', after) = session_for (calls pbx now) false now nobody tokens b in
        (first ≡ ok (some (session_of now r)))
        × (after ≡ b')
        × (session_for (calls pbx later) false later nobody tokens' after
            ≡ (ok (some (session_of now r)), tokens', after))
  renewal_lasts now later exp tokens b b' s r found present renewable expires soon answer valid =
      let new = session_of now r in
      let table = before_renewal now exp s tokens in
      let there = token_there now later r valid in
      let opened : session_for (calls pbx now) false now nobody tokens b
          ≡ (ok (some new), insert [] new table, b') =
        renewal_opens now exp tokens b b' s new (insert [] new table) found present expires
          (until_stored now exp tokens b b' s r renewable soon answer there)
          (token_kept now r there) in
      rw opened (
        refl,
        refl,
        valid_serves (calls pbx later) later new (insert [] new table) b'
            (lookup-insert_self [] new table) valid,
      )
