-- ===== src/Sessions/Rotation.antt =====
-- The life of a token: it opens its session from the login on, until it is exchanged or closed.
use porta_phone_adapter.Base.{
  ℕ, ◌<◌, ◌≡◌, refl, sym, ◌≢◌, true, none, some, [], ◌∷◌, ◌∙◌, ap, lt→ltb,
}
use porta_phone_adapter.Base.Eq.{Text, text_key}
use porta_phone_adapter.Base.Dict.{
  lookup, insert, erase, lookup-insert_self, lookup-insert_ne, lookup-erase_self, lookup-erase_ne,
}
use porta_phone_adapter.Base.Result.{ok}
use porta_phone_adapter.Sessions.{
  SessionInfo, Stored, session, SessionStorage, still_active, refresh_token_index, get_session,
  create_session, refresh_copy, present, store_session, delete_one, delete_session,
}
use porta_phone_adapter.Sessions.Management.{
  Clock, validate_session, validate_found, refresh_session, refresh_found, close_session,
  close_found,
}

-- The keys of the database after a session is stored.
module _ (st : SessionStorage) (now : ℕ) (s : SessionInfo) where
  stored_access :
      s.access_token ≢ refresh_token_index s.refresh_token
      → lookup s.access_token (store_session st now s).session_db ≡ some (session s)
  unfolding store_session
  stored_access n =
      rw
        (lookup-insert_ne s.access_token (refresh_token_index s.refresh_token) _ _ (λ q. n (sym q)))
        (lookup-insert_self s.access_token (session s) st.session_db)

  pub stored_refresh :
      lookup (refresh_token_index s.refresh_token) (store_session st now s).session_db
      ≡ some (session (refresh_copy st now s))
  unfolding store_session
  stored_refresh =
      lookup-insert_self (refresh_token_index s.refresh_token) (session (refresh_copy st now s)) _

-- A refresh token that is not empty is looked up under its index.
get_session-refresh :
    (st : SessionStorage) (x refresh : Text)
    → refresh ≢ []
    → get_session st x refresh ≡ lookup (refresh_token_index refresh) st.session_db
unfolding get_session
get_session-refresh st x [] full = absurd (full refl)
get_session-refresh st x (c ∷ r) full = refl

pub get_session-access :
    (st : SessionStorage) (x : Text) → get_session st x [] ≡ lookup x st.session_db
unfolding get_session
get_session-access st x = refl

-- After `delete_session` with a refresh token the two keys are gone and every other key stays.
pub deleted_access :
    (st : SessionStorage) (access refresh : Text)
    → lookup access (delete_session st access refresh).0.session_db ≡ none
unfolding delete_session delete_one
deleted_access st access [] = lookup-erase_self access st.session_db
deleted_access st access (c ∷ r) = lookup-erase_self access _

deleted_refresh :
    (st : SessionStorage) (access refresh : Text)
    → refresh ≢ []
    → access ≢ refresh_token_index refresh
    → lookup (refresh_token_index refresh) (delete_session st access refresh).0.session_db ≡ none
unfolding delete_session delete_one
deleted_refresh st access [] full n = absurd (full refl)
deleted_refresh st access (c ∷ r) full n =
    rw (lookup-erase_ne (refresh_token_index (c ∷ r)) access _ n)
      (lookup-erase_self (refresh_token_index (c ∷ r)) st.session_db)

deleted_ne :
    (st : SessionStorage) (access refresh k : Text)
    → access ≢ k
    → refresh_token_index refresh ≢ k
    → lookup k (delete_session st access refresh).0.session_db ≡ lookup k st.session_db
unfolding delete_session delete_one
deleted_ne st access [] k n m = lookup-erase_ne k access st.session_db n
deleted_ne st access (c ∷ r) k n m =
    rw (lookup-erase_ne k access (erase (refresh_token_index (c ∷ r)) st.session_db) n)
      (lookup-erase_ne k (refresh_token_index (c ∷ r)) st.session_db m)

stored_ne :
    (st : SessionStorage) (now : ℕ) (s : SessionInfo) (k : Text)
    → s.access_token ≢ k
    → refresh_token_index s.refresh_token ≢ k
    → lookup k (store_session st now s).session_db ≡ lookup k st.session_db
unfolding store_session
stored_ne st now s k n m =
    rw
      (lookup-insert_ne k (refresh_token_index s.refresh_token) _
        (insert s.access_token (session s) st.session_db) m)
      (lookup-insert_ne k s.access_token (session s) st.session_db n)

-- A session that was just created and stored is the one that its access token opens, and the
-- storage stays as it is; and its refresh token finds a copy of it. The refresh token is not empty,
-- its index is not the access token, and the session ends after the start of the process.
pub login_opens :
    (clock : Clock) (st : SessionStorage) (now : ℕ) (access refresh user : Text)
    → access ≢ refresh_token_index refresh
    → refresh ≢ []
    → clock.started < (create_session st now access refresh user).expires_at
    → let s = create_session st now access refresh user in
      let st' = store_session st now s in
      (validate_session clock st' access ≡ (ok s, st'))
      × (get_session st' [] refresh ≡ some (session (refresh_copy st now s)))
unfolding validate_session validate_found still_active create_session
login_opens clock st now access refresh user n full live = (
  rw (
    get_session-access (store_session st now s) access,
    stored_access st now s n,
    lt→ltb clock.started s.expires_at live,
  ),
  get_session-refresh (store_session st now s) [] refresh full ∙ stored_refresh st now s,
)
  where
    s : SessionInfo
    s = create_session st now access refresh user

-- A refresh token that holds an active session is exchanged for a new session of the same user.
-- Afterwards the new access token and the new refresh token find the new session, and the old
-- refresh token and the old access token find nothing. The refresh tokens are not empty, and the
-- four keys (the access tokens and the indexes of the refresh tokens) differ.
pub refresh_rotates :
    (started : ℕ) (st : SessionStorage) (refresh : Text) (now : ℕ) (access' refresh' : Text)
    (s : SessionInfo)
    → refresh ≢ []
    → refresh' ≢ []
    → get_session st [] refresh ≡ some (session s)
    → still_active started s ≡ true
    → s.access_token ≢ refresh_token_index refresh
    → access' ≢ s.access_token
    → access' ≢ refresh_token_index refresh
    → access' ≢ refresh_token_index refresh'
    → refresh_token_index refresh' ≢ s.access_token
    → refresh_token_index refresh' ≢ refresh_token_index refresh
    → let new = create_session st now access' refresh' s.user_id in
      let (r, st') = refresh_session started st refresh now access' refresh' in
      (r ≡ ok new)
      × (get_session st' access' [] ≡ some (session new))
      × (get_session st' [] refresh' ≡ some (session (refresh_copy st now new)))
      × (get_session st' s.access_token [] ≡ none)
      × (get_session st' [] refresh ≡ none)
unfolding refresh_session refresh_found create_session
refresh_rotates started st refresh now access' refresh' s full full' held live n₀ n₁ n₂ n₃ n₄ n₅ =
    rw (held, live, refresh_found)
      (
        refl,
        get_session-access after access'
            ∙ deleted_ne st' s.access_token refresh access' (λ q. n₁ (sym q)) (λ q. n₂ (sym q))
            ∙ stored_access st now new n₃,
        get_session-refresh after [] refresh' full'
            ∙ deleted_ne st' s.access_token refresh (refresh_token_index refresh') (λ q. n₄ (sym q))
                (λ q. n₅ (sym q))
            ∙ stored_refresh st now new,
        get_session-access after s.access_token ∙ deleted_access st' s.access_token refresh,
        get_session-refresh after [] refresh full
            ∙ deleted_refresh st' s.access_token refresh full n₀,
      )
  where
    new : SessionInfo
    new = create_session st now access' refresh' s.user_id

    st' : SessionStorage
    st' = store_session st now new

    after : SessionStorage
    after = (delete_session st' s.access_token refresh).0

deleted_found :
    (st : SessionStorage) (access refresh : Text) (v : Stored)
    → get_session st access [] ≡ some v
    → refresh ≢ []
    → access ≢ refresh_token_index refresh
    → (delete_session st access refresh).1 ≡ true
unfolding delete_session delete_one get_session
deleted_found st access [] v held full n = absurd (full refl)
deleted_found st access (c ∷ r) v held full n =
    ap present
      (lookup-erase_ne access (refresh_token_index (c ∷ r)) st.session_db (λ q. n (sym q)) ∙ held)

-- Closing the session of an access token, whose refresh token is not empty and does not have the
-- access token as its index, reports success; afterwards neither of its tokens finds anything, and
-- what is stored under any other key stays.
pub close_forgets :
    (st : SessionStorage) (access : Text) (s : SessionInfo) (k : Text)
    → get_session st access [] ≡ some (session s)
    → s.refresh_token ≢ []
    → access ≢ refresh_token_index s.refresh_token
    → access ≢ k
    → refresh_token_index s.refresh_token ≢ k
    → let (r, st') = close_session st access in
      (r ≡ ok true)
      × (get_session st' access [] ≡ none)
      × (get_session st' [] s.refresh_token ≡ none)
      × (lookup k st'.session_db ≡ lookup k st.session_db)
unfolding close_session close_found
close_forgets st access s k held full n other other' =
    rw (held, close_found)
      (
        ap ok (deleted_found st access s.refresh_token (session s) held full n),
        get_session-access after access ∙ deleted_access st access s.refresh_token,
        get_session-refresh after [] s.refresh_token full
            ∙ deleted_refresh st access s.refresh_token full n,
        deleted_ne st access s.refresh_token k other other',
      )
  where
    after : SessionStorage
    after = (delete_session st access s.refresh_token).0
