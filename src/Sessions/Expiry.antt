-- ===== src/Sessions/Expiry.antt =====
-- When a stored session is accepted. `still_active` compares with the start of the process.
use porta_phone_adapter.Base.{
  ℕ, ◌+◌, ◌*◌, ◌≤◌, ◌<◌, ◌≡◌, refl, ◌∙◌, ◌⊎◌, inl, inr, none, some, [], arith, ltb, ltb→lt, lt→ltb,
  Bool-cases,
}
use porta_phone_adapter.Base.Eq.{Text, text_key}
use porta_phone_adapter.Base.Result.{ok, err, webtrit}
use porta_phone_adapter.Sessions.{
  SessionInfo, session, SessionStorage, still_active, refresh_token_index, get_session,
  refresh_copy, store_session, second,
}
use porta_phone_adapter.Sessions.Rotation.{get_session-access, deleted_access, stored_refresh}
use porta_phone_adapter.Sessions.Management.{clock_at, validate_session, validate_found}

-- For a stored session, the present makes no difference to `validate_session`, which answers by
-- the start of the process alone: whatever the present is, it accepts and changes nothing when the
-- session ends after that start, also when the end has passed since; and otherwise it answers 401
-- access_token_expired and forgets the access token.
pub validate_by_start :
    (started present : ℕ) (st : SessionStorage) (access : Text) (s : SessionInfo)
    → get_session st access [] ≡ some (session s)
    → let clock = clock_at started present in
      let (r, st') = validate_session clock st access in
      ((started < s.expires_at) × (r ≡ ok s) × (st' ≡ st))
      ⊎ ((s.expires_at ≤ started)
          × (r ≡ err (webtrit 401 (some "access_token_expired")))
          × (get_session st' access [] ≡ none))
unfolding validate_session validate_found still_active
validate_by_start started present st access s held = elim (Bool-cases (ltb started s.expires_at)) [
  | inl a ↦ rw (held, a) (inl (ltb→lt started s.expires_at a, refl, refl))
  | inr a ↦
      rw (held, a)
        (inr (ground arith, refl, get_session-access _ access ∙ deleted_access st access []))
]

-- The index of the refresh token of a stored session opens its copy when it is presented as an
-- access token, if the life of the refresh token ends after the start of the process.
pub refresh_index_opens :
    (started present : ℕ) (st : SessionStorage) (now : ℕ) (s : SessionInfo)
    → started < now + st.refresh_token_expiration * 3600 * second
    → let st' = store_session st now s in
      validate_session (clock_at started present) st' (refresh_token_index s.refresh_token)
      ≡ (ok (refresh_copy st now s), st')
unfolding validate_session validate_found still_active refresh_copy
refresh_index_opens started present st now s live = rw (
  get_session-access (store_session st now s) (refresh_token_index s.refresh_token),
  stored_refresh st now s,
  lt→ltb started _ live,
)
