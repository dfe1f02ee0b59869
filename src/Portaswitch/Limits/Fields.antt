-- ===== src/Portaswitch/Limits/Fields.antt =====
-- app/bss/adapters/portaswitch/adapter.py: which limit a custom field sets, and what holds where the
-- switch fails.
use porta_phone_adapter.Base.{
  ℕ, ◌+◌, ◌-◌, ◌*◌, ◌≡◌, refl, ap, ◌∙◌, Bool, true, false, ◌&&◌, Option, none, some, List, [], ◌∷◌,
  ◌++◌, arith, ◌==◌, inl, inr, ◌⊎◌,
}
use porta_phone_adapter.Base.Eq.{Text, text_key, nat_eq, option_eq}
use porta_phone_adapter.Base.Dict.{Dict, lookup, lookup-insert_self}
use porta_phone_adapter.Base.Result.{ok, err}
use porta_phone_adapter.RecordingId.{all_digits, is_digit}
use porta_phone_adapter.Portaswitch.{Failure}
use porta_phone_adapter.Portaswitch.Account.{AccountInfo, CustomField, Api}
use porta_phone_adapter.Portaswitch.Limits.{
  Clock, Settings, Adapter, is_space, lstrip, space_before, strip_end, strip, more_digits, natural,
  add_value, limit_of, collect_values, custom_field_values, parse_device_limit, max_devices_field,
  field_limits, young_limits, cached_field_limits, or_unlimited, or_default, device_limits,
  limits_owner, read_device_limits,
}

abbrev pub all_spaces : Text → Bool
all_spaces [] = true
all_spaces (c ∷ t) = is_space c && all_spaces t

-- The number that decimal digits write.
abbrev pub decimal_value : ℕ → Text → ℕ
decimal_value n [] = n
decimal_value n (c ∷ t) = decimal_value (n * 10 + (c - b'0')) t

digit-not_space : (c : ℕ) → is_digit c ≡ true → is_space c ≡ false
digit-not_space c h = ground arith

lstrip-spaces :
    (before : Text) (c : ℕ) (t : Text)
    → all_spaces before ≡ true
    → is_digit c ≡ true
    → lstrip (before ++ c ∷ t) ≡ c ∷ t
lstrip-spaces [] c t h g = rw (digit-not_space c g) refl
lstrip-spaces (b ∷ before) c t h g =
    let space : is_space b ≡ true = ground arith in
    rw space (lstrip-spaces before c t (ground arith) g)

strip_end-spaces : (after : Text) → all_spaces after ≡ true → strip_end after ≡ []
strip_end-spaces [] h = refl
strip_end-spaces (c ∷ t) h =
    let space : is_space c ≡ true = ground arith in
    ap (space_before c) (strip_end-spaces t (ground arith)) ∙ rw space refl

strip_end-digits :
    (ds after : Text)
    → all_digits ds ≡ true
    → all_spaces after ≡ true
    → strip_end (ds ++ after) ≡ ds
strip_end-digits [] after h g = strip_end-spaces after g
strip_end-digits (c ∷ []) after h g =
    let other = digit-not_space c (ground arith) in
    ap (space_before c) (strip_end-spaces after g) ∙ rw other refl
strip_end-digits (c ∷ d ∷ ds) after h g =
    ap (space_before c) (strip_end-digits (d ∷ ds) after (ground arith) g)

more_digits-value :
    (ds : Text) (n : ℕ) → all_digits ds ≡ true → more_digits true n ds ≡ some (decimal_value n ds)
more_digits-value [] n h = refl
more_digits-value (c ∷ ds) n h =
    let digit : is_digit c ≡ true = ground arith in
    rw digit (more_digits-value ds (n * 10 + (c - b'0')) (ground arith))

natural-decimal :
    (c : ℕ) (ds : Text)
    → all_digits (c ∷ ds) ≡ true
    → natural (c ∷ ds) ≡ some (decimal_value 0 (c ∷ ds))
unfolding natural
natural-decimal c ds h =
    let digit : is_digit c ≡ true = ground arith in
    let minus : (c == b'-') ≡ false = ground arith in
    let plus : (c == b'+') ≡ false = ground arith in
    rw (minus, plus, digit) (more_digits-value ds (0 * 10 + (c - b'0')) (ground arith))

natural-strip :
    (before : Text) (c : ℕ) (ds after : Text)
    → all_spaces before ≡ true
    → all_digits (c ∷ ds) ≡ true
    → all_spaces after ≡ true
    → natural (strip (before ++ ((c ∷ ds) ++ after))) ≡ some (decimal_value 0 (c ∷ ds))
unfolding strip
natural-strip before c ds after h g k =
    ap (λ t. natural (strip_end t)) (lstrip-spaces before c (ds ++ after) h (ground arith))
    ∙ ap natural (strip_end-digits (c ∷ ds) after g k)
    ∙ natural-decimal c ds g

collect-append :
    (values : Dict Text (Option Text)) (fs : List CustomField) (f : CustomField)
    → collect_values values (fs ++ f ∷ []) ≡ add_value f.name f.db_value (collect_values values fs)
unfolding collect_values
collect-append values [] f = refl
collect-append values (g ∷ fs) f = collect-append (add_value g.name g.db_value values) fs f

-- The field of the devices with a value, the last of the fields.
abbrev pub devices_field : Text → CustomField
devices_field value = record { name = max_devices_field; db_value = some value }

last_field_counts :
    (fs : List CustomField) (value : Text)
    → (field_limits (fs ++ devices_field value ∷ [])).0 ≡ natural (strip value)
unfolding field_limits custom_field_values parse_device_limit
last_field_counts fs value =
    ap (λ values. limit_of (lookup max_devices_field values))
      (collect-append [] fs (devices_field value))
    ∙ ap limit_of (lookup-insert_self max_devices_field (some value) (collect_values [] fs))

module _ (api : Api) where
  -- Where the account, or its master if it is an alias, is read well, nothing young is cached for
  -- it, and the last of its custom fields sets the devices to a number in decimal digits with
  -- white space around them, the limit of devices of the account is that number, with zero for no
  -- limit, whatever the default and the fields before it say.
  pub account_limit_applies :
      (settings : Settings) (clock : Clock) (a owner : AccountInfo) (s : Adapter api.State)
      (fs : List CustomField) (before : Text) (c : ℕ) (ds after : Text)
      → limits_owner api a s.switch ≡ ok owner
      → young_limits settings.ttl clock.account_lookup
          (lookup owner.i_account s.account_limits_cache)
        ≡ none
      → api.account_fields s.switch owner.i_account
        ≡ ok (fs ++ devices_field (before ++ ((c ∷ ds) ++ after)) ∷ [])
      → all_spaces before ≡ true
      → all_digits (c ∷ ds) ≡ true
      → all_spaces after ≡ true
      → ((read_device_limits api settings clock a s).0).account_max_devices
        ≡ or_unlimited (some (decimal_value 0 (c ∷ ds)))
  unfolding read_device_limits cached_field_limits device_limits
  account_limit_applies settings clock a owner s fs before c ds after o y r h g k =
      rw (o, y, r)
        (ap (λ l. or_unlimited (or_default l settings.max_devices))
          (last_field_counts fs (before ++ ((c ∷ ds) ++ after))
            ∙ natural-strip before c ds after h g k))

  -- Where the master of an alias cannot be read, or neither the fields of the account nor those of
  -- its customer can and nothing young is cached for either, the sign-in goes on with the default
  -- limits of the account, no limits of the customer, and both caches as they were.
  pub failed_read_defaults :
      (settings : Settings) (clock : Clock) (a owner : AccountInfo) (s : Adapter api.State)
      (f g h : Failure)
      → (limits_owner api a s.switch ≡ err f)
        ⊎ ((limits_owner api a s.switch ≡ ok owner)
            × (young_limits settings.ttl clock.account_lookup
                  (lookup owner.i_account s.account_limits_cache)
                ≡ none)
            × (young_limits settings.ttl clock.customer_lookup
                  (lookup owner.i_customer s.customer_limits_cache)
                ≡ none)
            × (api.account_fields s.switch owner.i_account ≡ err g)
            × (api.customer_fields s.switch owner.i_customer ≡ err h))
      → let (limits, s') = read_device_limits api settings clock a s in
        (limits.account_max_devices ≡ or_unlimited settings.max_devices)
        × (limits.account_max_device_switches ≡ or_unlimited settings.max_device_switches)
        × (limits.customer_max_devices ≡ none)
        × (limits.customer_max_device_switches ≡ none)
        × (s' ≡ s)
  unfolding read_device_limits cached_field_limits device_limits
  failed_read_defaults settings clock a owner s f g h (inl e) = rw e (refl, refl, refl, refl, refl)
  failed_read_defaults settings clock a owner s f g h (inr (o, y, z, r, q)) =
      rw (o, y, z, r, q) (refl, refl, refl, refl, refl)
