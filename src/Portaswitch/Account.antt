-- ===== src/Portaswitch/Account.antt =====
-- app/bss/adapters/portaswitch/adapter.py: the account record that the sign-in reads, what it asks of
-- it, and the calls of the switch that the sign-in makes. A read of the switch leaves its state.
use porta_phone_adapter.Base.{
  ℕ, Bool, true, false, ◌||◌, Option, none, some, List, [], ◌∷◌, if◌then◌else◌,
}
use porta_phone_adapter.Base.Eq.{Text, text_eq}
use porta_phone_adapter.Base.Result.{Result}
use porta_phone_adapter.Portaswitch.{Failure}

-- AccountInfo.billing_model, as far as it is named.
pub data BillingModel : Type 0 where
  debit voucher credit alias beneficiary unknown : BillingModel

pub record AccountInfo : Type 0 where
  pub i_account : ℕ
  pub id : Text
  pub login : Text
  -- None where they are None.
  pub password : Option Text
  pub h323_password : Option Text
  pub i_customer : Option ℕ
  pub i_master_account : ℕ
  pub billing_model : BillingModel
  pub api_token : Text
  pub email : Text
  -- The add-ons, none for one without a name.
  pub assigned_addons : List (Option Text)

-- `_is_beneficiary`
abbrev pub is_beneficiary : BillingModel → Bool
is_beneficiary beneficiary = true
is_beneficiary _ = false

-- The account whose record is read instead: the master of an alias, not the sponsor of a
-- beneficiary; zero for none.
unfoldable pub master_of : AccountInfo → ℕ
master_of a = if is_beneficiary a.billing_model then 0 else a.i_master_account

abbrev pub member : Text → List Text → Bool
member t [] = false
member t (x ∷ xs) = text_eq x t || member t xs

abbrev pub any_member : List (Option Text) → List Text → Bool
any_member [] allowed = false
any_member (none ∷ addons) allowed = any_member addons allowed
any_member (some name ∷ addons) allowed = member name allowed || any_member addons allowed

abbrev pub none_given : List Text → Bool
none_given [] = true
none_given (x ∷ xs) = false

-- `_check_allowed_addons`, which is made where the setting names add-ons.
unfoldable pub addons_allowed : List Text → AccountInfo → Bool
addons_allowed allowed a = none_given allowed || any_member a.assigned_addons allowed

-- What a login of an account gives.
pub record LoginData : Type 0 where
  pub access_token : Text
  pub refresh_token : Text
  pub expires_in : ℕ

-- A custom field: its name and its `db_value`, none where that is None.
pub record CustomField : Type 0 where
  pub name : Text
  pub db_value : Option Text

pub record AccountPage : Type 0 where
  pub account_list : List AccountInfo
  pub total : Option ℕ

-- What is kept for an OTP: the account, who asked, and the encrypted session of the switch.
pub record StoredOtp : Type 0 where
  pub i_account : ℕ
  pub user_ref : Text
  pub stored_token : Option Text

-- The switch behind the admin and the account realm.
pub record Api : Type 1 where
  pub State : Type 0
  pub account_by_id : State → Text → Result Failure (Option AccountInfo)
  pub account_by_login : State → Text → Result Failure (Option AccountInfo)
  pub account_by_number : State → ℕ → Result Failure (Option AccountInfo)
  pub accounts_by_email : State → Text → ℕ → Result Failure AccountPage
  pub account_fields : State → ℕ → Result Failure (List CustomField)
  pub customer_fields : State → Option ℕ → Result Failure (List CustomField)
  pub env_email : State → Result Failure (Option Text)
  pub version : State → Result Failure Text
  pub update_api_token : State → ℕ → Text → Result Failure (Unit {0}) × State
  -- The login name, the password and the token, none where it is left out.
  pub login : State → Text → Option Text → Option Text → Result Failure LoginData × State
  pub create_otp : State → ℕ → Result Failure Bool × State
  pub current_access_token : State → Text
  -- The code, and the session of the switch to verify it in, none for the adapter's own.
  pub verify_otp : State → Text → Option Text → Result Failure Bool × State
