-- ===== src/Portaswitch/Sample.antt =====
-- A switch for the tests: one account of the number 7 and an alias of it, a code, and a count of the
-- calls that changed something.
use porta_phone_adapter.Base.{
  ℕ, ◌+◌, true, Option, none, some, List, [], ◌∷◌, ◌==◌, if◌then◌else◌, length, take, drop,
}
use porta_phone_adapter.Base.Eq.{Text, codes, text_eq}
use porta_phone_adapter.Base.Result.{ok, err}
use porta_phone_adapter.Portaswitch.{billing, other_fault}
use porta_phone_adapter.Portaswitch.Account.{AccountInfo, debit, alias, LoginData, CustomField, Api}
use porta_phone_adapter.Portaswitch.Limits.{
  Adapter, Clock, Settings as LimitSettings, max_devices_field,
}
use porta_phone_adapter.Portaswitch.SignIn.{Settings, sip}
use porta_phone_adapter.Portaswitch.Otp.{Cipher}

abbrev pub owner : AccountInfo
owner = record {
  i_account = 7;
  id = codes "100";
  login = codes "bob";
  password = some (codes "web");
  h323_password = some (codes "sip");
  i_customer = some 3;
  i_master_account = 0;
  billing_model = debit;
  api_token = codes "tok";
  email = codes "Bob <bob@x.io>";
  assigned_addons = none ∷ some (codes "phone") ∷ [];
}

-- Another account with the address, without a token.
abbrev pub guest : AccountInfo
guest = record {
  i_account = 9;
  id = codes "300";
  login = codes "eve";
  password = none;
  h323_password = none;
  i_customer = none;
  i_master_account = 0;
  billing_model = debit;
  api_token = [];
  email = codes "eve@x.io, BOB@x.io";
  assigned_addons = [];
}

abbrev pub by_alias : AccountInfo
by_alias = record {
  i_account = 8;
  id = codes "200";
  login = [];
  password = none;
  h323_password = none;
  i_customer = some 3;
  i_master_account = 7;
  billing_model = alias;
  api_token = [];
  email = [];
  assigned_addons = [];
}

abbrev pub given : LoginData
given = record { access_token = codes "acc"; refresh_token = codes "ref"; expires_in = 60 }

abbrev pub account_of_id : Text → Option AccountInfo
account_of_id t =
    if text_eq t (codes "100")
    then some owner
    else if text_eq t (codes "200")
    then some by_alias
    else none

abbrev pub devices : CustomField
devices = record { name = max_devices_field; db_value = some (codes " 12 ") }

-- The rows are the candidates of every search by email.
abbrev pub api : List AccountInfo → Api
api rows = record {
  State = ℕ;
  account_by_id = λ s t. ok (account_of_id t);
  account_by_login = λ s t. ok (if text_eq t (codes "bob") then some owner else none);
  account_by_number = λ s i. ok (if i == 7 then some owner else none);
  accounts_by_email = λ s t offset.
      ok (record { account_list = take 1000 (drop offset rows); total = some (length rows) });
  account_fields = λ s i. ok (devices ∷ []);
  customer_fields = λ s i. err (billing (other_fault "down"));
  env_email = λ s. ok none;
  version = λ s. ok (codes "MR130-2");
  update_api_token = λ s i t. (ok tt, s + 1);
  login = λ s l p t. (ok given, s + 1);
  create_otp = λ s i. (ok true, s + 1);
  current_access_token = λ s. codes "adm";
  verify_otp = λ s code t. (ok (text_eq code (codes "1234")), s + 1);
}

abbrev pub start : Adapter ℕ
start = record {
  switch = 0;
  account_limits_cache = [];
  customer_limits_cache = [];
  env_email_cache = none;
  otps = [];
}

abbrev pub limit_settings : LimitSettings
limit_settings = record { max_devices = some 3; max_device_switches = some 0; ttl = 60 }

abbrev pub settings : Settings
settings = record {
  credentials = sip;
  allowed_addons = codes "phone" ∷ [];
  limits = limit_settings;
}

abbrev pub clock : Clock
clock = record {
  account_lookup = 10;
  account_store = 11;
  customer_lookup = 10;
  customer_store = 11;
}

-- A cipher that puts a mark before the text.
abbrev pub unmarked : Text → Option Text
unmarked [] = none
unmarked (c ∷ t) = some t

abbrev pub cipher : Cipher
cipher = record { encrypt = λ t. b'#' ∷ t; decrypt = unmarked }
