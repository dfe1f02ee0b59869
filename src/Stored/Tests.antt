-- ===== src/Stored/Tests.antt =====
-- The round trip of a stored object with a nested one, a date and a list.
use porta_phone_adapter.Base.{◌≡◌, Bool, ◌||◌, refl, none, some, if◌then◌else◌}
use porta_phone_adapter.Base.Eq.{Text, codes, text_eq}
use porta_phone_adapter.Stored.{
  text, number, null, scalar, other, leaf, nested, items, Object, object, wrapped, no_field, field,
  no_item, plain_item, Json, restore, pack, unpack,
}
use porta_phone_adapter.Stored.Round.{
  is_storable, storable_fields, storable_value, storable_items, pack-unpack,
}
use porta_phone_adapter.Stored.Lost.{has_lost_root, lost_in_fields, lost_in_value, lost_in_items}

-- The only other value is one date.
abbrev iso : Text
iso = codes "2025-01-01T00:00:00+00:00"

abbrev json : Json (Unit {0})
json = record {
  dumps = λ o. codes "\"2025-01-01T00:00:00Z\"";
  loads = λ t. none;
  fromisoformat = λ t. if text_eq t iso then some tt else none;
}

date_back : (o : Unit {0}) → restore json (json.dumps o) ≡ other o
unfolding restore text_eq
date_back tt = refl

-- The class names of `RootModel`s.
abbrev is_root : Text → Bool
is_root name = text_eq name (codes "UserId") || text_eq name (codes "AccessToken")

abbrev expiring : Text → Object (Unit {0})
expiring token = object (codes "SessionInfo") (
    field (codes "access_token") (nested (wrapped (codes "AccessToken") token)) (
      field (codes "expires_at") (leaf (other tt)) (
        field (codes "owner")
          (nested (
            object (codes "Owner") (
              field (codes "id") (leaf (scalar (number 7)))
                (field (codes "name") (leaf null) no_field))))
          (field (codes "tags") (items (plain_item (scalar (text (codes "null"))) no_item))
            no_field))))

-- A token without the word cannot be read back; one with it can.
pack-unpack_example : unpack json is_root (pack json (expiring (codes "9f2c"))) ≡ none
unfolding is_storable storable_fields storable_value storable_items has_lost_root lost_in_fields
    lost_in_value text_eq
pack-unpack_example = pack-unpack json is_root date_back (expiring (codes "9f2c")) refl

kept :
    unpack json is_root (pack json (expiring (codes "the root")))
    ≡ some (expiring (codes "the root"))
unfolding is_storable storable_fields storable_value storable_items has_lost_root lost_in_fields
    lost_in_value lost_in_items text_eq
kept = pack-unpack json is_root date_back (expiring (codes "the root")) refl
