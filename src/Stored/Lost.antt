-- ===== src/Stored/Lost.antt =====
-- app/bss/dbs/serializer.py: which objects cannot be read back.
use mathlib.Core.Option
use porta_phone_adapter.Base.{
  ◌≡◌, refl, sym, ap, ◌∙◌, ◌⊎◌, inl, inr, Bool, true, false, not, ◌&&◌, ◌||◌, Option, none, some,
  if◌then◌else◌,
}
use porta_phone_adapter.Base.Eq.{Text, codes}
use porta_phone_adapter.Stored.{
  Value, leaf, nested, items, Object, object, wrapped, Fields, no_field, field, Items, no_item,
  nested_item, plain_item, Json, is_within, text, plain, packed_field, no_packed_field, pack_root,
  construct, join_field, join_item, pack, pack_fields, pack_value, pack_items, unpack,
  unpack_fields, unpack_value, unpack_items,
}

-- Somewhere in the object, at any depth, is a `RootModel` whose text has not the word in it.
module _ {O : Type 0} (is_root : Text → Bool) where
  unfoldable mutual
    pub has_lost_root : Object O → Bool
    has_lost_root (object name fields) = lost_in_fields fields
    has_lost_root (wrapped name t) = is_root name && not (is_within (codes "root") t)

    pub lost_in_fields : Fields O → Bool
    lost_in_fields no_field = false
    lost_in_fields (field name value fields) = lost_in_value value || lost_in_fields fields

    pub lost_in_value : Value O → Bool
    lost_in_value (leaf l) = false
    lost_in_value (nested o) = has_lost_root o
    lost_in_value (items is) = lost_in_items is

    pub lost_in_items : Items O → Bool
    lost_in_items no_item = false
    lost_in_items (nested_item o is) = has_lost_root o || lost_in_items is
    lost_in_items (plain_item l is) = lost_in_items is

pub and_left : (a b : Bool) → (a && b) ≡ true → a ≡ true
and_left true b h = refl
and_left false b h = h

pub and_right : (a b : Bool) → (a && b) ≡ true → b ≡ true
and_right true b h = h
and_right false b h = cc

pub not-true : (a : Bool) → not a ≡ true → a ≡ false
not-true true h = sym h
not-true false h = refl

pub or_left : (a b : Bool) → (a || b) ≡ false → a ≡ false
or_left true b h = cc
or_left false b h = refl

pub or_right : (a b : Bool) → (a || b) ≡ false → b ≡ false
or_right true b h = cc
or_right false b h = h

-- A `RootModel` that is not lost has the word in it.
pub kept_root : (a b : Bool) → a ≡ true → (a && not b) ≡ false → b ≡ true
kept_root true true r h = refl
kept_root true false r h = cc
kept_root false b r h = cc

or_cases : (a b : Bool) → (a || b) ≡ true → (a ≡ true) ⊎ (b ≡ true)
or_cases true b h = inl refl
or_cases false b h = inr h

join_field-none :
    {O : Type 0} (name : Text) (value : Option (Value O)) → join_field name value none ≡ none
join_field-none name none = refl
join_field-none name (some value) = refl

join_item-none : {O : Type 0} (o : Option (Object O)) → join_item o none ≡ none
join_item-none none = refl
join_item-none (some o) = refl

module _ {O : Type 0} (json : Json O) (is_root : Text → Bool) where
  mutual
    unfolding pack pack_fields pack_value pack_items unpack unpack_fields unpack_value unpack_items
        has_lost_root lost_in_fields lost_in_value lost_in_items

    pub object_lost :
        (o : Object O) → has_lost_root is_root o ≡ true → unpack json is_root (pack json o) ≡ none
    object_lost (object name fields) h = ap (construct (is_root name) name) (fields_lost fields h)
    object_lost (wrapped name t) h =
        ap (λ b. construct b name (unpack_fields json is_root (pack_root json t)))
          (and_left (is_root name) _ h)
        ∙ ap
            (λ m. construct true name (
              unpack_fields json is_root (
                if m
                then packed_field (codes "root") (plain (text t)) no_packed_field
                else no_packed_field)))
            (not-true _ (and_right (is_root name) _ h))

    fields_lost :
        (fields : Fields O)
        → lost_in_fields is_root fields ≡ true
        → unpack_fields json is_root (pack_fields json fields) ≡ none
    fields_lost no_field h = cc
    fields_lost (field name value fields) h =
        elim (or_cases (lost_in_value is_root value) (lost_in_fields is_root fields) h) [
          | inl v ↦
              ap (λ x. join_field name x (unpack_fields json is_root (pack_fields json fields)))
                (value_lost value v)
          | inr r ↦
              ap (join_field name (unpack_value json is_root (pack_value json value)))
                (fields_lost fields r)
              ∙ join_field-none name (unpack_value json is_root (pack_value json value))
        ]

    value_lost :
        (value : Value O)
        → lost_in_value is_root value ≡ true
        → unpack_value json is_root (pack_value json value) ≡ none
    value_lost (leaf l) h = cc
    value_lost (nested o) h = ap (Option.map nested) (object_lost o h)
    value_lost (items is) h = ap (Option.map items) (items_lost is h)

    items_lost :
        (is : Items O)
        → lost_in_items is_root is ≡ true
        → unpack_items json is_root (pack_items json is) ≡ none
    items_lost no_item h = cc
    items_lost (nested_item o is) h =
        elim (or_cases (has_lost_root is_root o) (lost_in_items is_root is) h) [
          | inl v ↦
              ap (λ x. join_item x (unpack_items json is_root (pack_items json is)))
                (object_lost o v)
          | inr r ↦
              ap (join_item (unpack json is_root (pack json o))) (items_lost is r)
              ∙ join_item-none (unpack json is_root (pack json o))
        ]
    items_lost (plain_item l is) h = ap (Option.map (plain_item l)) (items_lost is h)
