-- ===== src/Stored/Round.antt =====
-- app/bss/dbs/serializer.py: which objects read back as they were stored.
use mathlib.Core.Option
use porta_phone_adapter.Base.{
  ◌≡◌, refl, ap, ◌∙◌, Bool, true, false, not, ◌&&◌, ◌||◌, none, some, inl, inr, if◌then◌else◌,
  Bool-cases,
}
use porta_phone_adapter.Base.Eq.{Text, codes, text_eq}
use porta_phone_adapter.Stored.{
  text, number, boolean, Leaf, null, scalar, other, Value, leaf, nested, items, Object, object,
  wrapped, plain, packed_field, no_packed_field, is_within, pack_root, construct, join_field,
  join_item, Fields, no_field, field, Items, no_item, nested_item, plain_item, Json, starts_with,
  is_quoted, restore, pack_leaf, unpack_scalar, pack, pack_fields, pack_value, pack_items, unpack,
  unpack_fields, unpack_value, unpack_items,
}
use porta_phone_adapter.Stored.Lost.{
  and_left, and_right, or_left, or_right, not-true, kept_root, has_lost_root, lost_in_fields,
  lost_in_value, lost_in_items, object_lost,
}

-- A text that is not read as JSON.
abbrev pub is_plain_text : Text → Bool
is_plain_text t =
    not (text_eq t (codes "null"))
    && not (is_quoted t)
    && not (starts_with b'{' t || starts_with b'[' t)

abbrev pub storable_leaf : {O : Type 0} → Leaf O → Bool
storable_leaf (scalar (text t)) = is_plain_text t
storable_leaf _ = true

-- Every text in a field is one of those, at every depth, and so is the text of a `RootModel`; the
-- items of a list may be any.
module _ {O : Type 0} (is_root : Text → Bool) where
  unfoldable mutual
    pub is_storable : Object O → Bool
    is_storable (object name fields) = not (is_root name) && storable_fields fields
    is_storable (wrapped name t) = is_root name && is_plain_text t

    pub storable_fields : Fields O → Bool
    storable_fields no_field = true
    storable_fields (field name value fields) = storable_value value && storable_fields fields

    pub storable_value : Value O → Bool
    storable_value (leaf l) = storable_leaf l
    storable_value (nested o) = is_storable o
    storable_value (items is) = storable_items is

    pub storable_items : Items O → Bool
    storable_items no_item = true
    storable_items (nested_item o is) = is_storable o && storable_items is
    storable_items (plain_item l is) = storable_items is

module _ {O : Type 0} (json : Json O) (is_root : Text → Bool)
    (law : (o : O) → restore json (json.dumps o) ≡ other o) where
  plain_text_kept : (t : Text) → is_plain_text t ≡ true → restore json t ≡ scalar (text t)
  unfolding restore
  plain_text_kept t h =
      let front = and_left (not (text_eq t (codes "null")) && not (is_quoted t)) _ h in
      let no_null = not-true _ (and_left (not (text_eq t (codes "null"))) _ front) in
      let unquoted = not-true _ (and_right (not (text_eq t (codes "null"))) _ front) in
      let no_json =
        not-true _ (and_right (not (text_eq t (codes "null")) && not (is_quoted t)) _ h) in
      rw (no_null, unquoted, no_json) refl

  leaf_back : (l : Leaf O) → storable_leaf l ≡ true → unpack_scalar json (pack_leaf json l) ≡ l
  unfolding restore text_eq
  leaf_back null h = refl
  leaf_back (scalar (text t)) h = plain_text_kept t h
  leaf_back (scalar (number n)) h = refl
  leaf_back (scalar (boolean b)) h = refl
  leaf_back (other o) h = law o

  root_back :
      (name t : Text)
      → is_within (codes "root") t ≡ true
      → is_plain_text t ≡ true
      → construct true name (unpack_fields json is_root (pack_root json t)) ≡ some (wrapped name t)
  unfolding unpack_fields unpack_value text_eq
  root_back name t within readable =
      ap
        (λ m. construct true name (
          unpack_fields json is_root (
            if m
            then packed_field (codes "root") (plain (text t)) no_packed_field
            else no_packed_field)))
        within
      ∙ ap (λ l. construct true name (some (field (codes "root") (leaf l) no_field)))
          (plain_text_kept t readable)

  mutual
    unfolding pack pack_fields pack_value pack_items unpack unpack_fields unpack_value unpack_items
        is_storable storable_fields storable_value storable_items has_lost_root lost_in_fields
        lost_in_value lost_in_items

    object_back :
        (o : Object O)
        → is_storable is_root o ≡ true
        → has_lost_root is_root o ≡ false
        → unpack json is_root (pack json o) ≡ some o
    object_back (object name fields) h k =
        ap (λ b. construct b name (unpack_fields json is_root (pack_fields json fields)))
          (not-true _ (and_left _ (storable_fields is_root fields) h))
        ∙ ap (construct false name) (fields_back fields (and_right (not (is_root name)) _ h) k)
    object_back (wrapped name t) h k =
        let root = and_left (is_root name) (is_plain_text t) h in
        ap (λ b. construct b name (unpack_fields json is_root (pack_root json t))) root
        ∙ root_back name t (kept_root _ _ root k) (and_right (is_root name) _ h)

    fields_back :
        (fields : Fields O)
        → storable_fields is_root fields ≡ true
        → lost_in_fields is_root fields ≡ false
        → unpack_fields json is_root (pack_fields json fields) ≡ some fields
    fields_back no_field h k = refl
    fields_back (field name value fields) h k =
        ap (λ v. join_field name v (unpack_fields json is_root (pack_fields json fields)))
          (value_back value (and_left _ (storable_fields is_root fields) h)
            (or_left _ (lost_in_fields is_root fields) k))
        ∙ ap (join_field name (some value)) (
            fields_back fields (and_right (storable_value is_root value) _ h)
              (or_right (lost_in_value is_root value) _ k))

    value_back :
        (value : Value O)
        → storable_value is_root value ≡ true
        → lost_in_value is_root value ≡ false
        → unpack_value json is_root (pack_value json value) ≡ some value
    value_back (leaf l) h k = ap (λ x. some (leaf x)) (leaf_back l h)
    value_back (nested o) h k = ap (Option.map nested) (object_back o h k)
    value_back (items is) h k = ap (Option.map items) (items_back is h k)

    items_back :
        (is : Items O)
        → storable_items is_root is ≡ true
        → lost_in_items is_root is ≡ false
        → unpack_items json is_root (pack_items json is) ≡ some is
    items_back no_item h k = refl
    items_back (nested_item o is) h k =
        ap (λ x. join_item x (unpack_items json is_root (pack_items json is)))
          (object_back o (and_left _ (storable_items is_root is) h)
            (or_left _ (lost_in_items is_root is) k))
        ∙ ap (join_item (some o)) (
            items_back is (and_right (is_storable is_root o) _ h)
              (or_right (has_lost_root is_root o) _ k))
    items_back (plain_item l is) h k = ap (Option.map (plain_item l)) (items_back is h k)

  -- What becomes of an object that is packed and read back, where what `dumps` writes of a value
  -- that is no scalar is read back as that value, where no text in a field and no text of a
  -- `RootModel` is `null`, begins and ends with a quotation mark, or begins with a brace or a
  -- bracket, at any depth of nesting, and where exactly the `RootModel`s have a class that is one:
  -- if some `RootModel` in it has a text without the word `root`, the reading fails; and otherwise
  -- the object comes back as it was.
  pub pack-unpack :
      (o : Object O)
      → is_storable is_root o ≡ true
      → unpack json is_root (pack json o) ≡ (if has_lost_root is_root o then none else some o)
  pack-unpack o h = elim (Bool-cases (has_lost_root is_root o)) [
    | inl lost ↦ rw lost (object_lost json is_root o lost)
    | inr kept ↦ rw kept (object_back o h kept)
  ]
