-- ===== src/Stored.antt =====
-- app/bss/dbs/serializer.py: how a model object is packed into a document of a database and read
-- back (`SerializerPydanticLight`). Values that are neither scalars nor objects nor lists, as dates
-- and dicts, are a parameter with their JSON, and so is what `orjson` and `datetime` read of a text.
-- A `RootModel` is one of a text, as the tokens and ids of app/bss/models.py are.
mod Round
mod Lost
mod Tests
use mathlib.Core.Option
use porta_phone_adapter.Base.{
  ℕ, Bool, true, false, not, ◌&&◌, ◌||◌, Option, none, some, List, [], ◌∷◌, ◌==◌, if◌then◌else◌,
}
use porta_phone_adapter.Base.Eq.{Text, codes, text_eq}

-- `is_scalar`: a text, a number or a truth value.
pub data Scalar : Type 0 where
  text : Text → Scalar
  number : ℕ → Scalar
  boolean : Bool → Scalar

-- A value without objects in it.
pub data Leaf (O : Type 0) : Type 0 where
  null : Leaf O
  scalar : Scalar → Leaf O
  other : O → Leaf O

-- A value of a field, a model object with its class name and its fields or with the text that it
-- wraps as a `RootModel`, and the items of a list.
mutual
  pub data Value (O : Type 0) : Type 0 where
    leaf : Leaf O → Value O
    nested : Object O → Value O
    items : Items O → Value O

  pub data Object (O : Type 0) : Type 0 where
    object : Text → Fields O → Object O
    wrapped : Text → Text → Object O

  pub data Fields (O : Type 0) : Type 0 where
    no_field : Fields O
    field : Text → Value O → Fields O → Fields O

  pub data Items (O : Type 0) : Type 0 where
    no_item : Items O
    nested_item : Object O → Items O → Items O
    plain_item : Leaf O → Items O → Items O

-- What is stored: a scalar, a document with the name of its class, or a list.
mutual
  pub data Packed (O : Type 0) : Type 0 where
    plain : Scalar → Packed O
    nested_document : Document O → Packed O
    packed_items : PackedItems O → Packed O

  pub data Document (O : Type 0) : Type 0 where
    document : Text → PackedFields O → Document O

  pub data PackedFields (O : Type 0) : Type 0 where
    no_packed_field : PackedFields O
    packed_field : Text → Packed O → PackedFields O → PackedFields O

  pub data PackedItems (O : Type 0) : Type 0 where
    no_packed_item : PackedItems O
    document_item : Document O → PackedItems O → PackedItems O
    kept_item : Leaf O → PackedItems O → PackedItems O

-- `orjson.dumps`, `orjson.loads` and `datetime.fromisoformat`; none where they raise.
pub record Json (O : Type 0) : Type 0 where
  pub dumps : O → Text
  pub loads : Text → Option (Leaf O)
  pub fromisoformat : Text → Option O

abbrev pub starts_with : ℕ → Text → Bool
starts_with c [] = false
starts_with c (d ∷ t) = d == c

abbrev pub ends_with : ℕ → Text → Bool
ends_with c [] = false
ends_with c (d ∷ []) = d == c
ends_with c (d ∷ e ∷ t) = ends_with c (e ∷ t)

abbrev pub is_quoted : Text → Bool
is_quoted t = starts_with b'"' t && ends_with b'"' t

abbrev pub contains : ℕ → Text → Bool
contains c [] = false
contains c (d ∷ t) = d == c || contains c t

-- Whether a text begins with another, and `word in t` for two texts.
abbrev pub begins : Text → Text → Bool
begins [] t = true
begins (c ∷ word) [] = false
begins (c ∷ word) (d ∷ t) = c == d && begins word t

abbrev pub is_within : Text → Text → Bool
is_within word [] = begins word []
is_within word (c ∷ t) = begins word (c ∷ t) || is_within word t

-- `val.strip('"')`
abbrev pub strip_front : Text → Text
strip_front [] = []
strip_front (c ∷ t) = let rest = strip_front t in if c == b'"' then rest else c ∷ t

abbrev pub quote_before : ℕ → Text → Text
quote_before c [] = if c == b'"' then [] else c ∷ []
quote_before c (d ∷ t) = c ∷ d ∷ t

abbrev pub strip_back : Text → Text
strip_back [] = []
strip_back (c ∷ t) = quote_before c (strip_back t)

abbrev pub strip_quotes : Text → Text
strip_quotes t = strip_back (strip_front t)

-- `replace('Z', '+00:00')`
abbrev pub zone_written : Text → Text
zone_written [] = []
zone_written (c ∷ t) =
    let rest = zone_written t in
    if c == b'Z' then b'+' ∷ b'0' ∷ b'0' ∷ b':' ∷ b'0' ∷ b'0' ∷ rest else c ∷ rest

module _ {O : Type 0} (json : Json O) where
  -- What a quoted text is tried for first.
  abbrev pub moment : Text → Option O
  moment t =
      if contains b'T' t && (contains b'-' t || contains b':' t)
      then json.fromisoformat (zone_written t)
      else none

  abbrev pub or_text : Text → Option (Leaf O) → Leaf O
  or_text t none = scalar (text t)
  or_text t (some l) = l

  abbrev pub moment_or_json : Text → Option O → Leaf O
  moment_or_json t none = or_text t (json.loads t)
  moment_or_json t (some o) = other o

  -- What `unpack` makes of a text.
  unfoldable pub restore : Text → Leaf O
  restore t =
      if text_eq t (codes "null")
      then null
      else if is_quoted t
      then moment_or_json t (moment (strip_quotes t))
      else if starts_with b'{' t || starts_with b'[' t
      then or_text t (json.loads t)
      else scalar (text t)

  -- What `pack` makes of a value that holds no object.
  abbrev pub pack_leaf : Leaf O → Scalar
  pack_leaf null = text (codes "null")
  pack_leaf (scalar s) = s
  pack_leaf (other o) = text (json.dumps o)

  abbrev pub unpack_scalar : Scalar → Leaf O
  unpack_scalar (text t) = restore t
  unpack_scalar (number n) = scalar (number n)
  unpack_scalar (boolean b) = scalar (boolean b)

  -- `field_name in obj.model_dump()`: the dump of an object has all its fields as keys; that of a
  -- `RootModel` is the text itself, in which Python then looks for the word.
  abbrev pub pack_root : Text → PackedFields O
  pack_root t =
      if is_within (codes "root") t
      then packed_field (codes "root") (plain (text t)) no_packed_field
      else no_packed_field

  -- `SerializerPydanticLight.pack`
  unfoldable mutual
    pub pack : Object O → Document O
    pack (object name fields) = document name (pack_fields fields)
    pack (wrapped name t) = document name (pack_root t)

    pub pack_fields : Fields O → PackedFields O
    pack_fields no_field = no_packed_field
    pack_fields (field name value fields) =
        packed_field name (pack_value value) (pack_fields fields)

    pub pack_value : Value O → Packed O
    pack_value (leaf l) = plain (pack_leaf l)
    pack_value (nested o) = nested_document (pack o)
    pack_value (items is) = packed_items (pack_items is)

    pub pack_items : Items O → PackedItems O
    pack_items no_item = no_packed_item
    pack_items (nested_item o is) = document_item (pack o) (pack_items is)
    pack_items (plain_item l is) = kept_item l (pack_items is)

-- What the parts make together; none where one of them has raised.
module _ {O : Type 0} where
  abbrev pub join_field : Text → Option (Value O) → Option (Fields O) → Option (Fields O)
  join_field name (some value) (some fields) = some (field name value fields)
  join_field name none rest = none
  join_field name (some value) none = none

  abbrev pub join_item : Option (Object O) → Option (Items O) → Option (Items O)
  join_item (some o) (some is) = some (nested_item o is)
  join_item none rest = none
  join_item (some o) none = none

  -- The constructor of a `RootModel` takes a text as its `root` and nothing else.
  abbrev pub construct_root : Text → Fields O → Option (Object O)
  construct_root name (field key (leaf (scalar (text t))) no_field) =
      if text_eq key (codes "root") then some (wrapped name t) else none
  construct_root name _ = none

  -- `constructor(**params)`
  abbrev pub construct : Bool → Text → Option (Fields O) → Option (Object O)
  construct is_root name none = none
  construct false name (some fields) = some (object name fields)
  construct true name (some fields) = construct_root name fields

-- `SerializerPydanticLight.unpack`; none where a constructor raises. Whether the class of a name is
-- a `RootModel` is an argument; any other class takes the fields as they are.
module _ {O : Type 0} (json : Json O) (is_root : Text → Bool) where
  unfoldable mutual
    pub unpack : Document O → Option (Object O)
    unpack (document name fields) = construct (is_root name) name (unpack_fields fields)

    pub unpack_fields : PackedFields O → Option (Fields O)
    unpack_fields no_packed_field = some no_field
    unpack_fields (packed_field name value fields) =
        join_field name (unpack_value value) (unpack_fields fields)

    pub unpack_value : Packed O → Option (Value O)
    unpack_value (plain s) = some (leaf (unpack_scalar json s))
    unpack_value (nested_document d) = Option.map nested (unpack d)
    unpack_value (packed_items is) = Option.map items (unpack_items is)

    pub unpack_items : PackedItems O → Option (Items O)
    unpack_items no_packed_item = some no_item
    unpack_items (document_item d is) = join_item (unpack d) (unpack_items is)
    unpack_items (kept_item l is) = Option.map (plain_item l) (unpack_items is)
