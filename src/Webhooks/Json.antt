-- ===== src/Webhooks/Json.antt =====
-- The values of a parsed JSON body as Python reads them. A number is the text that `str` gives for
-- it (`0`, `0.0` and `-0.0` are the zeros), an object its members in order, with the last one for a key the one that counts.
use tci.Prelude.{
  Bool, true, false, not, Option, none, some, String, if◌then◌else◌, ◌==◌, string_eq, ◌||◌,
}

mutual
  pub data Json : Type 0 where
    null : Json
    boolean : Bool → Json
    number : String → Json
    text : String → Json
    array : Items → Json
    object : Members → Json

  pub data Items : Type 0 where
    no_items : Items
    item : Json → Items → Items

  pub data Members : Type 0 where
    no_members : Members
    member : String → Json → Members → Members

abbrev or_null : Option Json → Json
or_null none = null
or_null (some v) = v

lookup : String → Members → Option Json
lookup key no_members = none
lookup key (member name v rest) =
    let later = lookup key rest in
    elim later [ some w ↦ some w | none ↦ if name == key then some v else none ]

-- `payload.get(key)`
unfoldable pub get_key : Members → String → Json
unfolding lookup
get_key members key = or_null (lookup key members)

-- `bool(value)`
abbrev pub is_truthy : Json → Bool
is_truthy null = false
is_truthy (boolean b) = b
is_truthy (number literal) = not (literal == "0" || literal == "0.0" || literal == "-0.0")
is_truthy (text s) = not (s == "")
is_truthy (array no_items) = false
is_truthy (array (item v rest)) = true
is_truthy (object no_members) = false
is_truthy (object (member name v rest)) = true

infixr 4 ◌orelse◌
-- `a or b`
abbrev pub ◌orelse◌ : Json → Json → Json
a orelse b = if is_truthy a then a else b

-- `v if isinstance(v, dict) else {}`
abbrev pub members_or_empty : Json → Members
members_or_empty (object members) = members
members_or_empty _ = no_members
