-- ===== src/Contracts/Value.antt =====
-- Untrusted JavaScript values (`unknown`), as JSON builds them, and the tests that the guards of
-- packages/contracts/src share: isRecord, hasOnlyKeys, isId, isSourceId and the version check.
use sandboxengine.Prelude.{
  ℕ, Bool, false, ◌&&◌, ◌||◌, Option, none, some, List, [], ◌∷◌, leb, ◌==◌, length, all, any,
  if◌then◌else◌,
}
use sandboxengine.Prelude.Int.{ℤ}
use sandboxengine.Prelude.Text.{Text, lit, text_eq}

-- A number is an integer, a fraction, or one of NaN and the infinities.
pub data Number : Type 0 where
  integer : ℤ → Number
  fraction : Number
  not_finite : Number

mutual
  pub data Value : Type 0 where
    null : Value
    bool : Bool → Value
    num : Number → Value
    str : Text → Value
    arr : Items → Value
    obj : Fields → Value

  pub data Items : Type 0 where
    nil : Items
    cons : Value → Items → Items

  -- The own enumerable properties of an object, its keys distinct.
  pub data Fields : Type 0 where
    end : Fields
    field : Text → Value → Fields → Fields

abbrev pub items : Items → List Value
items nil = []
items (cons v vs) = v ∷ items vs

abbrev pub keys : Fields → List Text
keys end = []
keys (field k v fs) = k ∷ keys fs

-- value.key; `none` is undefined
abbrev pub get : Text → Fields → Option Value
get k end = none
get k (field j v fs) = if text_eq j k then some v else get k fs

-- array.includes
abbrev pub includes : List Text → Text → Bool
includes ks k = any (text_eq k) ks

-- hasOnlyKeys
abbrev pub has_only_keys : Fields → List Text → Bool
has_only_keys fs allowed = all (includes allowed) (keys fs)

-- typeof value === "string"
abbrev pub as_text : Option Value → Option Text
as_text (some (str s)) = some s
as_text _ = none

-- value === text, for a text of the source
abbrev pub is_text : Option Value → Text → Bool
is_text (some (str s)) t = text_eq s t
is_text _ t = false

-- typeof value === "number" && Number.isInteger(value)
abbrev pub as_integer : Option Value → Option ℤ
as_integer (some (num (integer z))) = some z
as_integer _ = none

-- isRecord, with the record's properties
abbrev pub as_record : Value → Option Fields
as_record (obj fs) = some fs
as_record _ = none

-- [A-Za-z0-9]
abbrev pub is_alphanumeric : ℕ → Bool
is_alphanumeric c =
    (leb b'A' c && leb c b'Z') || (leb b'a' c && leb c b'z') || (leb b'0' c && leb c b'9')

-- [A-Za-z0-9._:-]
abbrev pub is_id_unit : ℕ → Bool
is_id_unit c = is_alphanumeric c || c == b'.' || c == b'_' || c == b':' || c == b'-'

-- /^[A-Za-z0-9][A-Za-z0-9._:-]*$/.test
abbrev pub matches_id : Text → Bool
matches_id [] = false
matches_id (c ∷ cs) = is_alphanumeric c && all is_id_unit cs

-- typeof value === "string" && value.length >= 1 && value.length <= bound
unfoldable pub is_bounded_text : ℕ → Text → Bool
is_bounded_text bound s = leb 1 (length s) && leb (length s) bound

-- isId
unfoldable pub is_id : Text → Bool
unfolding is_bounded_text
is_id s = is_bounded_text 200 s && matches_id s

-- CONTRACT_SCHEMA_VERSION
abbrev pub schema_version : Text
schema_version = lit "1.0"
