-- ===== src/Codec/Decode.antt =====
-- `decode_value`. All its errors are one, `none`: a DataTypeError.
use notmy_fault.Prelude.{String, Option, none, some, Bool, false, ◌&&◌, ◌==◌, ◌||◌, if◌then◌else◌}
use notmy_fault.Prelude.Int.{ℤ}
use notmy_fault.Codec.Value.{
  Kind, decimal, bytes, datetime, date, time, windows_path, posix_path, uuid, Scalars, Value, null,
  boolean, text, float, int, delta, scalar, list, dict, Values, no_items, item, Fields, no_fields,
  field, copy_value, is_finite,
}
use notmy_fault.Codec.Encode.{is_marked}

-- The kinds with a constructor, "decimal" and "bytes" included.
unfoldable pub kind_of : String → Option Kind
kind_of t =
    if t == "decimal"
    then some decimal
    else if t == "bytes"
    then some bytes
    else if t == "date"
    then some date
    else if t == "time"
    then some time
    else if t == "datetime"
    then some datetime
    else if t == "uuid"
    then some uuid
    else if t == "windows_path"
    then some windows_path
    else if t == "posix_path"
    then some posix_path
    else none

module _ (P : Scalars) where
  unfoldable pub map_value {ℓ} : {A : Type ℓ} → (A → Value P) → Option A → Option (Value P)
  map_value f none = none
  map_value f (some x) = some (f x)

  -- A number that is written as Python writes it.
  unfoldable pub check_int : String → Option ℤ → Option ℤ
  check_int t none = none
  check_int t (some n) = if P.str_int n == t then some n else none

  unfoldable pub delta_of : Option ℤ → Option (Value P)
  delta_of none = none
  delta_of (some n) = map_value delta (P.timedelta n)

  unfoldable pub check_finite : (k : Kind) → Option (P.Scalar k) → Option (Value P)
  check_finite k none = none
  check_finite k (some x) = if is_finite P k x then some (scalar k x) else none

  unfoldable pub decode_kind : String → Option Kind → Option (Value P)
  decode_kind t none = none
  decode_kind t (some k) = check_finite k (P.read k t)

  -- The data of a tag that is no object.
  unfoldable pub decode_text : String → Value P → Option (Value P)
  decode_text kind (text t) =
      if kind == "int"
      then map_value int (check_int t (P.read_int t))
      else if kind == "timedelta"
      then delta_of (check_int t (P.read_int t))
      else decode_kind t (kind_of kind)
  decode_text kind null = none
  decode_text kind (boolean b) = none
  decode_text kind (float x) = none
  decode_text kind (int i) = none
  decode_text kind (delta d) = none
  decode_text kind (scalar k x) = none
  decode_text kind (list vs) = none
  decode_text kind (dict fs) = none

  -- A tag, where `object` is what the data is as the pairs of an object.
  unfoldable pub decode_tag : Value P → Value P → Option (Fields P) → Option (Value P)
  decode_tag (text kind) value object =
      if kind == "object" then map_value dict object else decode_text kind value
  decode_tag null value object = none
  decode_tag (boolean b) value object = none
  decode_tag (float x) value object = none
  decode_tag (int i) value object = none
  decode_tag (delta d) value object = none
  decode_tag (scalar k x) value object = none
  decode_tag (list vs) value object = none
  decode_tag (dict fs) value object = none

  unfoldable pub has_key : String → Fields P → Bool
  has_key k no_fields = false
  has_key k (field k' v fs) = k' == k || has_key k fs

  unfoldable pub add_item : Option (Value P) → Option (Values P) → Option (Values P)
  add_item none vs = none
  add_item (some v) none = none
  add_item (some v) (some vs) = some (item v vs)

  unfoldable pub add_field : String → Option (Value P) → Option (Fields P) → Option (Fields P)
  add_field k none fs = none
  add_field k (some v) none = none
  add_field k (some v) (some fs) = some (field k v fs)

  -- A pair whose key is among the others is refused.
  unfoldable pub add_pair : String → Option (Value P) → Option (Fields P) → Option (Fields P)
  add_pair k v none = none
  add_pair k v (some fs) = if has_key k fs then none else add_field k v (some fs)

  unfoldable mutual
    pub decode : Value P → Option (Value P)
    decode null = some null
    decode (boolean b) = some (boolean b)
    decode (text t) = some (text t)
    decode (float x) = some (float x)
    decode (int i) = some (int i)
    decode (delta d) = some (delta d)
    decode (scalar k x) = some (scalar k x)
    decode (list vs) = map_value list (decode_items vs)
    decode (dict fs) =
        let plain = map_value dict (decode_fields fs) in
        let record_of = decode_record fs in if is_marked P fs then record_of else plain

    pub decode_items : Values P → Option (Values P)
    decode_items no_items = some no_items
    decode_items (item v vs) = add_item (decode v) (decode_items vs)

    pub decode_fields : Fields P → Option (Fields P)
    decode_fields no_fields = some no_fields
    decode_fields (field k v fs) = add_field k (decode v) (decode_fields fs)

    -- The record of a marked dict, which has the keys "type" and "data" in some order.
    pub decode_record : Fields P → Option (Value P)
    decode_record (field k (dict (field a v (field b w no_fields))) fs) =
        let first = decode_tag w v (decode_data v) in
        let second = decode_tag v w (decode_data w) in
        if a == "type" && b == "data"
        then second
        else if a == "data" && b == "type"
        then first
        else none
    decode_record fs = none

    pub decode_data : Value P → Option (Fields P)
    decode_data (list vs) = decode_pairs vs
    decode_data v = none

    pub decode_pairs : Values P → Option (Fields P)
    decode_pairs no_items = some no_fields
    decode_pairs (item (list (item (text k) (item v no_items))) vs) =
        add_pair k (decode v) (decode_pairs vs)
    decode_pairs (item v vs) = none

  unfoldable pub decode_copy : Option (Value P) → Option (Value P)
  decode_copy none = none
  decode_copy (some copy) = decode copy

  -- `decode_value`; the copy is made first.
  unfoldable pub decode_value : Value P → Option (Value P)
  decode_value v = decode_copy (copy_value P v)
