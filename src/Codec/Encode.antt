-- ===== src/Codec/Encode.antt =====
-- `encode_value`.
use notmy_fault.Prelude.{
  ℕ, suc, String, Option, none, some, Bool, true, false, ◌&&◌, ◌==◌, ltb, if◌then◌else◌,
}
use notmy_fault.Prelude.Int.{ℤ, pos, negsuc, plus, times}
use notmy_fault.Codec.Value.{
  Kind, decimal, bytes, datetime, date, time, windows_path, posix_path, uuid, Scalars, Value, null,
  boolean, text, float, int, delta, scalar, list, dict, Values, no_items, item, Fields, no_fields,
  field, copy_value,
}

abbrev pub wire_key : String
wire_key = "$nmf_value"

-- 2**53 - 1
abbrev pub max_safe_integer : ℕ
max_safe_integer = 9007199254740991

abbrev pub abs : ℤ → ℕ
abs (pos n) = n
abs (negsuc n) = suc n

unfoldable pub name_of : Kind → String
name_of decimal = "decimal"
name_of bytes = "bytes"
name_of datetime = "datetime"
name_of date = "date"
name_of time = "time"
name_of windows_path = "windows_path"
name_of posix_path = "posix_path"
name_of uuid = "uuid"

module _ (P : Scalars) where
  -- (days * 86400 + seconds) * 1000000 + microseconds
  unfoldable pub total : P.Delta → ℤ
  total d = plus (times (plus (times (P.days d) 86400) (P.seconds d)) 1000000) (P.microseconds d)

  unfoldable pub tagged : String → Value P → Value P
  tagged kind value =
      dict
        (field wire_key (dict (field "type" (text kind) (field "data" value no_fields))) no_fields)

  -- set(item) == {WIRE_KEY}
  unfoldable pub is_marked : Fields P → Bool
  is_marked no_fields = false
  is_marked (field k v no_fields) = k == wire_key
  is_marked (field k v (field k' v' fs)) = false

  -- [[key, child] ...] for the fields of a dict
  unfoldable pub pairs : Fields P → Values P
  pairs no_fields = no_items
  pairs (field k v fs) = item (list (item (text k) (item v no_items))) (pairs fs)

  -- The inner `encode`; where str(int) raises, `prints` below tells it.
  unfoldable mutual
    pub encode : Value P → Value P
    encode null = null
    encode (boolean b) = boolean b
    encode (text t) = text t
    encode (float x) = float x
    encode (int i) =
        if ltb max_safe_integer (abs i) then tagged "int" (text (P.str_int i)) else int i
    encode (delta d) = tagged "timedelta" (text (P.str_int (total d)))
    encode (scalar k x) = tagged (name_of k) (text (P.print k x))
    encode (list vs) = list (encode_items vs)
    encode (dict fs) =
        let children = encode_fields fs in
        if is_marked fs then tagged "object" (list (pairs children)) else dict children

    pub encode_items : Values P → Values P
    encode_items no_items = no_items
    encode_items (item v vs) = item (encode v) (encode_items vs)

    pub encode_fields : Fields P → Fields P
    encode_fields no_fields = no_fields
    encode_fields (field k v fs) = field k (encode v) (encode_fields fs)

  -- Whether `encode` returns: each integer that it prints is printed.
  unfoldable mutual
    pub prints : Value P → Bool
    prints null = true
    prints (boolean b) = true
    prints (text t) = true
    prints (float x) = true
    prints (int i) = if ltb max_safe_integer (abs i) then P.can_print i else true
    prints (delta d) = P.can_print (total d)
    prints (scalar k x) = true
    prints (list vs) = prints_all vs
    prints (dict fs) = prints_fields fs

    pub prints_all : Values P → Bool
    prints_all no_items = true
    prints_all (item v vs) = prints v && prints_all vs

    pub prints_fields : Fields P → Bool
    prints_fields no_fields = true
    prints_fields (field k v fs) = prints v && prints_fields fs

  unfoldable pub encode_copy : Option (Value P) → Option (Value P)
  encode_copy none = none
  encode_copy (some copy) = if prints copy then some (encode copy) else none

  -- `encode_value`; none where the copy raises, or the encoding does.
  unfoldable pub encode_value : Value P → Option (Value P)
  encode_value v = encode_copy (copy_value P v)
