-- ===== src/Codec/Tests.antt =====
-- Values that are encoded and decoded. Here a number is printed in strokes.
use Prim.Native.Char.{Char, code}
use Prim.Native.String.{[] as empty, ◌∷◌ as ◌<∷>◌}
use notmy_fault.Prelude.{
  ℕ, zero, suc, String, ◌≡◌, refl, ap, Option, none, some, true, eqb, arith, if◌then◌else◌,
}
use notmy_fault.Prelude.Int.{ℤ, pos, negsuc, plus, times}
use notmy_fault.Codec.Value.{
  decimal, Scalars, Value, text, delta, scalar, list, dict, no_items, item, no_fields, field,
  copy_value, is_finite, visits,
}
use notmy_fault.Codec.Encode.{
  total, tagged, is_marked, pairs, name_of, encode, encode_copy, encode_value, prints,
}
use notmy_fault.Codec.Decode.{decode_value, decode_copy}
use notmy_fault.Codec.Roundtrip.{IsFaithful, decode_value-encode_value}
use notmy_fault.Codec.Json.{depth, is_json, encode_value-is_json, round_trip}

abbrev strokes : Char → ℕ → String
strokes c zero = empty
strokes c (suc n) = c <∷> strokes c n

abbrev count : String → ℕ
count empty = zero
count (c <∷> s) = suc (count s)

count-strokes : (c : Char) (n : ℕ) → count (strokes c n) ≡ n
count-strokes c zero = refl
count-strokes c (suc n) = ap suc (count-strokes c n)

abbrev print_strokes : ℤ → String
print_strokes (pos n) = "+" <∷> strokes "1" n
print_strokes (negsuc n) = "-" <∷> strokes "1" n

abbrev read_strokes : String → Option ℤ
read_strokes empty = none
read_strokes (c <∷> s) = if eqb (code c) 43 then some (pos (count s)) else some (negsuc (count s))

read-print_strokes : (n : ℤ) → read_strokes (print_strokes n) ≡ some n
read-print_strokes (pos n) = ap (λ k. some (pos k)) (count-strokes "1" n)
read-print_strokes (negsuc n) = ap (λ k. some (negsuc k)) (count-strokes "1" n)

-- Only short times, of some microseconds.
abbrev small_delta : ℤ → Option ℕ
small_delta (pos n) = some n
small_delta (negsuc n) = none

abbrev python : Scalars
python = record {
  Float = String;
  Scalar = λ k. String;
  Delta = ℕ;
  is_finite_float = λ x. true;
  is_finite_decimal = λ x. true;
  print = λ k x. x;
  read = λ k t. some t;
  can_print = λ n. true;
  str_int = print_strokes;
  read_int = read_strokes;
  days = λ d. pos 0;
  seconds = λ d. 0;
  microseconds = λ d. d;
  timedelta = small_delta;
}

small_delta-total : (d : ℕ) → small_delta (total python d) ≡ some d
unfolding total plus times
small_delta-total d = ap (λ k. some k) (omega arith)

python-IsFaithful : IsFaithful python
python-IsFaithful = record {
  read_print = λ k x h. refl;
  read_str = λ n k. read-print_strokes n;
  timedelta_total = small_delta-total;
}

-- An object under the key of the codec's own tags, with a Decimal in it.
abbrev awkward : Value python
awkward =
    list
      (item (dict (field "$nmf_value" (scalar decimal "1.50") no_fields)) (item (delta 3) no_items))

abbrev awkward_wire : Value python
awkward_wire = list (
    item
      (tagged python "object" (
        list (
          item
            (list
              (item (text "$nmf_value") (item (tagged python "decimal" (text "1.50")) no_items)))
            no_items)))
      (item (tagged python "timedelta" (text "+111")) no_items))

awkward_encoded : encode_value python awkward ≡ some awkward_wire
unfolding encode_value encode_copy copy_value visits encode prints is_marked pairs name_of is_finite
    tagged total plus times
awkward_encoded = refl

decode_value-encode_value_example : decode_value python awkward_wire ≡ some awkward
unfolding visits tagged
decode_value-encode_value_example =
    decode_value-encode_value python awkward awkward_wire python-IsFaithful awkward_encoded refl

encode_value-is_json_example : is_json python awkward_wire ≡ true
encode_value-is_json_example = encode_value-is_json python awkward awkward_wire awkward_encoded

round_trip_example :
    (w : Value python) × ((encode_value python awkward ≡ some w)
      × (decode_value python w ≡ some awkward))
unfolding visits is_finite depth prints
round_trip_example = round_trip python awkward python-IsFaithful refl refl (omega arith)

-- n lists around a value
abbrev nest : ℕ → Value python → Value python
nest zero v = v
nest (suc n) v = list (item (nest n v) no_items)

-- A Decimal in 63 lists is encoded, and what comes out is too deep to be decoded.
deep_encoded :
    encode_value python (nest 63 (scalar decimal "1"))
    ≡ some (nest 63 (tagged python "decimal" (text "1")))
unfolding encode_value encode_copy copy_value visits encode prints name_of is_finite tagged
deep_encoded = refl

too_deep : decode_value python (nest 63 (tagged python "decimal" (text "1"))) ≡ none
unfolding decode_value decode_copy copy_value visits tagged
too_deep = refl
