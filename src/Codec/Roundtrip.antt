-- ===== src/Codec/Roundtrip.antt =====
-- What is encoded is decoded again.
use notmy_fault.Prelude.{
  ℕ, suc, String, ◌≡◌, ◌∙◌, inl, inr, refl, sym, ap, Option, none, some, Bool, true, false, ◌&&◌,
  ◌==◌, ltb, leb, arith, if◌then◌else◌, eq_iff, Bool-cases,
}
use notmy_fault.Prelude.Int.{ℤ}
use notmy_fault.Codec.Value.{
  Kind, decimal, bytes, datetime, date, time, windows_path, posix_path, uuid, Scalars, Value, null,
  boolean, text, float, int, delta, scalar, list, dict, Values, no_items, item, Fields, no_fields,
  field, copy_value, is_finite, visits, visits_all, visits_fields, max_depth,
}
use notmy_fault.Codec.Encode.{
  max_safe_integer, abs, name_of, total, tagged, is_marked, pairs, encode, encode_items,
  encode_fields, encode_copy, encode_value, prints, prints_all, prints_fields,
}
use notmy_fault.Codec.Decode.{
  kind_of, map_value, check_int, delta_of, check_finite, decode_kind, decode_text, decode_tag,
  has_key, add_item, add_field, add_pair, decode, decode_items, decode_fields, decode_data,
  decode_pairs, decode_copy, decode_value,
}

-- Python reads what it has printed. A Decimal that is not finite is left out, for it is never copied,
-- and an integer that `str` does not print.
pub record IsFaithful (P : Scalars) : Type 0 where
  pub read_print :
      (k : Kind) (x : P.Scalar k) → (is_finite P k x ≡ true) → P.read k (P.print k x) ≡ some x
  pub read_str : (n : ℤ) → (P.can_print n ≡ true) → P.read_int (P.str_int n) ≡ some n
  pub timedelta_total : (d : P.Delta) → P.timedelta (total P d) ≡ some d

equals_itself : (t : String) → (t == t) ≡ true
equals_itself t = ground (arith, eq_iff t t)

pub both : (a b : Bool) → (a && b) ≡ true → (a ≡ true) × (b ≡ true)
both a b h = ground arith

module _ {P : Scalars} where
  some_value : (v w : Value P) → some v ≡ some w → v ≡ w
  some_value v w h = ground arith

  none_value : (w : Value P) → ¬ none ≡ some w
  none_value w h = ground arith

module _ (P : Scalars) where
  is_marked-encode_fields : (fs : Fields P) → is_marked P (encode_fields P fs) ≡ is_marked P fs
  unfolding is_marked encode_fields
  is_marked-encode_fields no_fields = refl
  is_marked-encode_fields (field k v no_fields) = refl
  is_marked-encode_fields (field k v (field k' v' fs)) = refl

  -- A tagged value is decoded by its tag.
  decode-tagged :
      (kind : String) (v : Value P)
      → decode P (tagged P kind v) ≡ decode_tag P (text kind) v (decode_data P v)
  unfolding decode tagged is_marked
  decode-tagged kind v = refl

  -- The pairs of an object with one field are decoded as the field is.
  decode_pairs-pairs :
      (fs : Fields P)
      → is_marked P fs ≡ true
      → decode_pairs P (pairs P (encode_fields P fs)) ≡ decode_fields P (encode_fields P fs)
  unfolding is_marked pairs encode decode add_pair has_key
  decode_pairs-pairs no_fields h = ground arith
  decode_pairs-pairs (field k v no_fields) h = refl
  decode_pairs-pairs (field k v (field k' v' fs)) h = ground arith

  module _ (laws : IsFaithful P) where
    check_int-str :
        (n : ℤ)
        → P.can_print n ≡ true
        → check_int P (P.str_int n) (P.read_int (P.str_int n)) ≡ some n
    unfolding check_int
    check_int-str n k = rw (laws.read_str n k) (rw (equals_itself (P.str_int n)) refl)

    decode-int :
        (n : ℤ)
        → P.can_print n ≡ true
        → decode P (tagged P "int" (text (P.str_int n))) ≡ some (int n)
    unfolding decode_tag decode_text map_value
    decode-int n k =
        decode-tagged "int" (text (P.str_int n)) ∙ ap (map_value P (λ x. int x)) (check_int-str n k)

    decode-delta :
        (d : P.Delta)
        → P.can_print (total P d) ≡ true
        → decode P (tagged P "timedelta" (text (P.str_int (total P d)))) ≡ some (delta d)
    unfolding decode_tag decode_text delta_of map_value
    decode-delta d k =
        decode-tagged "timedelta" (text (P.str_int (total P d)))
        ∙ (ap (delta_of P) (check_int-str (total P d) k)
            ∙ ap (map_value P (λ x. delta x)) (laws.timedelta_total d))

    decode_tag-kind :
        (k : Kind) (t : String) (o : Option (Fields P))
        → decode_tag P (text (name_of k)) (text t) o ≡ check_finite P k (P.read k t)
    unfolding decode_tag decode_text kind_of name_of decode_kind
    decode_tag-kind decimal t o = refl
    decode_tag-kind bytes t o = refl
    decode_tag-kind datetime t o = refl
    decode_tag-kind date t o = refl
    decode_tag-kind time t o = refl
    decode_tag-kind windows_path t o = refl
    decode_tag-kind posix_path t o = refl
    decode_tag-kind uuid t o = refl

    decode-scalar :
        (k : Kind) (x : P.Scalar k)
        → is_finite P k x ≡ true
        → decode P (tagged P (name_of k) (text (P.print k x))) ≡ some (scalar k x)
    unfolding check_finite
    decode-scalar k x h =
        decode-tagged (name_of k) (text (P.print k x))
        ∙ (decode_tag-kind k (P.print k x) (decode_data P (text (P.print k x)))
            ∙ (ap (check_finite P k) (laws.read_print k x h) ∙ rw h refl))

    printed :
        (i : ℤ)
        → ltb max_safe_integer (abs i) ≡ true
        → prints P (int i) ≡ true
        → P.can_print i ≡ true
    unfolding prints
    printed i e k = ground arith

    mutual
      unfolding encode decode decode_tag visits map_value add_item add_field prints

      decode-encode :
          (n : ℕ) (v : Value P)
          → visits P n v ≡ true
          → prints P v ≡ true
          → decode P (encode P v) ≡ some v
      decode-encode n null h k = refl
      decode-encode n (boolean b) h k = refl
      decode-encode n (text t) h k = refl
      decode-encode n (float x) h k = refl
      decode-encode n (int i) h k = elim (Bool-cases (ltb max_safe_integer (abs i))) [
        | inl e ↦ rw e (decode-int i (printed i e k))
        | inr e ↦ rw e refl
      ]
      decode-encode n (delta d) h k = decode-delta d k
      decode-encode n (scalar kind x) h k =
          decode-scalar kind x (both (leb n max_depth) (is_finite P kind x) h).1
      decode-encode n (list vs) h k =
          ap (map_value P (λ xs. list xs)) (
            decode_items-encode (suc n) vs (both (leb n max_depth) (visits_all P (suc n) vs) h).1 k)
      decode-encode n (dict fs) h k =
          let inner = (both (leb n max_depth) (visits_fields P (suc n) fs) h).1 in
          elim (Bool-cases (is_marked P fs)) [
            | inl e ↦ rw e (
                decode-tagged "object" (list (pairs P (encode_fields P fs)))
                ∙ ap (map_value P (λ xs. dict xs))
                    (decode_pairs-pairs fs e ∙ decode_fields-encode (suc n) fs inner k))
            | inr e ↦
                rw (e, is_marked-encode_fields fs, e)
                  (ap (map_value P (λ xs. dict xs)) (decode_fields-encode (suc n) fs inner k))
          ]

      decode_items-encode :
          (n : ℕ) (vs : Values P)
          → visits_all P n vs ≡ true
          → prints_all P vs ≡ true
          → decode_items P (encode_items P vs) ≡ some vs
      decode_items-encode n no_items h k = refl
      decode_items-encode n (item v vs) h k =
          let parts = both (visits P n v) (visits_all P n vs) h in
          let both_print = both (prints P v) (prints_all P vs) k in
          ap (λ o. add_item P o (decode_items P (encode_items P vs)))
            (decode-encode n v parts.0 both_print.0)
          ∙ ap (add_item P (some v)) (decode_items-encode n vs parts.1 both_print.1)

      decode_fields-encode :
          (n : ℕ) (fs : Fields P)
          → visits_fields P n fs ≡ true
          → prints_fields P fs ≡ true
          → decode_fields P (encode_fields P fs) ≡ some fs
      decode_fields-encode n no_fields h k = refl
      decode_fields-encode n (field name v fs) h k =
          let parts = both (visits P n v) (visits_fields P n fs) h in
          let both_print = both (prints P v) (prints_fields P fs) k in
          ap (λ o. add_field P name o (decode_fields P (encode_fields P fs)))
            (decode-encode n v parts.0 both_print.0)
          ∙ ap (add_field P name (some v)) (decode_fields-encode n fs parts.1 both_print.1)

  pub copy_of : (v : Value P) → visits P 0 v ≡ true → copy_value P v ≡ some v
  unfolding copy_value
  copy_of v h = rw h refl

  if_some :
      (b : Bool) (v w : Value P) → (if b then some v else none) ≡ some w → (b ≡ true) × (v ≡ w)
  if_some true v w h = (refl, some_value v w h)
  if_some false v w h = absurd (none_value w h)

  -- What `encode_value` returns is the encoding, and each integer in it is printed.
  pub encoded :
      (v w : Value P)
      → encode_value P v ≡ some w
      → (visits P 0 v ≡ true) × ((prints P v ≡ true) × (encode P v ≡ w))
  unfolding encode_value encode_copy copy_value
  encoded v w h = elim (Bool-cases (visits P 0 v)) [
    | inl e ↦ (e, if_some (prints P v) (encode P v) w (sym (rw e refl) ∙ h))
    | inr e ↦ absurd (none_value w (sym (rw e refl) ∙ h))
  ]

  -- What `encode_value` returns for a value is decoded by `decode_value` to this value, if Python reads
  -- what it prints and the encoded value is itself one that `copy_value` takes, which is to say that its
  -- depth is 64 at most.
  pub decode_value-encode_value :
      (v w : Value P)
      → IsFaithful P
      → encode_value P v ≡ some w
      → visits P 0 w ≡ true
      → decode_value P w ≡ some v
  unfolding decode_value decode_copy
  decode_value-encode_value v w laws h d =
      let e = encoded v w h in
      ap (decode_copy P) (copy_of w d)
      ∙ (ap (decode P) (sym e.1.1) ∙ decode-encode laws 0 v e.0 e.1.0)
