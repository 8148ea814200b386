-- ===== src/Codec/Json.antt =====
-- What is encoded is JSON, and the depth that it takes.
use notmy_fault.Prelude.{
  ℕ, suc, ◌+◌, ◌*◌, ◌≤◌, max, String, ◌≡◌, ◌∙◌, inl, inr, refl, ap, subst, some, Bool, true, false,
  ◌&&◌, ltb, leb, arith, Bool-cases,
}
use notmy_fault.Prelude.Int.{ℤ}
use notmy_fault.Codec.Value.{
  Scalars, Value, null, boolean, text, float, int, delta, scalar, list, dict, Values, no_items,
  item, Fields, no_fields, field, visits, visits_all, visits_fields, max_depth,
}
use notmy_fault.Codec.Encode.{
  max_safe_integer, abs, name_of, total, tagged, is_marked, pairs, encode, encode_items,
  encode_fields, encode_copy, encode_value, prints,
}
use notmy_fault.Codec.Decode.{decode_value}
use notmy_fault.Codec.Roundtrip.{IsFaithful, decode_value-encode_value, copy_of, encoded, both}

module _ (P : Scalars) where
  -- A value of JSON: its floating-point numbers are finite, its integers are those that such a number
  -- holds exactly, and none of Python's other types stands in it.
  unfoldable mutual
    pub is_json : Value P → Bool
    is_json null = true
    is_json (boolean b) = true
    is_json (text t) = true
    is_json (float x) = P.is_finite_float x
    is_json (int i) = leb (abs i) 9_007_199_254_740_991
    is_json (delta d) = false
    is_json (scalar k x) = false
    is_json (list vs) = are_json vs
    is_json (dict fs) = fields_json fs

    pub are_json : Values P → Bool
    are_json no_items = true
    are_json (item v vs) = is_json v && are_json vs

    pub fields_json : Fields P → Bool
    fields_json no_fields = true
    fields_json (field k v fs) = is_json v && fields_json fs

  unfoldable mutual
    pub depth : Value P → ℕ
    depth null = 0
    depth (boolean b) = 0
    depth (text t) = 0
    depth (float x) = 0
    depth (int i) = 0
    depth (delta d) = 0
    depth (scalar k x) = 0
    depth (list vs) = suc (depth_items vs)
    depth (dict fs) = suc (depth_fields fs)

    pub depth_items : Values P → ℕ
    depth_items no_items = 0
    depth_items (item v vs) = max (depth v) (depth_items vs)

    pub depth_fields : Fields P → ℕ
    depth_fields no_fields = 0
    depth_fields (field k v fs) = max (depth v) (depth_fields fs)

  and_true : (a b : Bool) → a ≡ true → b ≡ true → (a && b) ≡ true
  and_true a b h k = ground arith

  pairs_json : (fs : Fields P) → fields_json fs ≡ true → are_json (pairs P fs) ≡ true
  unfolding is_json pairs
  pairs_json no_fields h = refl
  pairs_json (field k v fs) h =
      let parts = both (is_json v) (fields_json fs) h in
      and_true (is_json v && true) (are_json (pairs P fs)) (and_true (is_json v) true parts.0 refl)
        (pairs_json fs parts.1)

  small_int : (i : ℤ) → ltb max_safe_integer (abs i) ≡ false → leb (abs i) max_safe_integer ≡ true
  small_int i h = ground arith

  mutual
    unfolding encode is_json tagged visits

    encode-is_json : (n : ℕ) (v : Value P) → visits P n v ≡ true → is_json (encode P v) ≡ true
    encode-is_json n null h = refl
    encode-is_json n (boolean b) h = refl
    encode-is_json n (text t) h = refl
    encode-is_json n (float x) h = (both (leb n max_depth) (P.is_finite_float x) h).1
    encode-is_json n (int i) h = elim (Bool-cases (ltb max_safe_integer (abs i))) [
      | inl e ↦ rw e refl
      | inr e ↦ rw e (small_int i e)
    ]
    encode-is_json n (delta d) h = refl
    encode-is_json n (scalar k x) h = refl
    encode-is_json n (list vs) h =
        encode_items-json (suc n) vs (both (leb n max_depth) (visits_all P (suc n) vs) h).1
    encode-is_json n (dict fs) h =
        let inner =
          encode_fields-json (suc n) fs (both (leb n max_depth) (visits_fields P (suc n) fs) h).1 in
        elim (Bool-cases (is_marked P fs)) [
          | inl e ↦ rw e (
              and_true (are_json (pairs P (encode_fields P fs)) && true) true
                (and_true (are_json (pairs P (encode_fields P fs))) true
                  (pairs_json (encode_fields P fs) inner) refl)
                refl)
          | inr e ↦ rw e inner
        ]

    encode_items-json :
        (n : ℕ) (vs : Values P) → visits_all P n vs ≡ true → are_json (encode_items P vs) ≡ true
    encode_items-json n no_items h = refl
    encode_items-json n (item v vs) h =
        let parts = both (visits P n v) (visits_all P n vs) h in
        and_true (is_json (encode P v)) (are_json (encode_items P vs)) (encode-is_json n v parts.0)
          (encode_items-json n vs parts.1)

    encode_fields-json :
        (n : ℕ) (fs : Fields P)
        → visits_fields P n fs ≡ true
        → fields_json (encode_fields P fs) ≡ true
    encode_fields-json n no_fields h = refl
    encode_fields-json n (field k v fs) h =
        let parts = both (visits P n v) (visits_fields P n fs) h in
        and_true (is_json (encode P v)) (fields_json (encode_fields P fs))
          (encode-is_json n v parts.0) (encode_fields-json n fs parts.1)

  -- What `encode_value` returns holds only what JSON can hold: no value of Python's other types, no
  -- floating-point number that is not finite, and no integer beyond 2^53 - 1 on either side.
  pub encode_value-is_json : (v w : Value P) → encode_value P v ≡ some w → is_json w ≡ true
  encode_value-is_json v w h =
      let e = encoded P v w h in subst (λ x. is_json x ≡ true) e.1.1 (encode-is_json 0 v e.0)

  pairs_visited :
      (m : ℕ) (fs : Fields P)
      → leb (suc m) max_depth ≡ true
      → visits_fields P (suc m) fs ≡ true
      → visits_all P m (pairs P fs) ≡ true
  unfolding visits pairs
  pairs_visited m no_fields b h = refl
  pairs_visited m (field k v fs) b h =
      let parts = both (visits P (suc m) v) (visits_fields P (suc m) fs) h in
      and_true (visits P m (list (item (text k) (item v no_items)))) (visits_all P m (pairs P fs))
        (and_true (leb m max_depth) (leb (suc m) max_depth && (visits P (suc m) v && true))
          (ground arith)
          (and_true (leb (suc m) max_depth) (visits P (suc m) v && true) b
            (and_true (visits P (suc m) v) true parts.0 refl)))
        (pairs_visited m fs b parts.1)

  leb-below : (m : ℕ) → m ≤ max_depth → leb m max_depth ≡ true
  leb-below m h = ground arith

  tagged_visited :
      (m : ℕ) (kind : String) (v : Value P)
      → m + 2 ≤ max_depth
      → visits P (suc (suc m)) v ≡ true
      → visits P m (tagged P kind v) ≡ true
  unfolding visits tagged
  tagged_visited m kind v b h = ground arith

  object_visited :
      (m : ℕ) (fs : Fields P)
      → m + 4 ≤ max_depth
      → visits_fields P (suc (suc (suc (suc m)))) fs ≡ true
      → visits P m (tagged P "object" (list (pairs P fs))) ≡ true
  unfolding visits
  object_visited m fs b h = tagged_visited m "object" (list (pairs P fs)) (omega arith) (
      and_true (leb (suc (suc m)) max_depth) (visits_all P (suc (suc (suc m))) (pairs P fs))
        (leb-below (suc (suc m)) (omega arith))
        (pairs_visited (suc (suc (suc m))) fs (leb-below (suc (suc (suc (suc m)))) (omega arith))
          h))

  mutual
    unfolding encode visits tagged depth

    encode-visits :
        (n m : ℕ) (v : Value P)
        → visits P n v ≡ true
        → (m + 4 * depth v) + 2 ≤ max_depth
        → visits P m (encode P v) ≡ true
    encode-visits n m null h b = ground arith
    encode-visits n m (boolean c) h b = ground arith
    encode-visits n m (text t) h b = ground arith
    encode-visits n m (float x) h b = ground arith
    encode-visits n m (int i) h b = elim (Bool-cases (ltb max_safe_integer (abs i))) [
      | inl e ↦ rw e (
          tagged_visited m "int" (text (P.str_int i)) (omega arith)
            (leb-below (suc (suc m)) (omega arith)))
      | inr e ↦ rw e (leb-below m (omega arith))
    ]
    encode-visits n m (delta d) h b =
        tagged_visited m "timedelta" (text (P.str_int (total P d))) (omega arith)
          (leb-below (suc (suc m)) (omega arith))
    encode-visits n m (scalar k x) h b =
        tagged_visited m (name_of k) (text (P.print k x)) (omega arith)
          (leb-below (suc (suc m)) (omega arith))
    encode-visits n m (list vs) h b =
        and_true (leb m max_depth) (visits_all P (suc m) (encode_items P vs))
          (leb-below m (omega arith))
          (encode_items-visits (suc n) (suc m) vs
            (both (leb n max_depth) (visits_all P (suc n) vs) h).1 (omega arith))
    encode-visits n m (dict fs) h b =
        let inner = (both (leb n max_depth) (visits_fields P (suc n) fs) h).1 in
        elim (Bool-cases (is_marked P fs)) [
          | inl e ↦ rw e (
              object_visited m (encode_fields P fs) (omega arith)
                (encode_fields-visits (suc n) (suc (suc (suc (suc m)))) fs inner (omega arith)))
          | inr e ↦ rw e (
              and_true (leb m max_depth) (visits_fields P (suc m) (encode_fields P fs))
                (leb-below m (omega arith))
                (encode_fields-visits (suc n) (suc m) fs inner (omega arith)))
        ]

    encode_items-visits :
        (n m : ℕ) (vs : Values P)
        → visits_all P n vs ≡ true
        → (m + 4 * depth_items vs) + 2 ≤ max_depth
        → visits_all P m (encode_items P vs) ≡ true
    encode_items-visits n m no_items h b = refl
    encode_items-visits n m (item v vs) h b =
        let parts = both (visits P n v) (visits_all P n vs) h in
        and_true (visits P m (encode P v)) (visits_all P m (encode_items P vs))
          (encode-visits n m v parts.0 (omega arith))
          (encode_items-visits n m vs parts.1 (omega arith))

    encode_fields-visits :
        (n m : ℕ) (fs : Fields P)
        → visits_fields P n fs ≡ true
        → (m + 4 * depth_fields fs) + 2 ≤ max_depth
        → visits_fields P m (encode_fields P fs) ≡ true
    encode_fields-visits n m no_fields h b = refl
    encode_fields-visits n m (field k v fs) h b =
        let parts = both (visits P n v) (visits_fields P n fs) h in
        and_true (visits P m (encode P v)) (visits_fields P m (encode_fields P fs))
          (encode-visits n m v parts.0 (omega arith))
          (encode_fields-visits n m fs parts.1 (omega arith))

  encode_value-visits :
      (v : Value P) → visits P 0 v ≡ true → prints P v ≡ true → encode_value P v ≡ some (encode P v)
  unfolding encode_value encode_copy
  encode_value-visits v h k = ap (encode_copy P) (copy_of P v h) ∙ rw k refl

  -- Every value of depth 15 at most that `copy_value` takes is encoded, and decoding brings it back, if
  -- Python reads what it prints, and prints each integer that the encoding prints (`str` raises for one
  -- of too many digits): an object under its own key takes four levels in place of one, and a scalar two more.
  pub round_trip :
      (v : Value P)
      → IsFaithful P
      → visits P 0 v ≡ true
      → prints P v ≡ true
      → depth v ≤ 15
      → (w : Value P) × ((encode_value P v ≡ some w) × (decode_value P w ≡ some v))
  round_trip v laws h k b =
      let e = encode_value-visits v h k in
      (
        encode P v,
        (
          e,
          decode_value-encode_value P v (encode P v) laws e (encode-visits 0 0 v h (omega arith)),
        ),
      )
