-- ===== src/Codec/Value.antt =====
-- The data values of notmyfault/core/data_types.py, and `copy_value`.
use notmy_fault.Prelude.{ℕ, suc, String, Option, none, some, Bool, true, ◌&&◌, leb, if◌then◌else◌}
use notmy_fault.Prelude.Int.{ℤ}

-- The Python types that stand for themselves as a text.
pub data Kind : Type 0 where
  decimal bytes datetime date time windows_path posix_path uuid : Kind

-- Python's types, with what prints and reads them. `read` is none where the constructor raises.
pub record Scalars : Type 1 where
  pub Float : Type 0
  pub Scalar : Kind → Type 0
  pub Delta : Type 0
  pub is_finite_float : Float → Bool
  pub is_finite_decimal : Scalar decimal → Bool
  pub print : (k : Kind) → Scalar k → String
  pub read : (k : Kind) → String → Option (Scalar k)
  -- str(int) raises ValueError beyond a number of digits.
  pub can_print : ℤ → Bool
  pub str_int : ℤ → String
  pub read_int : String → Option ℤ
  -- the fields of a timedelta, and timedelta(microseconds=...)
  pub days : Delta → ℤ
  pub seconds : Delta → ℕ
  pub microseconds : Delta → ℕ
  pub timedelta : ℤ → Option Delta

mutual
  -- A dict is a list of pairs; it has a key once at most.
  pub data Value (P : Scalars) : Type 0 where
    null : Value P
    boolean : Bool → Value P
    text : String → Value P
    float : P.Float → Value P
    int : ℤ → Value P
    delta : P.Delta → Value P
    scalar : (k : Kind) → P.Scalar k → Value P
    list : Values P → Value P
    dict : Fields P → Value P

  pub data Values (P : Scalars) : Type 0 where
    no_items : Values P
    item : Value P → Values P → Values P

  pub data Fields (P : Scalars) : Type 0 where
    no_fields : Fields P
    field : String → Value P → Fields P → Fields P

abbrev pub max_depth : ℕ
max_depth = 64

module _ (P : Scalars) where
  unfoldable pub is_finite : (k : Kind) → P.Scalar k → Bool
  is_finite decimal d = P.is_finite_decimal d
  is_finite bytes x = true
  is_finite datetime x = true
  is_finite date x = true
  is_finite time x = true
  is_finite windows_path x = true
  is_finite posix_path x = true
  is_finite uuid x = true

  -- The inner `visit` of `copy_value`: whether it returns. What it returns is the same tree; a tree
  -- holds no cycle and none but texts for keys.
  unfoldable mutual
    pub visits : ℕ → Value P → Bool
    visits n null = leb n max_depth
    visits n (boolean b) = leb n max_depth
    visits n (text t) = leb n max_depth
    visits n (float x) = leb n max_depth && P.is_finite_float x
    visits n (int i) = leb n max_depth
    visits n (delta d) = leb n max_depth
    visits n (scalar k x) = leb n max_depth && is_finite k x
    visits n (list vs) = leb n max_depth && visits_all (suc n) vs
    visits n (dict fs) = leb n max_depth && visits_fields (suc n) fs

    pub visits_all : ℕ → Values P → Bool
    visits_all n no_items = true
    visits_all n (item v vs) = visits n v && visits_all n vs

    pub visits_fields : ℕ → Fields P → Bool
    visits_fields n no_fields = true
    visits_fields n (field k v fs) = visits n v && visits_fields n fs

  unfoldable pub copy_value : Value P → Option (Value P)
  copy_value v = if visits 0 v then some v else none
