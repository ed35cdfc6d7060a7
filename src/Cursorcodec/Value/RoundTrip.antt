-- ===== src/Cursorcodec/Value/RoundTrip.antt =====
-- The values of internal/cursorcodec/value.go, encoded and decoded again.
use rasql.Prelude.{
  ◌≡◌, refl, ℕ, ◌-◌, ◌%◌, ◌^◌, ◌<◌, Bool, true, false, not, ◌&&◌, ◌||◌, ◌++◌, ltb, lt→ltb, leb,
  Bool-cases, ==_iff, inl, inr, ◌==◌, if◌then◌else◌, length, length-append, ok, err, ◌>>=◌, ℤ, pos,
  negsuc, arith, take_append, drop_append,
}
use rasql.Cursorcodec.BigEndian.{spelled, big_endian, length-big_endian, from_big_endian-big_endian}
use rasql.Cursorcodec.Value.{
  Width, w8, w16, w32, w64, bits, GoType, time_type, float32_type, float64_type, bool_type,
  int_type, uint_type, string_type, bytes_type, GoValue, time_value, float_value, bool_value,
  int_value, uint_value, string_value, bytes_value, nan_value, to_uint64, to_int64, flip_top,
  is_nan, is_nonnegative, biased, unbiased, fits_float32, encode_value, overflows, decode_float,
  decode_value,
}

-- The integers of a size.
abbrev pub InRange : Width → ℤ → Type 0
InRange width (pos n) = n < 2 ^ (bits width - 1)
InRange width (negsuc n) = n < 2 ^ (bits width - 1)

-- The values of a Go type.
abbrev pub HasType : GoType → GoValue → Type 0
HasType time_type (time_value seconds nanos) = InRange w64 seconds × nanos < 1000000000
HasType float32_type (float_value float) = float < 2 ^ 64 × fits_float32 float ≡ true
HasType float64_type (float_value float) = float < 2 ^ 64
HasType bool_type (bool_value b) = Unit
HasType (int_type width) (int_value v) = InRange width v
HasType (uint_type width) (uint_value v) = v < 2 ^ bits width
HasType string_type (string_value s) = Unit
HasType bytes_type (bytes_value s) = Unit
HasType _ _ = ⊥

pub to_int64-to_uint64 : (v : ℤ) → InRange w64 v → to_int64 (to_uint64 v) ≡ v
unfolding to_int64 to_uint64 bits
to_int64-to_uint64 (pos n) h =
    let narrow : (n % 2 ^ 64) ≡ n = omega arith in rw (narrow, lt→ltb n (2 ^ 63) h) refl
to_int64-to_uint64 (negsuc n) h =
    let large : ltb (2 ^ 64 - 1 - n) (2 ^ 63) ≡ false = ground arith in
    let back : (2 ^ 64 - 1 - (2 ^ 64 - 1 - n)) ≡ n = omega arith in rw (large, back) refl

pub to_uint64_bound : (v : ℤ) → to_uint64 v < 2 ^ 64
unfolding to_uint64
to_uint64_bound (pos n) = omega arith
to_uint64_bound (negsuc n) = omega arith

pub flip_top_bound : (u : ℕ) → flip_top u < 2 ^ 64
unfolding flip_top
flip_top_bound u = omega arith

flip_top_twice : (u : ℕ) → u < 2 ^ 64 → flip_top (flip_top u) ≡ u
unfolding flip_top
flip_top_twice u h = omega arith

pub biased_bound : (float : ℕ) → biased float < 2 ^ 64
unfolding biased is_nonnegative flip_top
biased_bound float = ground arith

-- Go's only float that is not negative and has its sign bit on.
abbrev pub negative_zero : ℕ
negative_zero = 2 ^ 63

unbiased-biased :
    (float : ℕ)
    → float < 2 ^ 64
    → (float == negative_zero) ≡ false
    → unbiased (biased float) ≡ float
unfolding biased unbiased is_nonnegative flip_top
unbiased-biased float h k = ground arith

-- What comes back as an error: NaN, and the negative zero.
unfoldable pub refused : GoValue → Bool
unfolding is_nan
refused (float_value float) = is_nan float || float == negative_zero
refused _ = false

decode_float-negative_zero : decode_float (big_endian 8 (biased negative_zero)) ≡ err nan_value
unfolding decode_float big_endian spelled biased unbiased is_nan is_nonnegative flip_top
decode_float-negative_zero = refl

decode_float-biased :
    (float : ℕ)
    → float < 2 ^ 64
    → is_nan float ≡ false
    → decode_float (big_endian 8 (biased float))
      ≡ (if float == negative_zero then err nan_value else ok float)
unfolding decode_float
decode_float-biased float h k =
    let read = from_big_endian-big_endian 8 (biased float) (biased_bound float) in
    elim (Bool-cases (float == negative_zero)) [
      | inl e ↦
          let zero : float ≡ negative_zero = (==_iff float negative_zero).0 e in
          rw (e, zero) decode_float-negative_zero
      | inr e ↦ rw (length-big_endian 8 (biased float), read, unbiased-biased float h e, k, e) refl
    ]

float_round_trip :
    (typ : GoType) (float : ℕ)
    → HasType typ (float_value float)
    → (encode_value (float_value float) >>= decode_value typ)
      ≡ (if refused (float_value float) then err nan_value else ok (float_value float))
unfolding encode_value decode_value refused
float_round_trip float64_type float h = elim (Bool-cases (is_nan float)) [
  | inl e ↦ rw (e) refl
  | inr e ↦ rw (e, decode_float-biased float h e) ground arith
]
float_round_trip float32_type float (h, fits) = elim (Bool-cases (is_nan float)) [
  | inl e ↦ rw (e) refl
  | inr e ↦
      rw (e, decode_float-biased float h e)
        elim (Bool-cases (float == negative_zero)) [
          | inl z ↦ rw (z) refl
          | inr z ↦ rw (z, fits) refl
        ]
]
float_round_trip _ float h = absurd h

int_fits :
    (width : Width) (v : ℤ)
    → InRange width v
    → (not (ltb (bits width) 64 && overflows (bits width) v)) ≡ true
unfolding bits overflows
int_fits w8 (pos n) h = ground arith
int_fits w16 (pos n) h = ground arith
int_fits w32 (pos n) h = ground arith
int_fits w64 (pos n) h = refl
int_fits w8 (negsuc n) h = ground arith
int_fits w16 (negsuc n) h = ground arith
int_fits w32 (negsuc n) h = ground arith
int_fits w64 (negsuc n) h = refl

pub InRange-widest : (width : Width) (v : ℤ) → InRange width v → InRange w64 v
unfolding bits
InRange-widest w8 (pos n) h = omega arith
InRange-widest w16 (pos n) h = omega arith
InRange-widest w32 (pos n) h = omega arith
InRange-widest w64 (pos n) h = h
InRange-widest w8 (negsuc n) h = omega arith
InRange-widest w16 (negsuc n) h = omega arith
InRange-widest w32 (negsuc n) h = omega arith
InRange-widest w64 (negsuc n) h = h

uint_fits :
    (width : Width) (v : ℕ)
    → v < 2 ^ bits width
    → (not (ltb (bits width) 64 && ltb (2 ^ bits width - 1) v)) ≡ true
unfolding bits
uint_fits w8 v h = ground arith
uint_fits w16 v h = ground arith
uint_fits w32 v h = ground arith
uint_fits w64 v h = refl

pub uint_widest : (width : Width) (v : ℕ) → v < 2 ^ bits width → v < 2 ^ 64
unfolding bits
uint_widest w8 v h = omega arith
uint_widest w16 v h = omega arith
uint_widest w32 v h = omega arith
uint_widest w64 v h = h

-- A value that EncodeValue encodes is decoded as its own type to itself, whatever the type and the
-- value are, except for a NaN and for the negative zero: those end in the error for a NaN.
pub decode_value-encode_value :
    (typ : GoType) (v : GoValue)
    → HasType typ v
    → (encode_value v >>= decode_value typ) ≡ (if refused v then err nan_value else ok v)
unfolding encode_value decode_value refused
decode_value-encode_value time_type (time_value seconds nanos) (hs, hn) =
    let size : length (big_endian 8 (to_uint64 seconds) ++ big_endian 4 (nanos % 2 ^ 32)) ≡ 12 =
      omega (
        arith,
        length-append (big_endian 8 (to_uint64 seconds)) (big_endian 4 (nanos % 2 ^ 32)),
        length-big_endian 8 (to_uint64 seconds),
        length-big_endian 4 (nanos % 2 ^ 32),
      ) in
    let narrow : (nanos % 2 ^ 32) ≡ nanos = omega arith in
    let first =
      take_append 8 (big_endian 8 (to_uint64 seconds)) (big_endian 4 nanos)
        (length-big_endian 8 (to_uint64 seconds)) in
    let last =
      drop_append 8 (big_endian 8 (to_uint64 seconds)) (big_endian 4 nanos)
        (length-big_endian 8 (to_uint64 seconds)) in
    let legal : (not (leb 1000000000 nanos)) ≡ true = ground arith in
    rw
      (
        size,
        narrow,
        first,
        last,
        from_big_endian-big_endian 8 (to_uint64 seconds) (to_uint64_bound seconds),
        from_big_endian-big_endian 4 nanos (omega arith),
        to_int64-to_uint64 seconds hs,
        legal,
      )
      refl
decode_value-encode_value bool_type (bool_value true) h = refl
decode_value-encode_value bool_type (bool_value false) h = refl
decode_value-encode_value float64_type (float_value float) h = float_round_trip float64_type float h
decode_value-encode_value float32_type (float_value float) h = float_round_trip float32_type float h
decode_value-encode_value (int_type width) (int_value v) h =
    let u = to_uint64 v in
    let read = from_big_endian-big_endian 8 (flip_top u) (flip_top_bound u) in
    rw
      (
        length-big_endian 8 (flip_top u),
        read,
        flip_top_twice u (to_uint64_bound v),
        to_int64-to_uint64 v (InRange-widest width v h),
        int_fits width v h,
      )
      refl
decode_value-encode_value (uint_type width) (uint_value v) h =
    rw
      (
        length-big_endian 8 v,
        from_big_endian-big_endian 8 v (uint_widest width v h),
        uint_fits width v h,
      )
      refl
decode_value-encode_value string_type (string_value s) h = refl
decode_value-encode_value bytes_type (bytes_value s) h = refl
decode_value-encode_value _ _ h = absurd h
