-- ===== src/Graphkey/Framing.antt =====
-- What the frames of internal/graphkey/value.go determine.
use rasql.Prelude.{
  ◌≡◌, refl, sym, ap, subst, ◌∙◌, ℕ, ◌%◌, ◌^◌, ◌<◌, Bool, true, false, not, ◌&&◌, List, [], ◌∷◌,
  ◌++◌, append_assoc, length, Bytes, ok, guard, >>=-eq-ok, ok_inj, ℤ, arith,
}
use rasql.Cursorcodec.BigEndian.{big_endian, big_endian_inj, length-big_endian}
use rasql.Cursorcodec.Value.{w64, to_uint64, to_int64, is_nan}
use rasql.Cursorcodec.Value.RoundTrip.{InRange, to_int64-to_uint64, to_uint64_bound}
use rasql.Graphkey.{
  DriverValue, null_value, int64_value, float64_value, bool_value, bytes_value, string_value,
  time_value, foreign_value, TimeFormat, nan_key, tagged, framed, frame,
}

-- Two pairs of texts, the first two of one length.
pub append_split {ℓ} :
    {A : Type ℓ} (a b x y : List A) → length a ≡ length b → (a ++ x) ≡ (b ++ y) → (a ≡ b) × (x ≡ y)
append_split [] [] x y e h = (refl, h)
append_split [] (d ∷ b) x y e h = absurd (omega arith)
append_split (c ∷ a) [] x y e h = absurd (omega arith)
append_split (c ∷ a) (d ∷ b) x y e h =
    let heads : c ≡ d = cc in
    let (tails, rest) = append_split a b x y (omega arith) (cc) in (λ i. heads i ∷ tails i, rest)

-- The length of a payload that a frame can tell.
abbrev pub IsPayload : ℕ × Bytes → Type 0
IsPayload (tag, payload) = length payload < 2 ^ 64

-- A frame in front of other bytes is read back.
pub framed_prefix :
    (p q : ℕ × Bytes) (x y : Bytes)
    → IsPayload p
    → IsPayload q
    → (framed p ++ x) ≡ (framed q ++ y)
    → (p ≡ q) × (x ≡ y)
framed_prefix (s, a) (t, b) x y ha hb h =
    let tags : s ≡ t = cc in
    let n = length a % 2 ^ 64 in
    let m = length b % 2 ^ 64 in
    let tails : ((big_endian 8 n ++ a) ++ x) ≡ ((big_endian 8 m ++ b) ++ y) = cc in
    let behind : (big_endian 8 n ++ (a ++ x)) ≡ (big_endian 8 m ++ (b ++ y)) =
      sym (append_assoc (big_endian 8 n) a x) ∙ tails ∙ append_assoc (big_endian 8 m) b y in
    let (sizes, payloads) =
      append_split (big_endian 8 n) (big_endian 8 m) (a ++ x) (b ++ y)
        (length-big_endian 8 n ∙ sym (length-big_endian 8 m)) behind in
    let same = big_endian_inj 8 n m (omega arith) (omega arith) sizes in
    let (bytes, rest) = append_split a b x y (omega arith) payloads in
    (λ i. (tags i, bytes i), rest)

-- The values that a driver may carry, with texts of a length that fits into Go's uint64.
abbrev pub IsDriverValue : TimeFormat → DriverValue → Type 0
IsDriverValue format null_value = Unit
IsDriverValue format (int64_value v) = InRange w64 v
IsDriverValue format (float64_value v) = v < 2 ^ 64
IsDriverValue format (bool_value b) = Unit
IsDriverValue format (bytes_value v) = length v < 2 ^ 64
IsDriverValue format (string_value v) = length v < 2 ^ 64
IsDriverValue format (time_value seconds nanos) = length (format seconds nanos) < 2 ^ 64
IsDriverValue format foreign_value = ⊥

-- Different instants have different texts.
abbrev pub IsTimeFormat : TimeFormat → Type 0
IsTimeFormat format =
    (s t : ℤ) (m n : ℕ) → format s m ≡ format t n → time_value s m ≡ time_value t n

pub to_uint64_inj : (v w : ℤ) → InRange w64 v → InRange w64 w → to_uint64 v ≡ to_uint64 w → v ≡ w
to_uint64_inj v w hv hw e = sym (to_int64-to_uint64 v hv) ∙ ap to_int64 e ∙ to_int64-to_uint64 w hw

-- The tag and the payload of a value that a frame is made of.
abbrev tag_of : DriverValue → ℕ
tag_of null_value = 0
tag_of (int64_value v) = 1
tag_of (float64_value v) = 2
tag_of (bool_value b) = 3
tag_of (bytes_value v) = 4
tag_of (string_value v) = 5
tag_of (time_value seconds nanos) = 6
tag_of foreign_value = 7

abbrev payload_of : TimeFormat → DriverValue → Bytes
payload_of format null_value = []
payload_of format (int64_value v) = big_endian 8 (to_uint64 v)
payload_of format (float64_value v) = big_endian 8 v
payload_of format (bool_value true) = 1 ∷ []
payload_of format (bool_value false) = 0 ∷ []
payload_of format (bytes_value v) = v
payload_of format (string_value v) = v
payload_of format (time_value seconds nanos) = format seconds nanos
payload_of format foreign_value = []

tagged-eq-ok :
    (format : TimeFormat) (allow : Bool) (v : DriverValue) {p : ℕ × Bytes}
    → tagged format allow v ≡ ok p
    → p ≡ (tag_of v, payload_of format v)
unfolding tagged
tagged-eq-ok format allow null_value h = sym (ok_inj h)
tagged-eq-ok format allow (int64_value v) h = sym (ok_inj h)
tagged-eq-ok format allow (float64_value v) h =
    let (_, _, h1) = >>=-eq-ok (guard (not (not allow && is_nan v)) nan_key) _ h in sym (ok_inj h1)
tagged-eq-ok format allow (bool_value true) h = sym (ok_inj h)
tagged-eq-ok format allow (bool_value false) h = sym (ok_inj h)
tagged-eq-ok format allow (bytes_value v) h = sym (ok_inj h)
tagged-eq-ok format allow (string_value v) h = sym (ok_inj h)
tagged-eq-ok format allow (time_value seconds nanos) h = sym (ok_inj h)
tagged-eq-ok format allow foreign_value h = absurd cc

IsPayload-of :
    (format : TimeFormat) (v : DriverValue)
    → IsDriverValue format v
    → IsPayload (tag_of v, payload_of format v)
IsPayload-of format null_value h = omega arith
IsPayload-of format (int64_value v) h = omega (arith, length-big_endian 8 (to_uint64 v))
IsPayload-of format (float64_value v) h = omega (arith, length-big_endian 8 v)
IsPayload-of format (bool_value true) h = omega arith
IsPayload-of format (bool_value false) h = omega arith
IsPayload-of format (bytes_value v) h = h
IsPayload-of format (string_value v) h = h
IsPayload-of format (time_value seconds nanos) h = h
IsPayload-of format foreign_value h = absurd h

same_value :
    (format : TimeFormat) (v w : DriverValue)
    → IsTimeFormat format
    → IsDriverValue format v
    → IsDriverValue format w
    → tag_of v ≡ tag_of w
    → payload_of format v ≡ payload_of format w
    → v ≡ w
same_value format null_value null_value _ _ _ _ _ = refl
same_value format (int64_value v) (int64_value w) _ hv hw _ e = ap int64_value (
    to_uint64_inj v w hv hw
      (big_endian_inj 8 (to_uint64 v) (to_uint64 w) (to_uint64_bound v) (to_uint64_bound w) e))
same_value format (float64_value v) (float64_value w) _ hv hw _ e =
    ap float64_value (big_endian_inj 8 v w hv hw e)
same_value format (bool_value true) (bool_value true) _ _ _ _ _ = refl
same_value format (bool_value false) (bool_value false) _ _ _ _ _ = refl
same_value format (bool_value true) (bool_value false) _ _ _ _ e = absurd (ground arith)
same_value format (bool_value false) (bool_value true) _ _ _ _ e = absurd (ground arith)
same_value format (bytes_value v) (bytes_value w) _ _ _ _ e = ap bytes_value e
same_value format (string_value v) (string_value w) _ _ _ _ e = ap string_value e
same_value format (time_value s m) (time_value t n) format_inj _ _ _ e = format_inj s t m n e
same_value format foreign_value foreign_value _ _ _ _ _ = refl
same_value format _ _ _ _ _ tags _ = absurd (omega arith)

-- Frames in front of other bytes tell the values apart.
pub frame_prefix :
    (format : TimeFormat) (allow : Bool) (v w : DriverValue) (x y : Bytes) {a b : Bytes}
    → IsTimeFormat format
    → IsDriverValue format v
    → IsDriverValue format w
    → frame format allow v ≡ ok a
    → frame format allow w ≡ ok b
    → (a ++ x) ≡ (b ++ y)
    → (v ≡ w) × (x ≡ y)
unfolding frame
frame_prefix format allow v w x y format_inj hv hw ev ew e =
    let (p, pv, fv) = >>=-eq-ok (tagged format allow v) _ ev in
    let (q, qw, fw) = >>=-eq-ok (tagged format allow w) _ ew in
    let parts_v = tagged-eq-ok format allow v pv in
    let parts_w = tagged-eq-ok format allow w qw in
    let whole : (framed p ++ x) ≡ (framed q ++ y) =
      ap (λ bs. bs ++ x) (ok_inj fv) ∙ e ∙ sym (ap (λ bs. bs ++ y) (ok_inj fw)) in
    let (same, rest) =
      framed_prefix p q x y (subst IsPayload (sym parts_v) (IsPayload-of format v hv))
        (subst IsPayload (sym parts_w) (IsPayload-of format w hw)) whole in
    let parts = sym parts_v ∙ same ∙ parts_w in
    (same_value format v w format_inj hv hw (λ i. (parts i).0) (λ i. (parts i).1), rest)
