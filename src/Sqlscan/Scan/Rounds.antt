-- ===== src/Sqlscan/Scan/Rounds.antt =====
-- internal/sqlscan/sqlscan.go: the rounds of the loop of `Scan`, and the order of the regions
-- it protects.
use rasql.Prelude.{
  ℕ, zero, suc, ◌+◌, ◌≤◌, ◌<◌, ◌≡◌, sym, subst, List, [], ◌∷◌, length, Bytes, arith, ok, >>=-eq-ok,
}
use rasql.Sqlscan.Lexemes.{Rules}
use rasql.Sqlscan.Scan.{
  Span, question, dollar, Scanned, Piece, region, parameter, semicolon, plain, passed, piece_at,
  add_piece, scan_from, scan,
}
use rasql.Sqlscan.Scan.Bounds.{digits_bound}
use rasql.Sqlscan.Scan.Pieces.{Fits, ResultFits, piece_at-Fits}

-- The regions are not empty, apart, in order, and between two offsets.
abbrev pub Ordered : ℕ → ℕ → List Span → Type 0
Ordered lo hi [] = Unit
Ordered lo hi (s ∷ ss) = (lo ≤ s.start) × (s.start < s.end) × (s.end ≤ hi) × Ordered s.end hi ss

piece-Fits :
    (rules : Rules) (c : ℕ) (cs : Bytes) (p : Piece) → piece_at rules c cs ≡ ok p → Fits c cs p
piece-Fits rules c cs p h = subst (ResultFits c cs) h (piece_at-Fits rules c cs)

pub passed_bound : (c : ℕ) (cs : Bytes) (p : Piece) → Fits c cs p → passed p ≤ length cs
unfolding passed
passed_bound c cs (region n) h = h
passed_bound c cs (parameter n question x bad) (none, h) = omega arith
passed_bound c cs (parameter n dollar x bad) (h, some, at) = omega (arith, digits_bound cs)
passed_bound c cs semicolon h = omega arith
passed_bound c cs plain h = omega arith

-- A round of the loop: the piece, and what the rest gives.
pub scan_from-step :
    (rules : Rules) (i c : ℕ) (cs : Bytes) (r : Scanned)
    → scan_from rules i 0 (c ∷ cs) ≡ ok r
    → (p : Piece) × (later : Scanned) × Fits c cs p
      × (scan_from rules (i + 1) (passed p) cs ≡ ok later)
      × (add_piece i p later ≡ r)
unfolding scan_from
scan_from-step rules i c cs r h =
    let (p, found, h1) = >>=-eq-ok (piece_at rules c cs) _ h in
    let (later, rest, h2) = >>=-eq-ok (scan_from rules (i + 1) (passed p) cs) _ h1 in
    (p, later, piece-Fits rules c cs p found, rest, cc)

pub Ordered-below :
    (lo lo' hi : ℕ) (ss : List Span) → lo ≤ lo' → Ordered lo' hi ss → Ordered lo hi ss
Ordered-below lo lo' hi [] h o = tt
Ordered-below lo lo' hi (s ∷ ss) h (a, b, c, o) = (omega arith, b, c, o)

add_piece-Ordered :
    (i hi : ℕ) (c : ℕ) (cs : Bytes) (p : Piece) (r : Scanned)
    → Fits c cs p
    → i + 1 + length cs ≤ hi
    → Ordered (i + 1 + passed p) hi r.protected
    → Ordered i hi (add_piece i p r).protected
unfolding add_piece passed
add_piece-Ordered i hi c cs (region n) r fits h o = ((omega arith), (omega arith), (omega arith), o)
add_piece-Ordered i hi c cs (parameter n k x bad) r fits h o =
    Ordered-below i _ hi r.protected (omega arith) o
add_piece-Ordered i hi c cs semicolon r fits h o = Ordered-below i _ hi r.protected (omega arith) o
add_piece-Ordered i hi c cs plain r fits h o = Ordered-below i _ hi r.protected (omega arith) o

pub scan_from-Ordered :
    (rules : Rules) (i n : ℕ) (s : Bytes) (r : Scanned)
    → scan_from rules i n s ≡ ok r
    → n ≤ length s
    → Ordered (i + n) (i + length s) r.protected
unfolding scan_from
scan_from-Ordered rules i n [] r h fits =
    let e : r.protected ≡ [] = cc in subst (Ordered (i + n) (i + 0)) (sym e) tt
scan_from-Ordered rules i (suc n) (c ∷ cs) r h fits =
    let start : i + 1 + n ≡ i + suc n = omega arith in
    let end : i + 1 + length cs ≡ i + suc (length cs) = omega arith in
    subst (λ lo. Ordered lo (i + suc (length cs)) r.protected) start
      (subst (λ hi. Ordered (i + 1 + n) hi r.protected) end
        (scan_from-Ordered rules (i + 1) n cs r h (omega arith)))
scan_from-Ordered rules i zero (c ∷ cs) r h fits =
    let (p, later, good, rest, e) = scan_from-step rules i c cs r h in
    let tail =
      scan_from-Ordered rules (i + 1) (passed p) cs later rest (passed_bound c cs p good) in
    let start : i ≡ i + 0 = omega arith in
    let end : i + 1 + length cs ≡ i + suc (length cs) = omega arith in
    subst (λ lo. Ordered lo (i + suc (length cs)) r.protected) start
      (subst (λ hi. Ordered i hi r.protected) end
        (subst (λ q. Ordered i (i + 1 + length cs) q.protected) e
          (add_piece-Ordered i (i + 1 + length cs) c cs p later good (omega arith) tail)))

-- The regions that `Scan` protects are not empty, apart, in order, and within the text.
pub scan-Ordered :
    (rules : Rules) (sql : Bytes) (r : Scanned)
    → scan rules sql ≡ ok r
    → Ordered 0 (length sql) r.protected
unfolding scan
scan-Ordered rules sql r h =
    let all : 0 + length sql ≡ length sql = omega arith in
    subst (λ hi. Ordered 0 hi r.protected) all (scan_from-Ordered rules 0 0 sql r h (omega arith))
