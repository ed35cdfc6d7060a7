-- ===== src/Sqlscan/Scan/Outside.antt =====
-- internal/sqlscan/sqlscan.go: what `Scan` records is all that stands outside the regions.
use rasql.Prelude.{
  ℕ, zero, suc, ◌+◌, ◌≤◌, ◌≡◌, refl, sym, subst, ◌∙◌, Bool, true, false, List, [], ◌∷◌, ◌==◌,
  ==_iff, if◌then◌else◌, drop, length, Bytes, arith, Bool-cases, ok, inl, inr,
}
use rasql.Sqlscan.Lexemes.{Rules, digits, is_digit}
use rasql.Sqlscan.Scan.{
  question, dollar, Scanned, Piece, region, parameter, semicolon, plain, passed, add_piece,
  scan_from, scan,
}
use rasql.Sqlscan.Scan.Pieces.{Fits}
use rasql.Sqlscan.Scan.Rounds.{Ordered, scan_from-Ordered, scan_from-step, passed_bound}
use rasql.Sqlscan.Scan.Marks.{
  positions, semicolon_at, question_at, dollar_at, starts_of, is_region, uncovered, offset, inside,
  behind_piece,
}

module _ (test : ℕ → Bytes → Bool)
    (quiet : (d : ℕ) (ds : Bytes) → is_digit d ≡ true → test d ds ≡ false)
    (found : Scanned → List ℕ)
    (at_end : found record { protected = []; placeholders = []; semicolons = [] } ≡ [])
    (at_region : (i n : ℕ) (r : Scanned) → found (add_piece i (region n) r) ≡ found r)
    (at_other : (i c : ℕ) (cs : Bytes) (p : Piece) (r : Scanned)
      → is_region p ≡ false
      → Fits c cs p
      → found (add_piece i p r) ≡ (if test c cs then i ∷ found r else found r)) where
  found_other :
      (i hi c : ℕ) (cs : Bytes) (p : Piece) (r : Scanned)
      → is_region p ≡ false
      → Fits c cs p
      → Ordered (i + 1 + passed p) hi r.protected
      → found r ≡ positions test r.protected (i + 1 + passed p) (drop (passed p) cs)
      → found (add_piece i p r) ≡ positions test r.protected i (c ∷ cs)
  found_other i hi c cs p r other fits o h =
      let free = uncovered i (i + 1 + passed p) hi r.protected (omega arith) o in
      let rest : positions test r.protected (i + 1) cs ≡ found r =
        behind_piece test quiet r.protected (i + 1) c cs p other fits ∙ sym h in
      at_other i c cs p r other fits ∙ rw (free, rest) refl

  found_piece :
      (i hi c : ℕ) (cs : Bytes) (p : Piece) (r : Scanned)
      → Fits c cs p
      → Ordered (i + 1 + passed p) hi r.protected
      → found r ≡ positions test r.protected (i + 1 + passed p) (drop (passed p) cs)
      → found (add_piece i p r) ≡ positions test (add_piece i p r).protected i (c ∷ cs)
  unfolding add_piece passed
  found_piece i hi c cs (region n) r fits o h =
      at_region i n r
      ∙ h
      ∙ offset test r.protected (i + 1 + n) (i + suc n) (drop n cs) (omega arith)
      ∙ sym (
          inside test record { start = i; end = i + 1 + n } r.protected (suc n) i (c ∷ cs)
            (omega arith) (omega arith))
  found_piece i hi c cs (parameter n k x bad) r fits o h =
      found_other i hi c cs (parameter n k x bad) r refl fits o h
  found_piece i hi c cs semicolon r fits o h = found_other i hi c cs semicolon r refl fits o h
  found_piece i hi c cs plain r fits o h = found_other i hi c cs plain r refl fits o h

  nothing : (i n : ℕ) → positions test [] i (drop n []) ≡ []
  nothing i zero = refl
  nothing i (suc n) = refl

  scan_from-found :
      (rules : Rules) (i n : ℕ) (s : Bytes) (r : Scanned)
      → scan_from rules i n s ≡ ok r
      → n ≤ length s
      → found r ≡ positions test r.protected (i + n) (drop n s)
  unfolding scan_from
  scan_from-found rules i n [] r h fits =
      let e : record { protected = []; placeholders = []; semicolons = [] } ≡ r = cc in
      subst (λ q. found q ≡ positions test q.protected (i + n) (drop n [])) e
        (at_end ∙ sym (nothing (i + n) n))
  scan_from-found rules i (suc n) (c ∷ cs) r h fits =
      scan_from-found rules (i + 1) n cs r h (omega arith)
      ∙ offset test r.protected (i + 1 + n) (i + suc n) (drop n cs) (omega arith)
  scan_from-found rules i zero (c ∷ cs) r h fits =
      let (p, later, good, rest, e) = scan_from-step rules i c cs r h in
      let short = passed_bound c cs p good in
      let o = scan_from-Ordered rules (i + 1) (passed p) cs later rest short in
      let tail = scan_from-found rules (i + 1) (passed p) cs later rest short in
      subst (λ q. found q ≡ positions test q.protected (i + 0) (c ∷ cs)) e
        (found_piece i _ c cs p later good o tail
          ∙ offset test (add_piece i p later).protected i (i + 0) (c ∷ cs) (omega arith))

semicolons_at :
    (i c : ℕ) (cs : Bytes) (p : Piece) (r : Scanned)
    → is_region p ≡ false
    → Fits c cs p
    → (add_piece i p r).semicolons ≡ (if semicolon_at c cs then i ∷ r.semicolons else r.semicolons)
unfolding add_piece
semicolons_at i c cs (region n) r h fits = absurd cc
semicolons_at i c cs (parameter n question x bad) r h (none, at) = ground arith
semicolons_at i c cs (parameter n dollar x bad) r h (all, some, at) = ground arith
semicolons_at i c cs semicolon r h fits = ground arith
semicolons_at i c cs plain r h (fits, _, _) = ground arith

questions_at :
    (i c : ℕ) (cs : Bytes) (p : Piece) (r : Scanned)
    → is_region p ≡ false
    → Fits c cs p
    → starts_of question (add_piece i p r).placeholders ≡ (
        if question_at c cs
        then i ∷ starts_of question r.placeholders
        else starts_of question r.placeholders)
unfolding add_piece
questions_at i c cs (region n) r h fits = absurd cc
questions_at i c cs (parameter n question x bad) r h (none, at) = rw at refl
questions_at i c cs (parameter n dollar x bad) r h (all, some, at) = rw at refl
questions_at i c cs semicolon r h fits = rw fits refl
questions_at i c cs plain r h (_, fits, _) = ground arith

dollars_at :
    (i c : ℕ) (cs : Bytes) (p : Piece) (r : Scanned)
    → is_region p ≡ false
    → Fits c cs p
    → starts_of dollar (add_piece i p r).placeholders ≡ (
        if dollar_at c cs
        then i ∷ starts_of dollar r.placeholders
        else starts_of dollar r.placeholders)
unfolding add_piece
dollars_at i c cs (region n) r h fits = absurd cc
dollars_at i c cs (parameter n question x bad) r h (none, at) = rw at refl
dollars_at i c cs (parameter n dollar x bad) r h (all, some, at) =
    let more : (digits cs == 0) ≡ false = ground arith in rw (at, more) refl
dollars_at i c cs semicolon r h fits = rw fits refl
dollars_at i c cs plain r h (_, _, fits) = ground arith

no_digit : (b d : ℕ) → is_digit b ≡ false → is_digit d ≡ true → (d == b) ≡ false
no_digit b d other digit = elim (Bool-cases (d == b)) [
  | inl e ↦ let same = (==_iff d b).0 e in absurd cc
  | inr e ↦ e
]

no_dollar : (d : ℕ) (ds : Bytes) → is_digit d ≡ true → dollar_at d ds ≡ false
unfolding is_digit
no_dollar d ds e = rw (no_digit b'$' d refl e) refl

-- What `Scan` records besides the regions: every semicolon, every question mark and every dollar
-- sign before a digit that stands outside the regions, in order, and no other.
pub scan-Outside :
    (rules : Rules) (sql : Bytes) (r : Scanned)
    → scan rules sql ≡ ok r
    → (r.semicolons ≡ positions semicolon_at r.protected 0 sql)
      × (starts_of question r.placeholders ≡ positions question_at r.protected 0 sql)
      × (starts_of dollar r.placeholders ≡ positions dollar_at r.protected 0 sql)
unfolding scan add_piece is_digit
scan-Outside rules sql r h = (
  scan_from-found semicolon_at (λ d ds e. no_digit b';' d refl e) (λ q. q.semicolons) refl
      (λ i n q. refl) semicolons_at rules 0 0 sql r h (omega arith),
  scan_from-found question_at (λ d ds e. no_digit b'?' d refl e)
      (λ q. starts_of question q.placeholders) refl (λ i n q. refl) questions_at rules 0 0 sql r h
      (omega arith),
  scan_from-found dollar_at no_dollar (λ q. starts_of dollar q.placeholders) refl (λ i n q. refl)
      dollars_at rules 0 0 sql r h (omega arith),
)
