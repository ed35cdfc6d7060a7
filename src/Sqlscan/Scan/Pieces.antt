-- ===== src/Sqlscan/Scan/Pieces.antt =====
-- internal/sqlscan/sqlscan.go: what the `switch` of `Scan` finds at a byte.
use rasql.Prelude.{
  ℕ, ◌+◌, ◌≤◌, ◌≡◌, ◌≢◌, refl, Bool, true, false, ◌&&◌, ◌||◌, Option, none, some, [], ◌∷◌, ◌==◌,
  if◌then◌else◌, take, drop, length, length-drop, Bytes, arith, Bool-cases, Option-cases, Result,
  ok, err, inl, inr, ==_iff,
}
use rasql.Sqlscan.Lexemes.{
  Rules, is_postgresql, is_mysql, backslash_strings, dollar_strings, starts, scan_quoted,
  scan_line_comment, scan_block_comment, line_comment_start, dollar_quote_start, digits, decimal,
  overflows,
}
use rasql.Prelude.{index_of}
use rasql.Sqlscan.Scan.{
  Piece, region, parameter, semicolon, plain, question, dollar, ScanError, unterminated_quoted,
  unterminated_block, closed, dollar_body, dollar_placeholder, dollar_found, dollar_piece, piece_at,
}
use rasql.Sqlscan.Scan.Bounds.{
  Within, scan_quoted-Within, scan_line_comment_bound, scan_block_comment-Within,
  dollar_quote_start-Within, index_of-Within, length-take,
}

-- What a piece says of the byte it was found at and of those behind it.
abbrev pub Fits : ℕ → Bytes → Piece → Type 0
Fits c cs (region n) = n ≤ length cs
Fits c cs (parameter n question number invalid) = (n ≡ 0) × (c ≡ b'?')
Fits c cs (parameter n dollar number invalid) = (n ≡ digits cs) × (n ≢ 0) × (c ≡ b'$')
Fits c cs semicolon = c ≡ b';'
Fits c cs plain = (c ≢ b';') × (c ≢ b'?') × (c ≡ b'$' → digits cs ≡ 0)

abbrev pub ResultFits : ℕ → Bytes → Result ScanError Piece → Type 0
ResultFits c cs (ok p) = Fits c cs p
ResultFits c cs (err e) = Unit

closed-Fits :
    (c : ℕ) (cs : Bytes) (e : ScanError) (k bound : ℕ) (o : Option ℕ)
    → Within o bound
    → k + bound ≤ length cs
    → ResultFits c cs (closed e k o)
unfolding closed
closed-Fits c cs e k bound none h fits = tt
closed-Fits c cs e k bound (some n) h fits = omega arith

quoted-Fits :
    (c : ℕ) (cs : Bytes) (quote : ℕ) (escapes : Bool)
    → ResultFits c cs (closed unterminated_quoted 0 (scan_quoted quote escapes cs))
quoted-Fits c cs quote escapes =
    closed-Fits c cs unterminated_quoted 0 (length cs) _ (scan_quoted-Within quote escapes cs)
      (omega arith)

-- Behind one byte more, which `starts` has seen.
behind-Fits :
    (c b : ℕ) (cs : Bytes) (e : ScanError) (f : Bytes → Option ℕ)
    → ((s : Bytes) → Within (f s) (length s))
    → starts b cs ≡ true
    → ResultFits c cs (closed e 1 (f (drop 1 cs)))
unfolding starts
behind-Fits c b [] e f within seen = absurd cc
behind-Fits c b (d ∷ cs) e f within seen =
    closed-Fits c (d ∷ cs) e 1 (length cs) (f cs) (within cs) (omega arith)

line-Fits :
    (b : ℕ) (cs : Bytes) → starts b cs ≡ true → 1 + scan_line_comment (drop 1 cs) ≤ length cs
unfolding starts
line-Fits b [] seen = absurd cc
line-Fits b (d ∷ cs) seen = omega (arith, scan_line_comment_bound cs)

dollar_body-Fits : (c : ℕ) (cs : Bytes) (n : ℕ) → n ≤ length cs → ResultFits c cs (dollar_body cs n)
unfolding dollar_body
dollar_body-Fits c cs n h = elim (Option-cases (index_of (drop n cs) (b'$' ∷ take n cs))) [
  | inl e ↦ rw (e, closed) tt
  | inr (m, e) ↦
      rw (e, closed)
        (omega (
          arith,
          index_of-Within (drop n cs) (b'$' ∷ take n cs) m e,
          length-take n cs h,
          length-drop n cs,
        ))
]

dollar_placeholder-Fits : (c : ℕ) (cs : Bytes) → c ≡ b'$' → Fits c cs (dollar_placeholder cs)
unfolding dollar_placeholder
dollar_placeholder-Fits c cs h = elim (Bool-cases (digits cs == 0)) [
  | inl e ↦ rw e ((λ k. absurd (omega arith)), (λ k. absurd (omega arith)), λ _. (==_iff _ _).0 e)
  | inr e ↦ elim (Bool-cases (overflows (decimal 0 (digits cs) cs))) [
    | inl f ↦ rw (e, f) (refl, (λ k. ground arith), h)
    | inr f ↦ rw (e, f) (refl, (λ k. ground arith), h)
  ]
]

dollar_found-Fits :
    (c : ℕ) (cs : Bytes) (o : Option ℕ)
    → c ≡ b'$'
    → Within o (length cs)
    → ResultFits c cs (dollar_found cs o)
unfolding dollar_found
dollar_found-Fits c cs none h within = dollar_placeholder-Fits c cs h
dollar_found-Fits c cs (some n) h within = dollar_body-Fits c cs n within

tag-Within :
    (rules : Bool) (s : Bytes) → Within (if rules then dollar_quote_start s else none) (length s)
tag-Within true s = dollar_quote_start-Within s
tag-Within false s = tt

dollar_piece-Fits :
    (rules : Rules) (c : ℕ) (cs : Bytes) → c ≡ b'$' → ResultFits c cs (dollar_piece rules cs)
unfolding dollar_piece
dollar_piece-Fits rules c cs h = dollar_found-Fits c cs _ h (tag-Within (dollar_strings rules) cs)

and_right : (a b : Bool) → (a && b) ≡ true → b ≡ true
and_right true b h = h
and_right false b h = absurd cc

and_left : (a b : Bool) → (a && b) ≡ true → a ≡ true
and_left true b h = refl
and_left false b h = absurd cc

pub piece_at-Fits : (rules : Rules) (c : ℕ) (cs : Bytes) → ResultFits c cs (piece_at rules c cs)
unfolding piece_at
piece_at-Fits rules c cs = elim (Bool-cases (c == b'\'')) [
  | inl e1 ↦ rw (e1, piece_at) (quoted-Fits c cs b'\'' (backslash_strings rules))
  | inr e1 ↦
      elim (Bool-cases (is_postgresql rules && (c == b'e' || c == b'E') && starts b'\'' cs)) [
        | inl e2 ↦
            rw (e1, e2, piece_at)
              (behind-Fits c b'\'' cs unterminated_quoted (scan_quoted b'\'' true)
                (scan_quoted-Within b'\'' true) (and_right _ _ e2))
        | inr e2 ↦ elim (Bool-cases (c == b'"')) [
          | inl e3 ↦ rw (e1, e2, e3, piece_at) (quoted-Fits c cs b'"' (is_mysql rules))
          | inr e3 ↦ elim (Bool-cases (c == b'`')) [
            | inl e4 ↦
                rw (e1, e2, e3, e4, piece_at) (quoted-Fits c cs b'`' (backslash_strings rules))
            | inr e4 ↦
                elim (Bool-cases (c == b'-' && starts b'-' cs && line_comment_start rules cs)) [
                  | inl e5 ↦
                      rw (e1, e2, e3, e4, e5, piece_at)
                        (line-Fits b'-' cs (and_right _ _ (and_left _ _ e5)))
                  | inr e5 ↦ elim (Bool-cases (c == b'#' && backslash_strings rules)) [
                    | inl e6 ↦ rw (e1, e2, e3, e4, e5, e6, piece_at) (scan_line_comment_bound cs)
                    | inr e6 ↦ elim (Bool-cases (c == b'/' && starts b'*' cs)) [
                      | inl e7 ↦
                          rw (e1, e2, e3, e4, e5, e6, e7, piece_at)
                            (behind-Fits c b'*' cs unterminated_block (scan_block_comment 1)
                              (scan_block_comment-Within 1) (and_right _ _ e7))
                      | inr e7 ↦ elim (Bool-cases (c == b'$')) [
                        | inl e8 ↦
                            rw (e1, e2, e3, e4, e5, e6, e7, e8, piece_at)
                              (dollar_piece-Fits rules c cs ((==_iff _ _).0 e8))
                        | inr e8 ↦ elim (Bool-cases (c == b'?')) [
                          | inl e9 ↦
                              rw (e1, e2, e3, e4, e5, e6, e7, e8, e9, piece_at)
                                ((refl, (==_iff _ _).0 e9))
                          | inr e9 ↦ elim (Bool-cases (c == b';')) [
                            | inl e10 ↦
                                rw (e1, e2, e3, e4, e5, e6, e7, e8, e9, e10, piece_at)
                                  ((==_iff _ _).0 e10)
                            | inr e10 ↦
                                rw (e1, e2, e3, e4, e5, e6, e7, e8, e9, e10, piece_at)
                                  (
                                    (λ h. ground (arith, e10)),
                                    (λ h. ground (arith, e9)),
                                    λ h. ground (arith, e8),
                                  )
                          ]
                        ]
                      ]
                    ]
                  ]
                ]
          ]
        ]
      ]
]
