-- ===== src/Migrate/Migration/Framing.antt =====
-- What the bytes under a checksum of migrate/migration.go determine.
use rasql.Prelude.{
  ◌≡◌, refl, false, List, [], ◌∷◌, ◌++◌, inl, inr, append_assoc, arith, All, Bytes, codes, equal,
  contains_byte, Bool-cases,
}
use rasql.Migrate.Migration.{
  Statement, execution_mode_atomic, execution_mode_nontransactional, mode_marker, frame, preimage,
  checksum_mode,
}

abbrev pub LacksNul : Bytes → Type 0
LacksNul s = contains_byte 0 s ≡ false

abbrev pub IsNulFree : Statement → Type 0
IsNulFree s = LacksNul s.source × LacksNul s.sql

-- A text without NUL is read back from in front of a NUL.
cut_at_nul :
    (a b x y : Bytes)
    → LacksNul a
    → LacksNul b
    → (a ++ (0 ∷ x)) ≡ (b ++ (0 ∷ y))
    → (a ≡ b) × (x ≡ y)
unfolding contains_byte
cut_at_nul [] [] x y ha hb h = ground arith
cut_at_nul [] (d ∷ b) x y ha hb h = ground arith
cut_at_nul (c ∷ a) [] x y ha hb h = ground arith
cut_at_nul (c ∷ a) (d ∷ b) x y ha hb h = ground (arith, cut_at_nul a b x y)

cons_ne_frame : (s : Statement) (ss : List Statement) → frame (s ∷ ss) ≡ [] → ⊥
unfolding frame
cons_ne_frame s ss h = go s.source h
  where
    go : (a : Bytes) → (a ++ (0 ∷ (s.sql ++ (0 ∷ frame ss)))) ≡ [] → ⊥
    go [] e = cc
    go (c ∷ a) e = cc

pub frame-injective :
    (ss ts : List Statement) → All IsNulFree ss → All IsNulFree ts → frame ss ≡ frame ts → ss ≡ ts
unfolding frame
frame-injective [] [] _ _ h = refl
frame-injective [] (t ∷ ts) _ _ h = absurd (cons_ne_frame t ts (cc))
frame-injective (s ∷ ss) [] _ _ h = absurd (cons_ne_frame s ss (cc))
frame-injective (s ∷ ss) (t ∷ ts) (hs, hss) (ht, hts) h =
    let (sources, rest) = cut_at_nul s.source t.source _ _ hs.0 ht.0 h in
    let (sqls, frames) = cut_at_nul s.sql t.sql _ _ hs.1 ht.1 rest in
    let tails = frame-injective ss ts hss hts frames in
    λ i. (record { source = sources i; sql = sqls i }) ∷ tails i

-- The source that imitates the marker of the other execution mode.
abbrev pub marker_source : Statement
marker_source = record { source = codes "rasql-execution-mode"; sql = codes "nontransactional" }

append_cancel : (p a b : Bytes) → (p ++ a) ≡ (p ++ b) → a ≡ b
append_cancel [] a b h = h
append_cancel (c ∷ p) a b h = append_cancel p a b (cc)

-- Under one execution mode, the bytes that are hashed determine the sources, in order, if neither
-- a source's name nor its SQL holds a NUL byte.
pub preimage-injective :
    (mode : Bytes) (ss ts : List Statement)
    → All IsNulFree ss
    → All IsNulFree ts
    → preimage mode ss ≡ preimage mode ts
    → ss ≡ ts
unfolding preimage
preimage-injective mode ss ts hss hts h =
    elim (Bool-cases (equal mode execution_mode_nontransactional)) [
      | inl e ↦ frame-injective ss ts hss hts (append_cancel mode_marker _ _ (rw e at h))
      | inr e ↦ frame-injective ss ts hss hts (rw e at h)
    ]

-- Whatever the digest, a nontransactional migration has the checksum of the atomic migration with
-- the same sources behind one source more, named and filled like the mode's marker; and a NUL byte
-- inside an SQL text hides where one source ends and the next begins.
pub checksum_collision :
    (digest : Bytes → Bytes) (mode source name before after : Bytes) (ss : List Statement)
    → (checksum_mode digest execution_mode_nontransactional ss
        ≡ checksum_mode digest execution_mode_atomic (marker_source ∷ ss))
      × (checksum_mode digest mode
            ((record { source = source; sql = before ++ (0 ∷ (name ++ (0 ∷ after))) }) ∷ ss)
          ≡ checksum_mode digest mode (
              (record { source = source; sql = before })
              ∷ (record { source = name; sql = after })
              ∷ ss))
unfolding checksum_mode preimage equal
checksum_collision digest mode source name before after ss = (refl, simp append_assoc)
