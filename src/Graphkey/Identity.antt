-- ===== src/Graphkey/Identity.antt =====
-- What the identity of a tuple of internal/graphkey/spec.go tells of a row's key.
use rasql.Prelude.{
  ◌≡◌, ◌↔◌, refl, sym, ap, subst, ◌∙◌, suc, ◌%◌, false, not, ◌==◌, Option, none, some, some_inj,
  List, [], ◌∷◌, ◌++◌, length, All, Result, ok, guard, >>=-eq-ok, ok_inj, arith,
}
use rasql.Graphkey.{
  DriverValue, TimeFormat, GraphKeyError, empty_key, frame, PartSpec, Component, Tuple, Encoding,
  driver_value, component, next_part, components_of, frames, with_component, tuple_of, tuple,
}
use rasql.Graphkey.Framing.{IsDriverValue, IsTimeFormat, frame_prefix}

abbrev pub component_values : List Component → List DriverValue
component_values [] = []
component_values (c ∷ cs) = c.value ∷ component_values cs

-- A component holds its value's frame.
abbrev IsFramed : TimeFormat → Component → Type 0
IsFramed format c = frame format false c.value ≡ ok c.encoded

abbrev pub IsLegal : TimeFormat → Component → Type 0
IsLegal format c = IsDriverValue format c.value

frames_values :
    (format : TimeFormat) (cs ds : List Component)
    → All (IsFramed format) cs
    → All (IsFramed format) ds
    → component_values cs ≡ component_values ds
    → frames cs ≡ frames ds
frames_values format [] [] _ _ e = refl
frames_values format [] (d ∷ ds) _ _ e = absurd cc
frames_values format (c ∷ cs) [] _ _ e = absurd cc
frames_values format (c ∷ cs) (d ∷ ds) (fc, fcs) (fd, fds) e =
    let value : c.value ≡ d.value = cc in
    let values : component_values cs ≡ component_values ds = cc in
    let same : c.encoded ≡ d.encoded = ok_inj (sym fc ∙ ap (frame format false) value ∙ fd) in
    let rest = frames_values format cs ds fcs fds values in λ i. same i ++ rest i

values_frames :
    (format : TimeFormat) (cs ds : List Component)
    → IsTimeFormat format
    → All (IsFramed format) cs
    → All (IsFramed format) ds
    → All (IsLegal format) cs
    → All (IsLegal format) ds
    → length cs ≡ length ds
    → frames cs ≡ frames ds
    → component_values cs ≡ component_values ds
values_frames format [] [] _ _ _ _ _ _ _ = refl
values_frames format [] (d ∷ ds) _ _ _ _ _ sizes _ = absurd (omega arith)
values_frames format (c ∷ cs) [] _ _ _ _ _ sizes _ = absurd (omega arith)
values_frames format (c ∷ cs) (d ∷ ds) inj (fc, fcs) (fd, fds) (lc, lcs) (ld, lds) sizes e =
    let (value, behind) =
      frame_prefix format false c.value d.value (frames cs) (frames ds) inj lc ld fc fd e in
    let values = values_frames format cs ds inj fcs fds lcs lds (omega arith) behind in
    λ i. value i ∷ values i

module _ {R V : Type 0} (encoding : Encoding V) where
  component-eq-ok :
      (part : PartSpec R V) (value : V) {c : Component}
      → component encoding part value ≡ ok c
      → IsFramed encoding.format c
  unfolding component
  component-eq-ok part value h =
      let (driver, _, h1) = >>=-eq-ok (driver_value encoding part value) _ h in
      let (bytes, framing, h2) = >>=-eq-ok (frame encoding.format false driver) _ h1 in
      subst (IsFramed encoding.format) (ok_inj h2) framing

  abbrev FramedParts : List (PartSpec R V) → Option (List Component) → Type 0
  FramedParts parts none = Unit
  FramedParts parts (some cs) = All (IsFramed encoding.format) cs × length cs ≡ length parts

  joined :
      (part : PartSpec R V) (parts : List (PartSpec R V)) (c : Component)
      (cs : Option (List Component))
      → IsFramed encoding.format c
      → FramedParts parts cs
      → FramedParts (part ∷ parts) (with_component c cs)
  joined part parts c none framing _ = tt
  joined part parts c (some cs) framing (all, size) = ((framing, all), ap suc size)

  next_part-eq-ok :
      (part : PartSpec R V) (parts : List (PartSpec R V)) (o : Option V)
      (rest : Result GraphKeyError (Option (List Component))) {cs : Option (List Component)}
      → ((ds : Option (List Component)) → rest ≡ ok ds → FramedParts parts ds)
      → next_part encoding part o rest ≡ ok cs
      → FramedParts (part ∷ parts) cs
  unfolding next_part
  next_part-eq-ok part parts none rest later h = subst (FramedParts (part ∷ parts)) (ok_inj h) tt
  next_part-eq-ok part parts (some value) rest later h =
      let (c, made, h1) = >>=-eq-ok (component encoding part value) _ h in
      let (cs, looped, h2) = >>=-eq-ok rest _ h1 in
      subst (FramedParts (part ∷ parts)) (ok_inj h2)
        (joined part parts c cs (component-eq-ok part value made) (later cs looped))

  components_of-eq-ok :
      (parts : List (PartSpec R V)) (row : R) (cs : Option (List Component))
      → components_of encoding parts row ≡ ok cs
      → FramedParts parts cs
  unfolding components_of
  components_of-eq-ok [] row cs h = subst (FramedParts []) (ok_inj h) (tt, refl)
  components_of-eq-ok (part ∷ parts) row cs h =
      next_part-eq-ok part parts (part.extract row) (components_of encoding parts row)
        (components_of-eq-ok parts row) h

  tuple-eq-ok :
      (parts : List (PartSpec R V)) (row : R) {t : Tuple}
      → tuple encoding parts row ≡ ok (some t)
      → All (IsFramed encoding.format) t.components
        × length t.components ≡ length parts
        × t.identity ≡ (length parts % 256 ∷ frames t.components)
  unfolding tuple
  tuple-eq-ok parts row {t} h =
      let (_, _, h1) = >>=-eq-ok (guard (not (length parts == 0)) empty_key) _ h in
      let (cs, looped, h2) = >>=-eq-ok (components_of encoding parts row) _ h1 in
      of_components cs (components_of-eq-ok parts row cs looped) (ok_inj h2)
    where
      of_components :
          (cs : Option (List Component))
          → FramedParts parts cs
          → tuple_of (length parts) cs ≡ some t
          → All (IsFramed encoding.format) t.components
            × length t.components ≡ length parts
            × t.identity ≡ (length parts % 256 ∷ frames t.components)
      of_components none _ e = absurd cc
      of_components (some cs) (all, size) e =
          subst
            (λ u.
              All (IsFramed encoding.format) u.components
              × length u.components ≡ length parts
              × u.identity ≡ (length parts % 256 ∷ frames u.components))
            (some_inj e) (all, size, refl)

  -- Two rows have the same identity under one key exactly where they have the same driver values
  -- for the key's columns, if different instants have different texts and the values are ones that
  -- a driver may carry.
  pub tuple-identity_iff :
      (parts : List (PartSpec R V)) (r s : R) (t u : Tuple)
      → IsTimeFormat encoding.format
      → tuple encoding parts r ≡ ok (some t)
      → tuple encoding parts s ≡ ok (some u)
      → All (IsLegal encoding.format) t.components
      → All (IsLegal encoding.format) u.components
      → (t.identity ≡ u.identity) ↔ (component_values t.components ≡ component_values u.components)
  tuple-identity_iff parts r s t u inj ht hu lt lu =
      let (framed_t, size_t, identity_t) = tuple-eq-ok parts r ht in
      let (framed_u, size_u, identity_u) = tuple-eq-ok parts s hu in
      (
        λ same.
            let heads : (length parts % 256 ∷ frames t.components)
                ≡ (length parts % 256 ∷ frames u.components) =
              sym identity_t ∙ same ∙ identity_u in
            values_frames encoding.format t.components u.components inj framed_t framed_u lt lu
              (size_t ∙ sym size_u) (cc),
        λ same.
            identity_t
            ∙ ap (λ bs. length parts % 256 ∷ bs)
                (frames_values encoding.format t.components u.components framed_t framed_u same)
            ∙ sym identity_u,
      )
