-- ===== src/Score/Digest/Laws.antt =====
-- core/score/digest.py: the serialized content determines the content.
use master_all_strings.Prelude.{
  List, [], ◌∷◌, Option, none, some, ok, ◌≡◌, refl, sym, ap, ◌∙◌, arith, All, inl, subst, ◌↔◌,
  >>=-eq-ok, >>=-elim, ok-injective,
}
use master_all_strings.Prelude.Float.{Float, IsFinite}
use master_all_strings.Prelude.Text.{Str, codes}
use master_all_strings.Prelude.Json.{
  Json, number, text, array, dumps, IsScalar, AllScalar, AllScalarItems, dumps-injective,
  dumps-heads,
}
use master_all_strings.Events.{MusicalEvent}
use master_all_strings.Score.Errors.{require_identifier}
use master_all_strings.Prelude.Sort.{sort, All-sort}
use master_all_strings.Score.Canonicalize.{
  event_order, canonicalize_events, canonicalize_tempo_changes, canonicalize_meter_changes,
}
use master_all_strings.Score.Tempo.{TempoChange}
use master_all_strings.Score.Meter.{MeterChange}
use master_all_strings.Score.Digest.{
  Hashing, optional, event_row, tempo_row, meter_row, rows, Content, payload, canonical,
  serialize_revision_content,
}

-- `repr` of a finite float is read back as that float, the sign of a zero included, so that no two have
-- the same; and it is ASCII.
pub record ReprLaws (h : Hashing) : Type 0 where
  pub apart : (x y : Float) → IsFinite x → IsFinite y → h.repr_float x ≡ h.repr_float y → x ≡ y
  pub plain : (x : Float) → IsFinite x → All IsScalar (h.repr_float x)

abbrev pub IsPlainOptional : Option Str → Type 0
IsPlainOptional none = Unit
IsPlainOptional (some value) = All IsScalar value

-- The texts of an event hold no surrogates, and its offset is finite, as the constructor wants it.
abbrev pub IsPlainEvent : MusicalEvent → Type 0
IsPlainEvent e = All IsScalar e.event_id × IsPlainOptional e.voice_id × IsFinite e.cents_offset

-- The texts of the content hold no surrogates, and its events have finite offsets.
pub record IsPlain (c : Content) : Type 0 where
  pub document_id : All IsScalar c.document_id
  pub parent : IsPlainOptional c.parent_revision_id
  pub events : All IsPlainEvent c.events

optional-injective : (x y : Option Str) → optional x ≡ optional y → x ≡ y
optional-injective none none e = refl
optional-injective none (some y) e = cc
optional-injective (some x) none e = cc
optional-injective (some x) (some y) e = cc

All-intro {ℓ} : {A : Type ℓ} (xs : List A) → All (λ x. Unit {0}) xs
All-intro [] = tt
All-intro (x ∷ xs) = (tt, All-intro xs)

rows-injective {ℓ} :
    {A : Type ℓ} (row : A → Json) (P : A → Type 0)
    → ((x y : A) → P x → P y → row x ≡ row y → x ≡ y)
    → (xs ys : List A) → All P xs
    → All P ys
    → rows row xs ≡ rows row ys
    → xs ≡ ys
unfolding rows
rows-injective row P inj [] [] hx hy e = refl
rows-injective row P inj [] (y ∷ ys) hx hy e = cc
rows-injective row P inj (x ∷ xs) [] hx hy e = cc
rows-injective row P inj (x ∷ xs) (y ∷ ys) hx hy e =
    let head = inj x y hx.0 hy.0 (cc) in
    let tail = rows-injective row P inj xs ys hx.1 hy.1 (cc) in cc

tempo_row-injective : (x y : TempoChange) → tempo_row x ≡ tempo_row y → x ≡ y
unfolding tempo_row
tempo_row-injective x y e = ground (arith, e)

meter_row-injective : (x y : MeterChange) → meter_row x ≡ meter_row y → x ≡ y
unfolding meter_row
meter_row-injective x y e = ground (arith, e)

canonical-ok :
    (c : Content) {o : Content}
    → canonical c ≡ ok o
    → (o.document_id ≡ c.document_id)
      × (o.parent_revision_id ≡ c.parent_revision_id)
      × (o.revision_number ≡ c.revision_number)
      × (o.ticks_per_quarter ≡ c.ticks_per_quarter)
      × (o.events ≡ sort event_order c.events)
unfolding canonical canonicalize_events canonicalize_tempo_changes canonicalize_meter_changes
canonical-ok c h = ground arith

canonical-IsPlain : (c : Content) {o : Content} → canonical c ≡ ok o → IsPlain c → IsPlain o
canonical-IsPlain c {o} h plain =
    let (id, parent, _, _, events) = canonical-ok c h in
    record {
      document_id = subst (All IsScalar) (sym id) plain.document_id;
      parent = subst IsPlainOptional (sym parent) plain.parent;
      events = subst (All _) (sym events) (All-sort event_order _ c.events plain.events);
    }

optional-AllScalar : (v : Option Str) → IsPlainOptional v → AllScalar (optional v)
optional-AllScalar none h = tt
optional-AllScalar (some v) h = h

rows-AllScalar {ℓ κ} :
    {A : Type ℓ} (row : A → Json) (P : A → Type κ)
    → ((x : A) → P x → AllScalar (row x))
    → (xs : List A) → All P xs
    → AllScalarItems (rows row xs)
unfolding rows
rows-AllScalar row P f [] h = tt
rows-AllScalar row P f (x ∷ xs) h = (f x h.0, rows-AllScalar row P f xs h.1)

module _ ⦃h : Hashing⦄ (laws : ReprLaws h) where
  event_row-injective :
      (x y : MusicalEvent) → IsPlainEvent x → IsPlainEvent y → event_row x ≡ event_row y → x ≡ y
  unfolding event_row
  event_row-injective x y hx hy e =
      let cents = laws.apart x.cents_offset y.cents_offset hx.2 hy.2 (cc) in
      let voice = optional-injective x.voice_id y.voice_id (cc) in ground (arith, e, cents, voice)

  payload-injective : (c d : Content) → IsPlain c → IsPlain d → payload c ≡ payload d → c ≡ d
  unfolding payload
  payload-injective c d pc pd e =
      let events =
        rows-injective event_row IsPlainEvent event_row-injective c.events d.events pc.events
          pd.events (cc) in
      let tempo =
        rows-injective tempo_row (λ x. Unit {0}) (λ x y hx hy. tempo_row-injective x y)
          c.tempo_changes d.tempo_changes (All-intro c.tempo_changes) (All-intro d.tempo_changes)
          (cc) in
      let meter =
        rows-injective meter_row (λ x. Unit {0}) (λ x y hx hy. meter_row-injective x y)
          c.meter_changes d.meter_changes (All-intro c.meter_changes) (All-intro d.meter_changes)
          (cc) in
      let parent = optional-injective c.parent_revision_id d.parent_revision_id (cc) in
      ground (arith, e, events, tempo, meter, parent)

  event_row-AllScalar : (e : MusicalEvent) → IsPlainEvent e → AllScalar (event_row e)
  unfolding event_row
  event_row-AllScalar e (id, voice, cents) = (
    id,
    (
      tt,
      (
        tt,
        (tt, (tt, (laws.plain e.cents_offset cents, (optional-AllScalar e.voice_id voice, tt)))),
      ),
    ),
  )

  payload-AllScalar : (c : Content) → IsPlain c → AllScalarItems (payload c)
  unfolding payload tempo_row meter_row
  payload-AllScalar c plain =
      let events = rows-AllScalar event_row _ event_row-AllScalar c.events plain.events in
      let tempo =
        rows-AllScalar tempo_row (λ x. Unit {0}) (λ x h. (tt, (tt, tt))) c.tempo_changes
          (All-intro c.tempo_changes) in
      let meter =
        rows-AllScalar meter_row (λ x. Unit {0}) (λ x h. (tt, (tt, (tt, tt)))) c.meter_changes
          (All-intro c.meter_changes) in
      let parent = optional-AllScalar c.parent_revision_id plain.parent in
      (
        (inl (omega arith), tt),
        (plain.document_id, (tt, (parent, (tt, (events, (tempo, (meter, tt))))))),
      )

  payload-dumps :
      (c d : Content)
      → IsPlain c
      → IsPlain d
      → dumps (array (payload c)) ≡ dumps (array (payload d))
      → c ≡ d
  payload-dumps c d pc pd e =
      payload-injective c d pc pd (
        dumps-injective (payload c) (payload d) (payload-AllScalar c pc) (payload-AllScalar d pd) e)

  -- When `repr` tells finite floats apart, the sign of a zero included, and writes no surrogates, then
  -- of two contents whose texts hold no surrogates, whose offsets are finite and that both serialize,
  -- the serializations are the same exactly when the canonical forms are: the same document, number,
  -- parent and grid, and the same events, tempo changes and meter changes in canonical order, where an
  -- offset of 0.0 and one of -0.0 are not the same.
  pub serialize_revision_content_iff :
      (c d : Content) {s t : Str}
      → IsPlain c
      → IsPlain d
      → serialize_revision_content c ≡ ok s
      → serialize_revision_content d ≡ ok t
      → (s ≡ t) ↔ (canonical c ≡ canonical d)
  unfolding serialize_revision_content
  serialize_revision_content_iff c d {s} {t} pc pd hs ht =
      let (_, _, cs) = >>=-eq-ok (require_identifier c.document_id "document_id") _ hs in
      let (_, _, ds) = >>=-eq-ok (require_identifier d.document_id "document_id") _ ht in
      let (oc, ec, vc) = >>=-eq-ok (canonical c) _ cs in
      let (od, ed, vd) = >>=-eq-ok (canonical d) _ ds in
      (
        λ same.
            let both =
              payload-dumps oc od (canonical-IsPlain c ec pc) (canonical-IsPlain d ed pd)
                (ok-injective vc ∙ same ∙ sym (ok-injective vd)) in
            cc,
        λ same.
            let both : oc ≡ od = ok-injective (sym ec ∙ same ∙ ed) in
            sym (ok-injective vc) ∙ ap (λ o. dumps (array (payload o))) both ∙ ok-injective vd,
      )

-- The serialization names the document and the number, whatever the content is.
pub serialize_revision_content-names :
    ⦃h : Hashing⦄ (c d : Content) {s : Str}
    → All IsScalar c.document_id
    → All IsScalar d.document_id
    → serialize_revision_content c ≡ ok s
    → serialize_revision_content d ≡ ok s
    → (c.document_id ≡ d.document_id) × (c.revision_number ≡ d.revision_number)
unfolding serialize_revision_content payload
serialize_revision_content-names c d pc pd hs ht =
    >>=-elim (require_identifier c.document_id "document_id") _ hs (λ _ _ cs.
      >>=-elim (require_identifier d.document_id "document_id") _ ht (λ _ _ ds.
        >>=-elim (canonical c) _ cs (λ oc ec vc. >>=-elim (canonical d) _ ds (λ od ed vd.
          let (ci, _, cn, _, _) = canonical-ok c ec in
          let (di, _, dn, _, _) = canonical-ok d ed in
          let (ids, numbers) =
            dumps-heads (text (codes "1")) (text oc.document_id) (text od.document_id)
              (number oc.revision_number) (number od.revision_number) _ _ (inl (omega arith), tt)
              (subst (All IsScalar) (sym ci) pc) (subst (All IsScalar) (sym di) pd) tt tt
              (ok-injective vc ∙ sym (ok-injective vd)) in
          (cc, cc)))))
