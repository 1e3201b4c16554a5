-- ===== src/Development/Promotion/Percept.antt =====
-- Which candidates are promoted, and the percept that a tick then takes.
use toy_brain.Prelude.{
  ℕ, Bool, Text, codes, ◌∷◌, [], ◌++◌, none, true, ◌≡◌, ◌↔◌, refl, all, arith, all-append, All,
  ◌&&◌,
}
use toy_brain.Prelude.Outcome.{ok}
use toy_brain.Development.Ids.{IsTable, printable_of_id, all-ascii, is_ascii}
use toy_brain.Kernel.Io.{PerceptEvent, percept_event, IsPercept, has_text}
use toy_brain.Development.Promotion.{
  Signature, signature_text, proto_content, require_printable_id, ProtoContent, proto_content_text,
  require_unit_fraction, can_promote_proto_content, default_state, promote_proto_content, pair_text,
}
use toy_brain.Fraction.{leq, whole}

module _ {printable is_space : ℕ → Bool} (t : IsTable printable is_space) where
  abbrev pub IsPrintable : Signature → Type 0
  IsPrintable s =
      All (λ (channel, value). (all printable channel ≡ true) × (all printable value ≡ true)) s

  -- two printable texts and an ASCII one between them
  all-between :
      (a mark b : Text)
      → all printable a ≡ true
      → all is_ascii mark ≡ true
      → all printable b ≡ true
      → all printable (a ++ mark ++ b) ≡ true
  all-between a mark b h k l =
      all-append printable (a ++ mark) b (all-append printable a mark h (all-ascii t mark k)) l

  all-signature_text : (s : Signature) → IsPrintable s → all printable (signature_text s) ≡ true
  unfolding signature_text
  all-signature_text [] h = refl
  all-signature_text ((channel, value) ∷ []) h =
      all-between channel (codes "=") value h.0.0 refl h.0.1
  all-signature_text ((channel, value) ∷ next ∷ rest) h =
      all-between (pair_text (channel, value)) (codes ", ") (signature_text (next ∷ rest))
        (all-between channel (codes "=") value h.0.0 refl h.0.1) refl
        (all-signature_text (next ∷ rest) h.1)

  all-proto_content_text :
      (c : ProtoContent)
      → all printable c.content_id ≡ true
      → IsPrintable c.signature
      → all printable (proto_content_text c) ≡ true
  unfolding proto_content_text
  all-proto_content_text c h k =
      all-between (codes "developmental content " ++ c.content_id) (codes ": ")
        (signature_text c.signature)
        (all-append printable (codes "developmental content ") c.content_id
          (all-ascii t (codes "developmental content ") refl) h)
        refl (all-signature_text c.signature k)

  has_text-proto_content_text : (c : ProtoContent) → has_text (proto_content_text c) ≡ true
  unfolding proto_content_text
  has_text-proto_content_text c = refl

  -- what the constructor has accepted
  abbrev pub IsAccepted : ProtoContent → Type 0
  IsAccepted c = proto_content printable is_space c ≡ ok c

  id_printable : (c : ProtoContent) → IsAccepted c → all printable c.content_id ≡ true
  unfolding proto_content require_printable_id
  id_printable c h = ground (arith, printable_of_id printable is_space c.content_id)

  stability_in_unit :
      (c : ProtoContent)
      → IsAccepted c
      → (leq (whole 0) c.stability && leq c.stability (whole 1)) ≡ true
  unfolding proto_content require_unit_fraction
  stability_in_unit c h = ground arith

  abbrev pub percept_of : ProtoContent → PerceptEvent
  percept_of c = record {
    content_id = c.content_id;
    text = proto_content_text c;
    content_state = default_state;
    initial_rho = c.stability;
  }

  -- Let the Unicode tables read ASCII as usual, and take a candidate that its constructor accepts
  -- and whose signature is printable. With the default state and value, promotion returns a percept
  -- exactly when `can_promote_proto_content` answers yes. The percept is the one with the
  -- identifier, the rendered signature and the stability of the candidate, and its fields are those
  -- that the kernel accepts.
  pub promote_proto_content_iff :
      (c : ProtoContent)
      → IsAccepted c
      → IsPrintable c.signature
      → (can_promote_proto_content c ≡ true) ↔ (
          (e : PerceptEvent) × (promote_proto_content printable c none none ≡ ok e)
          × (e ≡ percept_of c)
          × IsPercept e)
  unfolding can_promote_proto_content promote_proto_content percept_event require_unit_fraction
  promote_proto_content_iff c h k =
      let shown = all-proto_content_text c (id_printable c h) k in
      let given = has_text-proto_content_text c in
      let unit = stability_in_unit c h in
      (
        λ can. (percept_of c, ground (arith, shown, unit), refl, ground (arith, given, unit)),
        λ (e, made, same, taken). ground (arith, made),
      )
