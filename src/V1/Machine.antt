-- ===== src/V1/Machine.antt =====
-- The state machine of `deserialize` (src/serialization/v1.rs) on the packets of a macaroon.
use macaroon.Prelude.{
  ◌+◌, ◌≤◌, ◌≡◌, refl, sym, ap, ◌∙◌, Bool, true, false, Option, none, some, List, [], ◌∷◌, ◌++◌,
  append_assoc, append-nil, Bytes, bytes_eq, length, length-append, All, arith,
}
use macaroon.Error.{ok}
use macaroon.Utf8.{IsText, string_from_utf8-text}
use macaroon.Limits.{max_caveats}
use macaroon.Caveat.{Caveat, first_party, third_party}
use macaroon.CaveatBuilder
use macaroon.CaveatBuilder.{CaveatBuilder}
use macaroon.MacaroonBuilder.{MacaroonBuilder, pushed, add_caveat-ok, set_signature-ok}
use macaroon.Macaroon.{Macaroon}
use macaroon.Macaroon.Valid.{IsOptionalText}
use macaroon.V1.Encode.{location_key, identifier_key, signature_key, cid_key, vid_key, cl_key}
use macaroon.V1.Reader.{Packet}
use macaroon.V1.Decode.{
  State, initial, on_location, on_identifier, finish_caveat, on_signature, on_cid, on_vid, on_cl,
  handle, handle_all,
}

abbrev pub packet : Bytes → Bytes → Packet
packet key value = record { key = key; value = value }

abbrev pub caveat_packets : Caveat → List Packet
caveat_packets (first_party fp) = packet cid_key fp.predicate ∷ []
caveat_packets (third_party tp) =
    packet cid_key tp.id ∷ packet vid_key tp.verifier_id ∷ packet cl_key tp.location ∷ []

abbrev pub caveats_packets : List Caveat → List Packet
caveats_packets [] = []
caveats_packets (c ∷ cs) = caveat_packets c ++ caveats_packets cs

-- Locations of caveats are text.
abbrev pub HasText : Caveat → Type 0
HasText (first_party fp) = Unit {0}
HasText (third_party tp) = IsText tp.location

-- The caveat builder that a finished caveat leaves.
abbrev under_way : Option Caveat → CaveatBuilder
under_way none = CaveatBuilder.new
under_way (some (first_party fp)) = record {
  id = some fp.predicate;
  verifier_id = none;
  location = none;
}
under_way (some (third_party tp)) = record {
  id = some tp.id;
  verifier_id = some tp.verifier_id;
  location = some tp.location;
}

abbrev held : Option Caveat → List Caveat
held none = []
held (some c) = c ∷ []

module _ (located : Bool) where
  -- The machine behind the identifier, with a caveat under way.
  abbrev pub among_caveats : Bool → MacaroonBuilder → Option Caveat → State
  among_caveats signed b o = record {
    builder = b;
    caveat_builder = under_way o;
    seen_location = located;
    seen_identifier = true;
    seen_signature = signed;
  }

  finish_caveat-held :
      (signed : Bool) (b : MacaroonBuilder) (o : Option Caveat)
      → length b.caveats + length (held o) ≤ max_caveats
      → finish_caveat (among_caveats signed b o)
        ≡ ok (among_caveats signed (pushed b (held o)) none)
  unfolding finish_caveat CaveatBuilder.build CaveatBuilder.build_kind
  finish_caveat-held signed b none room =
      ap (λ cs. ok (among_caveats signed (record b { caveats = cs }) none))
        (sym (append-nil b.caveats))
  finish_caveat-held signed b (some (first_party fp)) room =
      rw (add_caveat-ok b (first_party fp) (omega arith)) refl
  finish_caveat-held signed b (some (third_party tp)) room =
      rw (add_caveat-ok b (third_party tp) (omega arith)) refl

  handle-cid :
      (b : MacaroonBuilder) (o : Option Caveat) (id : Bytes)
      → length b.caveats + length (held o) ≤ max_caveats
      → handle (among_caveats false b o) (packet cid_key id)
        ≡ ok (
            among_caveats false
              (pushed b (held o))
              (some (first_party (record { predicate = id }))))
  unfolding handle bytes_eq on_cid
  handle-cid b o id room = rw (finish_caveat-held false b o room) refl

  caveat_step :
      (b : MacaroonBuilder) (o : Option Caveat) (c : Caveat) (ps : List Packet)
      → HasText c
      → length b.caveats + length (held o) ≤ max_caveats
      → handle_all (among_caveats false b o) (caveat_packets c ++ ps)
        ≡ handle_all (among_caveats false (pushed b (held o)) (some c)) ps
  unfolding handle_all
  caveat_step b o (first_party fp) ps text room = rw (handle-cid b o fp.predicate room) refl
  caveat_step b o (third_party tp) ps text room =
      rw (handle-cid b o tp.id room)
        (unfold handle bytes_eq on_vid on_cl in rw (string_from_utf8-text tp.location text) refl)

  handle-signature :
      (b : MacaroonBuilder) (o : Option Caveat) (sig : Bytes)
      → length sig ≡ 32
      → length b.caveats + length (held o) ≤ max_caveats
      → handle (among_caveats false b o) (packet signature_key sig)
        ≡ ok (among_caveats true (record (pushed b (held o)) { signature = some sig }) none)
  unfolding handle bytes_eq on_signature
  handle-signature b o sig size room =
      rw (finish_caveat-held true b o room)
        (rw size (rw (set_signature-ok (pushed b (held o)) sig size) refl))

  -- The caveats and the signature, from any caveat under way.
  pub caveats-handled :
      (cs : List Caveat) (b : MacaroonBuilder) (o : Option Caveat) (sig : Bytes)
      → All HasText cs
      → length sig ≡ 32
      → length b.caveats + (length (held o) + length cs) ≤ max_caveats
      → handle_all (among_caveats false b o) (caveats_packets cs ++ (packet signature_key sig ∷ []))
        ≡ ok (among_caveats true (record (pushed b (held o ++ cs)) { signature = some sig }) none)
  unfolding handle_all
  caveats-handled [] b o sig text size room = rw (handle-signature b o sig size (omega arith)) (
      ap (λ cs. ok (among_caveats true (record (pushed b cs) { signature = some sig }) none))
        (sym (append-nil (held o))))
  caveats-handled (c ∷ cs) b o sig text size room =
      ap (handle_all (among_caveats false b o))
        (append_assoc (caveat_packets c) (caveats_packets cs) (packet signature_key sig ∷ []))
      ∙ caveat_step b o c (caveats_packets cs ++ (packet signature_key sig ∷ [])) text.0
          (omega arith)
      ∙ caveats-handled cs (pushed b (held o)) (some c) sig text.1 size
          (omega (arith, length-append b.caveats (held o)))
      ∙ ap (λ l. ok (among_caveats true (record b { caveats = l; signature = some sig }) none))
          (append_assoc b.caveats (held o) (c ∷ cs))

-- The builder behind the head of a token: a location, if there is one, and an identifier.
abbrev pub headed : Option Bytes → Bytes → MacaroonBuilder
headed location identifier = record {
  identifier = identifier;
  location = location;
  signature = none;
  caveats = [];
}

abbrev pub location_packets : Option Bytes → List Packet
location_packets none = []
location_packets (some location) = packet location_key location ∷ []

abbrev pub is_located : Option Bytes → Bool
is_located none = false
is_located (some location) = true

pub head-handled :
    (location : Option Bytes) (identifier : Bytes) (ps : List Packet)
    → IsOptionalText location
    → handle_all initial (location_packets location ++ (packet identifier_key identifier ∷ ps))
      ≡ handle_all (among_caveats (is_located location) false (headed location identifier) none) ps
unfolding handle_all handle bytes_eq on_location on_identifier
head-handled none identifier ps text = refl
head-handled (some location) identifier ps text = rw (string_from_utf8-text location text) refl

-- The packets of a macaroon.
abbrev pub token_packets : Macaroon → List Packet
token_packets m =
    location_packets m.location
    ++ (packet identifier_key m.identifier
        ∷ (caveats_packets m.caveats ++ (packet signature_key m.signature ∷ [])))

pub token-handled :
    (m : Macaroon)
    → IsOptionalText m.location
    → All HasText m.caveats
    → length m.signature ≡ 32
    → length m.caveats ≤ max_caveats
    → handle_all initial (token_packets m)
      ≡ ok (
          among_caveats
            (is_located m.location)
            true
            (record (pushed (headed m.location m.identifier) m.caveats) {
              signature = some m.signature;
            })
            none)
token-handled m located text size room =
    head-handled m.location m.identifier
      (caveats_packets m.caveats ++ (packet signature_key m.signature ∷ [])) located
    ∙ caveats-handled (is_located m.location) m.caveats (headed m.location m.identifier) none
        m.signature text size (omega arith)
