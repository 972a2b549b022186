-- ===== src/V2Json/Spells.antt =====
-- src/serialization/v2json.rs: the spellings of a macaroon as a JSON object, those of other
-- libraries included, with no word on how they are read.
use macaroon.Prelude.{◌≡◌, ◌⊎◌, Option, none, some, List, [], ◌∷◌, Bytes}
use macaroon.Error.{ok}
use macaroon.Caveat
use macaroon.Caveat.{first_party, third_party}
use macaroon.Macaroon.{Macaroon}
use macaroon.Base64.{Engines, base64_decode_flexible}
use macaroon.V2Json.{JsonCaveat, Serialization}

module _ (e : Engines) where
  -- A field is spelled as it is, or in base64, in any of the alphabets that are read.
  abbrev pub Spells : Option Bytes → Option Bytes → Bytes → Type 0
  Spells plain encoded b =
      ((plain ≡ some b) × (encoded ≡ none))
      ⊎ ((plain ≡ none) × ((t : Bytes) × (encoded ≡ some t) × (base64_decode_flexible e t ≡ ok b)))

  abbrev pub SpellsLocation : Option Bytes → Option Bytes → Option Bytes → Type 0
  SpellsLocation plain encoded none = (plain ≡ none) × (encoded ≡ none)
  SpellsLocation plain encoded (some l) = Spells plain encoded l

  abbrev pub SpellsCaveat : JsonCaveat → Caveat.Caveat → Type 0
  SpellsCaveat c (first_party fp) =
      Spells c.i c.i64 fp.predicate × SpellsLocation c.l c.l64 none × (c.v ≡ none) × (c.v64 ≡ none)
  SpellsCaveat c (third_party tp) =
      Spells c.i c.i64 tp.id × Spells c.l c.l64 tp.location × Spells c.v c.v64 tp.verifier_id

  abbrev pub SpellsCaveats : List JsonCaveat → List Caveat.Caveat → Type 0
  SpellsCaveats [] [] = Unit {0}
  SpellsCaveats [] (c ∷ cs) = ⊥
  SpellsCaveats (j ∷ js) [] = ⊥
  SpellsCaveats (j ∷ js) (c ∷ cs) = SpellsCaveat j c × SpellsCaveats js cs

  -- Each field in a spelling of its own.
  pub record SpellsMacaroon (o : Serialization) (m : Macaroon) : Type 0 where
    pub version : o.v ≡ 2
    pub identifier : Spells o.i o.i64 m.identifier
    pub location : SpellsLocation o.l o.l64 m.location
    pub caveats : SpellsCaveats o.c m.caveats
    pub signature : Spells o.s o.s64 m.signature
