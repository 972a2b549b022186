-- ===== src/Examples/Formats.antt =====
-- Concrete functions in place of the packages base64 and serde_json, for which the laws hold.
use macaroon.Prelude.{
  ℕ, zero, suc, ◌+◌, ◌≤◌, ◌<◌, ◌≡◌, refl, ap, ◌∙◌, Bool, true, false, ◌&&◌, ◌↔◌, Bool-cases, inl,
  inr, subst, Option, none, some, List, [], ◌∷◌, ◌++◌, Bytes, length, take, drop, take-append,
  drop-append, All, ◌==◌, arith, if◌then◌else◌,
}
use macaroon.Utf8.{is_utf8, is_utf8-ascii}
use macaroon.Base64.{Engines, EngineLaws, Encodes}
use macaroon.Macaroon.Valid.{IsOptionalText}
use macaroon.V2Json.{JsonCaveat, Serialization, Json, JsonLaws, IsJsonCaveat, IsObject}
use macaroon.V2Json.Valid.{HasTexts, ReadsTexts}

-- A number as so many letters b and a letter a.
abbrev letters : ℕ → Bytes → Bytes
letters zero rest = 97 ∷ rest
letters (suc n) rest = 98 ∷ letters n rest

abbrev encode : Bytes → Bytes
encode [] = []
encode (b ∷ bs) = letters b (encode bs)

abbrev with_first : ℕ → Option Bytes → Option Bytes
with_first n none = none
with_first n (some bs) = some (n ∷ bs)

abbrev decode_from : ℕ → Bytes → Option Bytes
decode_from zero [] = some []
decode_from (suc n) [] = none
decode_from n (c ∷ cs) = if c == 98 then decode_from (suc n) cs else with_first n (decode_from 0 cs)

decode_letters :
    (n k : ℕ) (rest : Bytes)
    → decode_from k (letters n rest) ≡ with_first (k + n) (decode_from 0 rest)
decode_letters zero k rest =
    let e : k ≡ k + zero = omega arith in ap (λ (x : ℕ). with_first x (decode_from 0 rest)) e
decode_letters (suc n) k rest =
    let e : suc k + n ≡ k + suc n = omega arith in
    decode_letters n (suc k) rest ∙ ap (λ (x : ℕ). with_first x (decode_from 0 rest)) e

decode-encode : (bs : Bytes) → decode_from 0 (encode bs) ≡ some bs
decode-encode [] = refl
decode-encode (b ∷ bs) =
    let e : 0 + b ≡ b = omega arith in
    decode_letters b 0 (encode bs)
    ∙ ap (λ (o : Option Bytes). with_first (0 + b) o) (decode-encode bs)
    ∙ ap (λ (x : ℕ). some (x ∷ bs)) e

letters-Ascii :
    (n : ℕ) (rest : Bytes) → All (λ c. c < 128) rest → All (λ c. c < 128) (letters n rest)
letters-Ascii zero rest h = (omega arith, h)
letters-Ascii (suc n) rest h = (omega arith, letters-Ascii n rest h)

encode-Ascii : (bs : Bytes) → All (λ c. c < 128) (encode bs)
encode-Ascii [] = tt
encode-Ascii (b ∷ bs) = letters-Ascii b (encode bs) (encode-Ascii bs)

letters_nonempty : (n : ℕ) (rest : Bytes) → 0 < length (letters n rest)
letters_nonempty zero rest = omega arith
letters_nonempty (suc n) rest = omega arith

encode_nonempty : (bs : Bytes) → 0 < length bs → 0 < length (encode bs)
encode_nonempty [] h = h
encode_nonempty (b ∷ bs) h = letters_nonempty b (encode bs)

letters_braceless : (n : ℕ) (rest c : Bytes) (b : ℕ) → letters n rest ≡ b ∷ c → (b == 123) ≡ false
letters_braceless zero rest c b h = let e : 97 ≡ b = cc in ground arith
letters_braceless (suc n) rest c b h = let e : 98 ≡ b = cc in ground arith

braceless : (bs c : Bytes) (b : ℕ) → encode bs ≡ b ∷ c → (b == 123) ≡ false
braceless [] c b h = cc
braceless (x ∷ bs) c b h = letters_braceless x (encode bs) c b h

abbrev pub engines : Engines
engines = record {
  encode_url_safe = encode;
  encode_url_safe_no_pad = encode;
  decode_url_safe = decode_from 0;
  decode_standard = decode_from 0;
}

encode-Encodes : Encodes engines encode
encode-Encodes = record {
  decode_url_safe-encode = decode-encode;
  decode_standard-encode = λ b h. decode-encode b;
  encode-IsText = λ b. is_utf8-ascii (encode b) (encode-Ascii b);
  encode_braceless = braceless;
  encode_empty = refl;
  encode_nonempty = encode_nonempty;
}

pub engines-EngineLaws : EngineLaws engines
engines-EngineLaws = record { padded = encode-Encodes; unpadded = encode-Encodes }

-- An object as a list of numbers: each field with its length before it.
abbrev put : Option Bytes → Bytes → Bytes
put none rest = 0 ∷ rest
put (some b) rest = 1 ∷ length b ∷ (b ++ rest)

abbrev Parsed : Type 0 → Type 0
Parsed A = Option (A × Bytes)

infixl 5 ◌then◌
abbrev ◌then◌ : {A B : Type 0} → Parsed A → (A → Bytes → Parsed B) → Parsed B
none then k = none
some (a, rest) then k = k a rest

abbrev get : Bytes → Parsed (Option Bytes)
get [] = none
get (zero ∷ rest) = some (none, rest)
get (suc t ∷ []) = none
get (suc t ∷ n ∷ rest) = some (some (take n rest), drop n rest)

get-put : (o : Option Bytes) (rest : Bytes) → get (put o rest) ≡ some (o, rest)
get-put none rest = refl
get-put (some b) rest = rw (take-append b rest, drop-append b rest) refl

abbrev put_caveat : JsonCaveat → Bytes → Bytes
put_caveat c rest = put c.i (put c.i64 (put c.l (put c.l64 (put c.v (put c.v64 rest)))))

abbrev get_caveat : Bytes → Parsed JsonCaveat
get_caveat bs = get bs then λ i r₁. get r₁ then λ i64 r₂. get r₂ then λ l r₃. get r₃ then λ l64 r₄.
    get r₄ then λ v r₅.
    get r₅ then λ v64 r₆. some (record { i = i; i64 = i64; l = l; l64 = l64; v = v; v64 = v64 }, r₆)

get_caveat-put_caveat :
    (c : JsonCaveat) (rest : Bytes) → get_caveat (put_caveat c rest) ≡ some (c, rest)
get_caveat-put_caveat c rest = simp get-put refl

abbrev put_caveats : List JsonCaveat → Bytes → Bytes
put_caveats [] rest = 0 ∷ rest
put_caveats (c ∷ cs) rest = 1 ∷ put_caveat c (put_caveats cs rest)

-- With as many rounds as are allowed.
abbrev get_caveats : ℕ → Bytes → Parsed (List JsonCaveat)
get_caveats rounds [] = none
get_caveats rounds (zero ∷ rest) = some ([], rest)
get_caveats zero (suc t ∷ rest) = none
get_caveats (suc rounds) (suc t ∷ rest) =
    get_caveat rest then λ c r₁. get_caveats rounds r₁ then λ cs r₂. some (c ∷ cs, r₂)

get_caveats-put_caveats :
    (rounds : ℕ) (cs : List JsonCaveat) (rest : Bytes)
    → length cs ≤ rounds
    → get_caveats rounds (put_caveats cs rest) ≡ some (cs, rest)
get_caveats-put_caveats zero [] rest h = refl
get_caveats-put_caveats (suc rounds) [] rest h = refl
get_caveats-put_caveats zero (c ∷ cs) rest h = absurd (omega arith)
get_caveats-put_caveats (suc rounds) (c ∷ cs) rest h =
    rw (get_caveat-put_caveat c (put_caveats cs rest))
      (rw (get_caveats-put_caveats rounds cs rest (omega arith)) refl)

abbrev put_object : Serialization → Bytes
put_object o =
    o.v
    ∷ length o.c
    ∷ put o.i (put o.i64 (put o.l (put o.l64 (put o.s (put o.s64 (put_caveats o.c []))))))

abbrev finished : Parsed Serialization → Option Serialization
finished none = none
finished (some (o, rest)) = some o

abbrev get_object : Bytes → Option Serialization
get_object [] = none
get_object (v ∷ []) = none
get_object (v ∷ rounds ∷ bs) = finished (
    get bs then λ i r₁. get r₁ then λ i64 r₂. get r₂ then λ l r₃. get r₃ then λ l64 r₄.
    get r₄ then λ s r₅. get r₅ then λ s64 r₆. get_caveats rounds r₆ then λ c r₇.
    some (record { v = v; i = i; i64 = i64; l = l; l64 = l64; c = c; s = s; s64 = s64 }, r₇))

get_object-put_object : (o : Serialization) → get_object (put_object o) ≡ some o
get_object-put_object o =
    simp get-put (rw (get_caveats-put_caveats (length o.c) o.c [] (omega arith)) refl)

abbrev tail_of : Bytes → Bytes
tail_of [] = []
tail_of (b ∷ bs) = bs

abbrev is_text : Option Bytes → Bool
is_text none = true
is_text (some t) = is_utf8 t

abbrev are_texts : List JsonCaveat → Bool
are_texts [] = true
are_texts (c ∷ cs) = is_text c.l && are_texts cs

-- Locations that are no texts are refused.
abbrev with_texts : Option Serialization → Option Serialization
with_texts none = none
with_texts (some o) = if is_text o.l && are_texts o.c then some o else none

is_text_iff : (t : Option Bytes) → (is_text t ≡ true) ↔ IsOptionalText t
is_text_iff none = (λ h. tt, λ h. refl)
is_text_iff (some t) = (λ h. h, λ h. h)

are_texts_sound : (cs : List JsonCaveat) → are_texts cs ≡ true → All (λ c. IsOptionalText c.l) cs
are_texts_sound [] h = tt
are_texts_sound (c ∷ cs) h = ((is_text_iff c.l).0 (ground arith), are_texts_sound cs (ground arith))

are_texts_complete : (cs : List JsonCaveat) → All IsJsonCaveat cs → are_texts cs ≡ true
are_texts_complete [] h = refl
are_texts_complete (c ∷ cs) h = rw ((is_text_iff c.l).1 h.0.l, are_texts_complete cs h.1) refl

abbrev pub json : Json
json = record {
  to_string = λ o. some (123 ∷ put_object o);
  from_slice = λ text. with_texts (get_object (tail_of text));
}

with_texts-IsObject : (o : Serialization) → IsObject o → with_texts (some o) ≡ some o
with_texts-IsObject o h = rw ((is_text_iff o.l).1 h.l, are_texts_complete o.c h.c) refl

pub json-JsonLaws : JsonLaws json
json-JsonLaws o h =
    (put_object o, refl, ap with_texts (get_object-put_object o) ∙ with_texts-IsObject o h)

with_texts-HasTexts :
    (r : Option Serialization) (o : Serialization) → with_texts r ≡ some o → HasTexts o
with_texts-HasTexts none o h = absurd (cc h)
with_texts-HasTexts (some r) o h = elim (Bool-cases (is_text r.l && are_texts r.c)) [
  | inl texts ↦
      let e : r ≡ o = cc (rw texts at h) in
      subst HasTexts e ((is_text_iff r.l).0 (ground arith), are_texts_sound r.c (ground arith))
  | inr other ↦ absurd (cc (rw other at h))
]

pub json-ReadsTexts : ReadsTexts json
json-ReadsTexts text o h = with_texts-HasTexts (get_object (tail_of text)) o h
