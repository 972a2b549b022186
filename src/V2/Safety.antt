-- ===== src/V2/Safety.antt =====
-- Aborts and fuel in `deserialize` of src/serialization/v2.rs.
use macaroon.Prelude.{ℕ, zero, suc, ◌+◌, ◌≤◌, ◌<◌, ap, not, Bytes, length, ◌==◌, arith}
use macaroon.Error.Safe.{runs, Safe, returns, fails, Safe-if, Safe-bind}
use macaroon.Utf8.{string_from_utf8-Safe}
use macaroon.CaveatBuilder
use macaroon.CaveatBuilder.{CaveatBuilder}
use macaroon.MacaroonBuilder
use macaroon.MacaroonBuilder.{MacaroonBuilder}
use macaroon.V2.Encode.{signature_tag}
use macaroon.V2.Reader.{Deserializer, new, is_exhausted}
use macaroon.V2.Decode.{
  read_first, read_identifier, read_caveat_first, read_caveat_id, read_caveat_end, read_caveat,
  read_caveats, read_signature, deserialize,
}
use macaroon.V2.Advance.{
  Ahead-trans, get_byte-Safe, get_byte-Ahead, get_eos-Safe, get_eos-Ahead, get_field-Safe,
}
use macaroon.V2.Progress.{read_caveat-Ahead, read_first-Ahead, read_identifier-Ahead}

read_first-Safe : (tag : ℕ) (b : MacaroonBuilder) (d : Deserializer) → Safe (read_first tag b d)
unfolding read_first
read_first-Safe tag b d = search (runs, get_field-Safe, string_from_utf8-Safe)

read_identifier-Safe : (b : MacaroonBuilder) (d : Deserializer) → Safe (read_identifier b d)
unfolding read_identifier
read_identifier-Safe b d = search (runs, get_byte-Safe, get_field-Safe)

read_caveat_first-Safe : (tag : ℕ) (d : Deserializer) → Safe (read_caveat_first tag d)
unfolding read_caveat_first
read_caveat_first-Safe tag d = search (runs, get_field-Safe, string_from_utf8-Safe)

read_caveat_id-Safe : (cb : CaveatBuilder) (d : Deserializer) → Safe (read_caveat_id cb d)
unfolding read_caveat_id
read_caveat_id-Safe cb d = search (runs, get_byte-Safe, get_field-Safe)

read_caveat_end-Safe :
    (tag : ℕ) (b : MacaroonBuilder) (cb : CaveatBuilder) (d : Deserializer)
    → Safe (read_caveat_end tag b cb d)
unfolding read_caveat_end
read_caveat_end-Safe tag b cb d =
    search
      (
        runs, get_field-Safe, CaveatBuilder.build-Safe, MacaroonBuilder.add_caveat-Safe,
        get_eos-Safe, get_byte-Safe,
      )
      depth 24

read_caveat-Safe : (tag : ℕ) (b : MacaroonBuilder) (d : Deserializer) → Safe (read_caveat tag b d)
unfolding read_caveat
read_caveat-Safe tag b d =
    search (runs, read_caveat_first-Safe, read_caveat_id-Safe, get_byte-Safe, read_caveat_end-Safe)

-- Each round takes a byte at least, so the fuel outlasts the token.
read_caveats-Safe :
    (fuel tag : ℕ) (b : MacaroonBuilder) (d : Deserializer)
    → d.index ≤ length d.bytes
    → length d.bytes < fuel + d.index
    → Safe (read_caveats fuel tag b d)
unfolding read_caveats
read_caveats-Safe fuel zero b d inside enough = returns _
read_caveats-Safe zero (suc tag) b d inside enough = absurd (omega arith)
read_caveats-Safe (suc fuel) (suc tag) b d inside enough =
    Safe-bind (read_caveat-Safe (suc tag) b d) (λ r h.
      let a = read_caveat-Ahead (suc tag) b d h in
      read_caveats-Safe fuel r.0 r.1 r.2 a.inside
        (omega (arith, a.further, ap length a.same_bytes)))

read_signature-Safe : (b : MacaroonBuilder) (d : Deserializer) → Safe (read_signature b d)
unfolding read_signature
read_signature-Safe b d = Safe-bind (get_byte-Safe d) (λ t _.
    Safe-if (not (t.0 == signature_tag)) (λ _. fails _)
      (λ _. Safe-bind (get_field-Safe t.1) (λ s _.
        Safe-if (not (length s.0 == 32)) (λ _. fails _)
          (λ sized. Safe-bind (MacaroonBuilder.set_signature-Safe b s.0 (ground arith)) (λ b' _.
            Safe-if (not (is_exhausted s.1)) (λ _. fails _)
              (λ _. MacaroonBuilder.build-Safe b'))))))

-- Whatever bytes it is given, `deserialize` returns a macaroon or an error: no index or range is
-- out of bounds, no copy has a wrong length, and its loops end.
pub deserialize-Safe : (token : Bytes) → Safe (deserialize token)
unfolding deserialize
deserialize-Safe token = Safe-bind (get_byte-Safe (new token)) (λ v read_v.
    Safe-if (not (v.0 == 2)) (λ _. fails _)
      (λ _. Safe-bind (get_byte-Safe v.1) (λ t read_t.
        Safe-bind (read_first-Safe t.0 MacaroonBuilder.new t.1) (λ f first.
          Safe-bind (read_identifier-Safe f.0 f.1) (λ i second.
            Safe-bind (get_eos-Safe i.1) (λ e marked. Safe-bind (get_byte-Safe e.1) (λ n read_n.
              let a₁ = read_first-Ahead t.0 MacaroonBuilder.new t.1 first in
              let a = Ahead-trans (get_byte-Ahead (new token) read_v) (
                Ahead-trans (get_byte-Ahead v.1 read_t) (
                  Ahead-trans a₁ (
                    Ahead-trans (read_identifier-Ahead f.0 f.1 a₁.inside second)
                      (Ahead-trans (get_eos-Ahead i.1 marked) (get_byte-Ahead e.1 read_n))))) in
              Safe-bind
                (read_caveats-Safe (length token) n.0 i.0 n.1 a.inside
                  (omega (arith, a.further, ap length a.same_bytes)))
                (λ r _. read_signature-Safe r.0 r.1))))))))
