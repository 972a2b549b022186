-- ===== src/Verifier/Tamper.antt =====
-- src/verifier.rs: a macaroon that is changed and keeps its signature.
use macaroon.Prelude.{◌≡◌, ◌≢◌, sym, ◌∙◌, inl, inr, List, map, All}
use macaroon.Error.{ok}
use macaroon.Crypto.{Primitives, Laws, MacaroonKey, zero_key, hmac2}
use macaroon.Macaroon.{Macaroon}
use macaroon.Macaroon.Signature.{chain, IsSigned}
use macaroon.Macaroon.Calls.{
  authenticated, calls, CollisionFree, KeepsRoot, IsNoPair, chain_injective,
}
use macaroon.Verifier.{Verifier, verify}
use macaroon.Verifier.Sound.{verify_sound}

-- By the laws of the primitives: a macaroon that carries the signature of another, which carries
-- that of its chain, passes only if it has the same identifier and the same caveats but for
-- locations, in the same order, whatever the discharges: provided that no call of HMAC for the one
-- collides with a different call for the other, that none of these calls gives the root key, that
-- the signature is not bound to itself, and that no predicate has 64 bytes (one of that length
-- could be the pair of digests that stands for a third-party caveat).
pub verify-tampered :
    (p : Primitives) (v : Verifier) (m n : Macaroon) (key : MacaroonKey) (ds : List Macaroon)
    → Laws p
    → IsSigned p key m
    → n.signature ≡ m.signature
    → All (IsNoPair p) m.caveats
    → All (IsNoPair p) n.caveats
    → KeepsRoot p key (calls p key m)
    → KeepsRoot p key (calls p key n)
    → CollisionFree p (calls p key m) (calls p key n)
    → hmac2 p zero_key n.signature (chain p key n) ≢ n.signature
    → verify p v n key ds ≡ ok tt
    → (m.identifier ≡ n.identifier) × (map authenticated m.caveats ≡ map authenticated n.caveats)
verify-tampered p v m n key ds laws signed kept nm nn rm rn free unbound passes =
    elim ((verify_sound p v ds n key passes).1) [
      | inl same ↦ chain_injective p laws key m n nm nn rm rn free (sym signed ∙ sym kept ∙ same)
      | inr bound ↦ absurd (unbound bound)
    ]
