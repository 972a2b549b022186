-- ===== src/Verifier/Spec.antt =====
-- src/verifier.rs: what a verification promises, with no map, no walk and no error: a tree of
-- discharges that uses up all those given.
use macaroon.Prelude.{ℕ, zero, suc, ◌≡◌, true, List, [], ◌∷◌, ◌++◌}
use macaroon.Error.{ok}
use macaroon.Crypto.{Primitives, MacaroonKey, hmac, decrypt_key}
use macaroon.Caveat.{Caveat, first_party, third_party, sign}
use macaroon.Macaroon.{Macaroon}
use macaroon.Macaroon.Signature.{chain}
use macaroon.Verifier.{Verifier, satisfied}
use macaroon.Verifier.Sound.{SignatureHolds}

module _ (p : Primitives) (v : Verifier) where
  -- The caveats hold, each under the signature of what stands before it, and spend these
  -- discharges, in this order: a first-party predicate is satisfied and spends none; a third-party
  -- caveat opens to a key, and spends a discharge with its id and those that `P` says the discharge
  -- spends under that key.
  abbrev pub CaveatsSpend :
      (Macaroon → MacaroonKey → List Macaroon → Type 0)
      → MacaroonKey
      → List Caveat
      → List Macaroon
      → Type 0
  CaveatsSpend P sig [] used = used ≡ []
  CaveatsSpend P sig (first_party fp ∷ cs) used =
      (satisfied v fp.predicate ≡ true) × CaveatsSpend P (sign p (first_party fp) sig) cs used
  CaveatsSpend P sig (third_party tp ∷ cs) used =
      (key : MacaroonKey) × (d : Macaroon) × (below : List Macaroon) × (after : List Macaroon)
      × (decrypt_key p sig tp.verifier_id ≡ ok key)
      × (tp.id ≡ d.identifier)
      × P d key below
      × CaveatsSpend P (sign p (third_party tp) sig) cs after
      × (used ≡ d ∷ (below ++ after))

  -- A macaroon is authorized under a key by a tree of discharges of at most so many levels, its own
  -- included, which spends these discharges.
  abbrev pub Spends : MacaroonKey → ℕ → Macaroon → MacaroonKey → List Macaroon → Type 0
  Spends root zero m key used = ⊥
  Spends root (suc levels) m key used =
      CaveatsSpend (Spends root levels) (hmac p key m.identifier) m.caveats used
      × SignatureHolds p v [] root (chain p key m) m
