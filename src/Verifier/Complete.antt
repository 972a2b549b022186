-- ===== src/Verifier/Complete.antt =====
-- src/verifier.rs: verification accepts every tree of discharges that its specification allows.
use macaroon.Prelude.{ℕ, zero, suc, ◌≡◌, refl, some, List, [], ◌∷◌, ◌++◌, map, bytes_eq_refl}
use macaroon.Error.{ok}
use macaroon.Crypto.{Primitives, MacaroonKey, hmac}
use macaroon.Caveat.{Caveat, first_party, third_party, sign}
use macaroon.Macaroon.{Macaroon}
use macaroon.Macaroon.Signature.{chain, chain_from}
use macaroon.Verifier.{Verifier, DischargeSet, Descend, remove, verify_caveats, verify_with_sig}
use macaroon.Verifier.Local.{verify_with_sig-step}
use macaroon.Verifier.Collect.{entry, entries-append}
use macaroon.Verifier.Spec.{CaveatsSpend, Spends}

module _ (p : Primitives) (v : Verifier) where
  -- The discharges that a tree spends, put into a map in that order, are what the walk takes out.
  abbrev pub Takes : (Macaroon → MacaroonKey → List Macaroon → Type 0) → Descend p → Type 0
  Takes P descend =
      (d : Macaroon) (key : MacaroonKey) (used : List Macaroon) (rest : DischargeSet)
      → P d key used
      → descend d key (map entry used ++ rest) ≡ ok rest

  verify_caveats_complete :
      (P : Macaroon → MacaroonKey → List Macaroon → Type 0) (descend : Descend p)
      → Takes P descend
      → (cs : List Caveat) (sig : MacaroonKey) (used : List Macaroon) (rest : DischargeSet)
      → CaveatsSpend p v P sig cs used
      → verify_caveats p v descend sig cs (map entry used ++ rest) ≡ ok (chain_from p sig cs, rest)
  unfolding verify_caveats
  verify_caveats_complete P descend takes [] sig used rest h = rw h refl
  verify_caveats_complete P descend takes (first_party fp ∷ cs) sig used rest h =
      rw (h.0)
        (verify_caveats_complete P descend takes cs (sign p (first_party fp) sig) used rest h.1)
  verify_caveats_complete P descend takes (third_party tp ∷ cs) sig used rest
        (key, d, below, after, opened, named, under, later, all) =
      let taken : remove (entry d ∷ (map entry below ++ (map entry after ++ rest))) tp.id
          ≡ some (d, map entry below ++ (map entry after ++ rest)) =
        unfold remove in rw (named, bytes_eq_refl d.identifier) refl in
      rw
        (
          all,
          entries-append below after rest,
          opened,
          taken,
          takes d key below (map entry after ++ rest) under,
        )
        (verify_caveats_complete P descend takes cs (sign p (third_party tp) sig) after rest later)

  pub verify_with_sig_complete :
      (root : MacaroonKey) (levels : ℕ)
      → Takes (Spends p v root levels) (verify_with_sig p v root levels)
  verify_with_sig_complete root zero d key used rest h = absurd h
  verify_with_sig_complete root (suc levels) d key used rest (caveats, holds) =
      verify_with_sig-step p v root levels d key (chain p key d) (map entry used ++ rest) rest
        (verify_caveats_complete (Spends p v root levels) (verify_with_sig p v root levels)
          (verify_with_sig_complete root levels) d.caveats (hmac p key d.identifier) used rest
          caveats)
        holds
