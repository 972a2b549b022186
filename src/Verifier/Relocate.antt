-- ===== src/Verifier/Relocate.antt =====
-- src/verifier.rs: locations are hints, and verification does not look at them.
use macaroon.Prelude.{
  ℕ, zero, suc, ◌≡◌, refl, sym, ap, ◌∙◌, inl, inr, Bool-cases, Option, none, some, List, [], ◌∷◌,
  map, Bytes, bytes_eq,
}
use macaroon.Error.{
  Result, MacaroonError, ok, err, panic, out_of_fuel, ◌>>=◌, ok_or, caveat_not_satisfied,
}
use macaroon.Crypto.{Primitives, MacaroonKey, hmac, decrypt_key}
use macaroon.Caveat.{Caveat, first_party, third_party, new_third_party, sign}
use macaroon.Macaroon.{Macaroon}
use macaroon.Verifier.{
  Verifier, DischargeSet, Descend, satisfied, contains_key, put_back, remove, insert, collect,
  no_discharge, verify_caveats, check_signature, verify_with_sig, all_used, verify,
}

-- A result with its value, if it has one, changed.
abbrev in_result : {A B : Type 0} → (A → B) → Result A → Result B
in_result f (ok a) = ok (f a)
in_result f (err e) = err e
in_result f panic = panic
in_result f out_of_fuel = out_of_fuel

in_result-bind :
    {A B C D : Type 0} (f : A → B) (g : C → D) (x : Result A) {x' : Result B} (next : A → Result C)
    (next' : B → Result D)
    → x' ≡ in_result f x
    → ((a : A) → next' (f a) ≡ in_result g (next a))
    → (x' >>= next') ≡ in_result g (x >>= next)
in_result-bind f g (ok a) next next' e h = rw e (h a)
in_result-bind f g (err failure) next next' e h = rw e refl
in_result-bind f g panic next next' e h = rw e refl
in_result-bind f g out_of_fuel next next' e h = rw e refl

bind-in_result :
    {A C D : Type 0} (g : C → D) (x : Result A) (next : A → Result C) (next' : A → Result D)
    → ((a : A) → next' a ≡ in_result g (next a))
    → (x >>= next') ≡ in_result g (x >>= next)
bind-in_result g (ok a) next next' h = h a
bind-in_result g (err e) next next' h = refl
bind-in_result g panic next next' h = refl
bind-in_result g out_of_fuel next next' h = refl

in_result-id : (r : Result (Unit {0})) → in_result (λ (u : Unit {0}). u) r ≡ r
in_result-id (ok u) = refl
in_result-id (err e) = refl
in_result-id panic = refl
in_result-id out_of_fuel = refl

-- New locations for a macaroon and for its third-party caveats.
module _ (place : Option Bytes → Option Bytes) (hint : Bytes → Bytes) where
  abbrev pub relocate_caveat : Caveat → Caveat
  relocate_caveat (first_party fp) = first_party fp
  relocate_caveat (third_party tp) = new_third_party tp.id tp.verifier_id (hint tp.location)

  abbrev pub relocate : Macaroon → Macaroon
  relocate m = record m { location = place m.location; caveats = map relocate_caveat m.caveats }

  abbrev entries : DischargeSet → DischargeSet
  entries [] = []
  entries ((i, d) ∷ ds) = (i, relocate d) ∷ entries ds

  abbrev in_taken : Option (Macaroon × DischargeSet) → Option (Macaroon × DischargeSet)
  in_taken none = none
  in_taken (some (d, set)) = some (relocate d, entries set)

  abbrev taken : Macaroon × DischargeSet → Macaroon × DischargeSet
  taken (d, set) = (relocate d, entries set)

  ok_or-in_taken :
      (o : Option (Macaroon × DischargeSet)) (e : MacaroonError)
      → ok_or (in_taken o) e ≡ in_result taken (ok_or o e)
  ok_or-in_taken none e = refl
  ok_or-in_taken (some (d, set)) e = refl

  in_taken-put_back :
      (i : Bytes) (d : Macaroon) (o : Option (Macaroon × DischargeSet))
      → put_back (i, relocate d) (in_taken o) ≡ in_taken (put_back (i, d) o)
  unfolding put_back
  in_taken-put_back i d none = refl
  in_taken-put_back i d (some (e, set)) = refl

  remove-entries :
      (set : DischargeSet) (id : Bytes) → remove (entries set) id ≡ in_taken (remove set id)
  unfolding remove
  remove-entries [] id = refl
  remove-entries ((i, d) ∷ set) id = elim (Bool-cases (bytes_eq i id)) [
    | inl same ↦ rw same refl
    | inr other ↦ rw other (
        ap (put_back (i, relocate d)) (remove-entries set id)
        ∙ in_taken-put_back i d (remove set id))
  ]

  contains_key-entries :
      (set : DischargeSet) (id : Bytes) → contains_key (entries set) id ≡ contains_key set id
  unfolding contains_key
  contains_key-entries [] id = refl
  contains_key-entries ((i, d) ∷ set) id = rw (contains_key-entries set id) refl

  collect-entries :
      (set : DischargeSet) (ds : List Macaroon)
      → collect (entries set) (map relocate ds) ≡ in_result entries (collect set ds)
  unfolding collect
  collect-entries set [] = refl
  collect-entries set (d ∷ ds) = elim (Bool-cases (contains_key set d.identifier)) [
    | inl twice ↦ rw (contains_key-entries set d.identifier, twice) refl
    | inr fresh ↦
        rw (contains_key-entries set d.identifier, fresh)
          (collect-entries (insert set d.identifier d) ds)
  ]

  sign-relocate :
      (p : Primitives) (c : Caveat) (sig : MacaroonKey)
      → sign p (relocate_caveat c) sig ≡ sign p c sig
  unfolding sign
  sign-relocate p (first_party fp) sig = refl
  sign-relocate p (third_party tp) sig = refl

  module _ (p : Primitives) (v : Verifier) where
    abbrev Blind : Descend p → Type 0
    Blind descend =
        (d : Macaroon) (key : MacaroonKey) (set : DischargeSet)
        → descend (relocate d) key (entries set) ≡ in_result entries (descend d key set)

    abbrev reached : MacaroonKey × DischargeSet → MacaroonKey × DischargeSet
    reached (sig, set) = (sig, entries set)

    verify_caveats-relocate :
        (descend : Descend p)
        → Blind descend
        → (cs : List Caveat) (sig : MacaroonKey) (set : DischargeSet)
        → verify_caveats p v descend sig (map relocate_caveat cs) (entries set)
          ≡ in_result reached (verify_caveats p v descend sig cs set)
    unfolding verify_caveats
    verify_caveats-relocate descend blind [] sig set = refl
    verify_caveats-relocate descend blind (first_party fp ∷ cs) sig set =
        elim (Bool-cases (satisfied v fp.predicate)) [
          | inl holds ↦
              rw holds (verify_caveats-relocate descend blind cs (sign p (first_party fp) sig) set)
          | inr fails ↦ rw fails refl
        ]
    verify_caveats-relocate descend blind (third_party tp ∷ cs) sig set =
        bind-in_result reached (decrypt_key p sig tp.verifier_id) _ _ (λ key.
          in_result-bind taken reached
            (ok_or (remove set tp.id) (caveat_not_satisfied no_discharge)) _ _
            (ap (λ o. ok_or o (caveat_not_satisfied no_discharge)) (remove-entries set tp.id)
              ∙ ok_or-in_taken (remove set tp.id) (caveat_not_satisfied no_discharge))
            (λ (d, others).
              in_result-bind entries reached (descend d key others) _ _ (blind d key others)
                (λ left.
                  ap (λ s. verify_caveats p v descend s (map relocate_caveat cs) (entries left))
                    (sign-relocate p (third_party tp) sig)
                  ∙ verify_caveats-relocate descend blind cs (sign p (third_party tp) sig) left)))

    check_signature-relocate :
        (root sig : MacaroonKey) (m : Macaroon)
        → check_signature p root sig (relocate m) ≡ check_signature p root sig m
    unfolding check_signature
    check_signature-relocate root sig m = refl

    verify_with_sig-relocate :
        (root : MacaroonKey) (levels : ℕ) → Blind (verify_with_sig p v root levels)
    unfolding verify_with_sig
    verify_with_sig-relocate root zero d key set = refl
    verify_with_sig-relocate root (suc levels) d key set =
        in_result-bind reached entries
          (verify_caveats p v (verify_with_sig p v root levels) (hmac p key d.identifier) d.caveats
            set)
          _ _
          (verify_caveats-relocate (verify_with_sig p v root levels)
            (verify_with_sig-relocate root levels) d.caveats (hmac p key d.identifier) set)
          (λ (sig, left).
            rw (check_signature-relocate root sig d)
              (bind-in_result entries (check_signature p root sig d) _ _ (λ u. refl)))

    all_used-entries : (set : DischargeSet) → all_used (entries set) ≡ all_used set
    unfolding all_used
    all_used-entries [] = refl
    all_used-entries ((i, d) ∷ set) = refl

    -- Whatever locations a macaroon, its third-party caveats and its discharges are given, the
    -- outcome of the verification, the error included, is the same.
    pub verify-relocate :
        (m : Macaroon) (key : MacaroonKey) (ds : List Macaroon)
        → verify p v (relocate m) key (map relocate ds) ≡ verify p v m key ds
    unfolding verify
    verify-relocate m key ds =
        in_result-bind entries (λ (u : Unit {0}). u) (collect [] ds) _ _ (collect-entries [] ds)
          (λ set.
            in_result-bind entries (λ (u : Unit {0}). u)
              (verify_with_sig p v m.signature 33 m key set) _ _
              (verify_with_sig-relocate m.signature 33 m key set)
              (λ left. all_used-entries left ∙ sym (in_result-id (all_used left))))
        ∙ in_result-id (verify p v m key ds)
