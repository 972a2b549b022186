-- ===== src/Verifier/Monotone.antt =====
-- src/verifier.rs: a verifier that is told to accept more.
use macaroon.Prelude.{
  ℕ, zero, suc, ◌≡◌, Bool, true, ◌||◌, List, [], ◌∷◌, ◌++◌, Bytes, bytes_eq, bytes_eq→eq,
  Bool-cases, any, arith, inl, inr,
}
use macaroon.Error.{ok, >>=-eq-ok, ok_or}
use macaroon.Crypto.{Primitives, MacaroonKey, hmac, decrypt_key}
use macaroon.Caveat.{Caveat, first_party, third_party, sign}
use macaroon.Macaroon.{Macaroon}
use macaroon.Verifier.{
  Verifier, DischargeSet, Descend, satisfy_exact, satisfy_general, verify_general, satisfied,
  remove, collect, verify_caveats, verify_with_sig, verify,
}

-- The first verifier satisfies no predicate that the second does not.
abbrev pub Extends : Verifier → Verifier → Type 0
Extends v w = (predicate : Bytes) → satisfied v predicate ≡ true → satisfied w predicate ≡ true

any-snoc :
    (value : Bytes) (fs : List (Bytes → Bool)) (g : Bytes → Bool)
    → any (λ (f : Bytes → Bool). f value) (fs ++ (g ∷ []))
      ≡ (any (λ (f : Bytes → Bool). f value) fs || g value)
unfolding any
any-snoc value [] g = ground arith
any-snoc value (f ∷ fs) g = ground (arith, any-snoc value fs g)

exact_again :
    (v : Verifier) (b predicate : Bytes)
    → any (bytes_eq b) v.exact ≡ true
    → satisfied v predicate ≡ (satisfied v predicate || bytes_eq predicate b)
unfolding satisfied
exact_again v b predicate old = elim (Bool-cases (bytes_eq predicate b)) [
  | inl same ↦
      let e = bytes_eq→eq predicate b same in
      let held : any (bytes_eq predicate) v.exact ≡ true = rw e old in ground (arith, held)
  | inr other ↦ ground (arith, other)
]

or_swap : (a b c : Bool) → ((a || b) || c) ≡ ((b || c) || a)
or_swap a b c = ground arith

-- After `satisfy_exact` a verifier satisfies what it did before and the one predicate added, and
-- nothing else.
pub satisfied-satisfy_exact :
    (v : Verifier) (b predicate : Bytes)
    → satisfied (satisfy_exact v b) predicate ≡ (satisfied v predicate || bytes_eq predicate b)
satisfied-satisfy_exact v b predicate = elim (Bool-cases (any (bytes_eq b) v.exact)) [
  | inl old ↦ unfold satisfy_exact in rw old (exact_again v b predicate old)
  | inr new ↦
      unfold satisfy_exact satisfied any verify_general in
      rw new (
        or_swap (bytes_eq predicate b) (any (bytes_eq predicate) v.exact)
          (verify_general v predicate))
]

pub satisfied-satisfy_general :
    (v : Verifier) (f : Bytes → Bool) (predicate : Bytes)
    → satisfied (satisfy_general v f) predicate ≡ (satisfied v predicate || f predicate)
unfolding satisfied satisfy_general verify_general
satisfied-satisfy_general v f predicate = ground (arith, any-snoc predicate v.general f)

module _ (p : Primitives) (v w : Verifier) (more : Extends v w) where
  verify_caveats_mono :
      (d e : Descend p)
      → ((m : Macaroon) (key : MacaroonKey) (set left : DischargeSet)
          → d m key set ≡ ok left
          → e m key set ≡ ok left)
      → (cs : List Caveat) (sig : MacaroonKey) (set : DischargeSet) (r : MacaroonKey × DischargeSet)
      → verify_caveats p v d sig cs set ≡ ok r
      → verify_caveats p w e sig cs set ≡ ok r
  unfolding verify_caveats
  verify_caveats_mono d e step [] sig set r h = h
  verify_caveats_mono d e step (first_party fp ∷ cs) sig set r h =
      elim (Bool-cases (satisfied v fp.predicate)) [
        | inl holds ↦
            rw (more fp.predicate holds)
              (verify_caveats_mono d e step cs (sign p (first_party fp) sig) set r (rw holds at h))
        | inr fails ↦ absurd (cc (rw fails at h))
      ]
  verify_caveats_mono d e step (third_party tp ∷ cs) sig set r h =
      let (key, opened, h₁) = >>=-eq-ok (decrypt_key p sig tp.verifier_id) _ h in
      let ((dm, others), taken, h₂) = >>=-eq-ok (ok_or (remove set tp.id) _) _ h₁ in
      let (left, walked, h₃) = >>=-eq-ok (d dm key others) _ h₂ in
      rw (opened, taken, step dm key others left walked)
        (verify_caveats_mono d e step cs (sign p (third_party tp) sig) left r h₃)

  verify_with_sig_mono :
      (root : MacaroonKey) (levels : ℕ) (m : Macaroon) (key : MacaroonKey) (set left : DischargeSet)
      → verify_with_sig p v root levels m key set ≡ ok left
      → verify_with_sig p w root levels m key set ≡ ok left
  unfolding verify_with_sig
  verify_with_sig_mono root zero m key set left h = h
  verify_with_sig_mono root (suc levels) m key set left h =
      let (r, walked, h₁) =
        >>=-eq-ok
          (verify_caveats p v (verify_with_sig p v root levels) (hmac p key m.identifier) m.caveats
            set)
          _ h in
      rw
        (verify_caveats_mono (verify_with_sig p v root levels) (verify_with_sig p w root levels)
          (verify_with_sig_mono root levels) m.caveats (hmac p key m.identifier) set r walked)
        h₁

  -- A verifier that satisfies at least the predicates of another accepts every macaroon, with its
  -- key and its discharges, that the other accepts.
  pub verify_mono :
      (m : Macaroon) (key : MacaroonKey) (ds : List Macaroon)
      → verify p v m key ds ≡ ok tt
      → verify p w m key ds ≡ ok tt
  unfolding verify
  verify_mono m key ds h =
      let (set, gathered, h₁) = >>=-eq-ok (collect [] ds) _ h in
      let (left, walked, h₂) = >>=-eq-ok (verify_with_sig p v m.signature 33 m key set) _ h₁ in
      rw (gathered, verify_with_sig_mono m.signature 33 m key set left walked) h₂

Extends-satisfy_exact : (v : Verifier) (b : Bytes) → Extends v (satisfy_exact v b)
Extends-satisfy_exact v b predicate h = ground (arith, satisfied-satisfy_exact v b predicate)

Extends-satisfy_general : (v : Verifier) (f : Bytes → Bool) → Extends v (satisfy_general v f)
Extends-satisfy_general v f predicate h = ground (arith, satisfied-satisfy_general v f predicate)

-- What a verifier accepts, it still accepts after any further `satisfy_exact` or
-- `satisfy_general`.
pub verify-satisfy :
    (p : Primitives) (v : Verifier) (m : Macaroon) (key : MacaroonKey) (ds : List Macaroon)
    → verify p v m key ds ≡ ok tt
    → ((b : Bytes) → verify p (satisfy_exact v b) m key ds ≡ ok tt)
      × ((f : Bytes → Bool) → verify p (satisfy_general v f) m key ds ≡ ok tt)
verify-satisfy p v m key ds h = (
  λ b. verify_mono p v (satisfy_exact v b) (Extends-satisfy_exact v b) m key ds h,
  λ f. verify_mono p v (satisfy_general v f) (Extends-satisfy_general v f) m key ds h,
)
