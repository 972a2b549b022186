-- ===== src/Macaroon/Calls.antt =====
-- The calls of HMAC that a chain of signatures makes, and that the chain tells apart whatever they
-- tell apart.
use macaroon.Prelude.{
  ◌≡◌, ◌≢◌, refl, sym, ap, ap₂, ◌∙◌, List, [], ◌∷◌, ◌++◌, map, Bytes, length, take, drop,
  take-append, drop-append, length-append, All, All-append, All-append-inv, arith, subst,
}
use mathlib.Core.List.{reverse, reverse-cons, reverse-reverse, map-append}
use macaroon.Crypto.{Primitives, Laws, MacaroonKey, hmac, hmac2}
use macaroon.Crypto.Boxes.{hmac-IsKey}
use macaroon.Caveat.{Caveat, first_party, third_party, sign}
use macaroon.Macaroon.{Macaroon}
use macaroon.Macaroon.Signature.{chain, chain_from}

-- What a signature authenticates of a caveat: not the location.
pub data Authenticated : Type 0 where
  predicate : Bytes → Authenticated
  sealed : Bytes → Bytes → Authenticated

abbrev pub authenticated : Caveat → Authenticated
authenticated (first_party fp) = predicate fp.predicate
authenticated (third_party tp) = sealed tp.verifier_id tp.id

-- A call of HMAC: its key and its text.
abbrev pub Call : Type 0
Call = Bytes × Bytes

module _ (p : Primitives) where
  abbrev pub mac : Call → Bytes
  mac c = hmac p c.0 c.1

  -- The signature behind caveats that are listed from the last to the first.
  abbrev pub last_first : MacaroonKey → List Caveat → MacaroonKey
  last_first sig [] = sig
  last_first sig (c ∷ cs) = sign p c (last_first sig cs)

  -- The call that gives the signature of a caveat, and the calls that it builds on.
  abbrev pub last_call : Caveat → MacaroonKey → Call
  last_call (first_party fp) sig = (sig, fp.predicate)
  last_call (third_party tp) sig = (sig, hmac p sig tp.verifier_id ++ hmac p sig tp.id)

  abbrev pub inner_calls : Caveat → MacaroonKey → List Call
  inner_calls (first_party fp) sig = []
  inner_calls (third_party tp) sig = (sig, tp.verifier_id) ∷ (sig, tp.id) ∷ []

  abbrev pub sign_calls : Caveat → MacaroonKey → List Call
  sign_calls c sig = last_call c sig ∷ inner_calls c sig

  abbrev pub calls_from : MacaroonKey → Bytes → List Caveat → List Call
  calls_from key id [] = (key, id) ∷ []
  calls_from key id (c ∷ cs) = sign_calls c (last_first (hmac p key id) cs) ++ calls_from key id cs

  -- All the calls that make up the chain of a macaroon under a root key.
  abbrev pub calls : MacaroonKey → Macaroon → List Call
  calls key m = calls_from key m.identifier (reverse m.caveats)

  -- Two calls, one of each list, that give the same digest are the same.
  abbrev pub CollisionFree : List Call → List Call → Type 0
  CollisionFree xs ys = All (λ x. All (λ y. mac x ≡ mac y → x ≡ y) ys) xs

  -- The root key is no digest of these calls.
  abbrev pub KeepsRoot : MacaroonKey → List Call → Type 0
  KeepsRoot key = All (λ c. mac c ≢ key)

  -- A digest pair has 64 bytes; a predicate of that length could stand for one.
  abbrev pub IsNoPair : Caveat → Type 0
  IsNoPair (first_party fp) = length fp.predicate ≢ 64
  IsNoPair (third_party tp) = Unit {0}

  last_first-snoc :
      (sig : MacaroonKey) (cs : List Caveat) (c : Caveat)
      → last_first sig (cs ++ (c ∷ [])) ≡ last_first (sign p c sig) cs
  last_first-snoc sig [] c = refl
  last_first-snoc sig (d ∷ cs) c = ap (sign p d) (last_first-snoc sig cs c)

  pub chain_from-reverse :
      (sig : MacaroonKey) (cs : List Caveat) → chain_from p sig cs ≡ last_first sig (reverse cs)
  chain_from-reverse sig [] = refl
  chain_from-reverse sig (c ∷ cs) =
      chain_from-reverse (sign p c sig) cs
      ∙ sym (last_first-snoc sig (reverse cs) c)
      ∙ ap (last_first sig) (sym (reverse-cons c cs))

  sign-mac : (c : Caveat) (sig : MacaroonKey) → sign p c sig ≡ mac (last_call c sig)
  unfolding sign
  sign-mac (first_party fp) sig = refl
  sign-mac (third_party tp) sig = unfold hmac hmac2 in refl

  last_call-key : (c : Caveat) (sig : MacaroonKey) → (last_call c sig).0 ≡ sig
  last_call-key (first_party fp) sig = refl
  last_call-key (third_party tp) sig = refl

  CollisionFree-append-inv :
      (xs xs' ys ys' : List Call)
      → CollisionFree (xs ++ xs') (ys ++ ys')
      → CollisionFree xs ys × CollisionFree xs' ys'
  CollisionFree-append-inv [] [] ys ys' h = (tt, tt)
  CollisionFree-append-inv [] (x ∷ xs') ys ys' h =
      let (front, back) = CollisionFree-append-inv [] xs' ys ys' h.1 in
      (tt, ((All-append-inv _ ys ys' h.0).1, back))
  CollisionFree-append-inv (x ∷ xs) xs' ys ys' h =
      let (front, back) = CollisionFree-append-inv xs xs' ys ys' h.1 in
      (((All-append-inv _ ys ys' h.0).0, front), back)

  module _ (laws : Laws p) where
    -- Two pairs of digests are told apart by either.
    halves :
        (k l x y x' y' : Bytes)
        → hmac p k x ++ hmac p k y ≡ hmac p l x' ++ hmac p l y'
        → (hmac p k x ≡ hmac p l x') × (hmac p k y ≡ hmac p l y')
    halves k l x y x' y' e =
        let size = hmac-IsKey p laws k x in
        let size' = hmac-IsKey p laws l x' in
        (
          sym (take-append (hmac p k x) (hmac p k y))
              ∙ ap₂ take (size ∙ sym size') e
              ∙ take-append (hmac p l x') (hmac p l y'),
          sym (drop-append (hmac p k x) (hmac p k y))
              ∙ ap₂ drop (size ∙ sym size') e
              ∙ drop-append (hmac p l x') (hmac p l y'),
        )

    pair_length : (k x y : Bytes) → length (hmac p k x ++ hmac p k y) ≡ 64
    pair_length k x y = omega (
      arith,
      length-append (hmac p k x) (hmac p k y),
      hmac-IsKey p laws k x,
      hmac-IsKey p laws k y,
    )

    same_caveat :
        (c d : Caveat) (s t : MacaroonKey)
        → IsNoPair c
        → IsNoPair d
        → CollisionFree (sign_calls c s) (sign_calls d t)
        → sign p c s ≡ sign p d t
        → (s ≡ t) × (authenticated c ≡ authenticated d)
    same_caveat (first_party fp) (first_party fq) s t nc nd free e =
        let same : (s, fp.predicate) ≡ (t, fq.predicate) =
          free.0.0 (sym (sign-mac (first_party fp) s) ∙ e ∙ sign-mac (first_party fq) t) in
        (ap (λ x. x.0) same, ap (λ x. predicate x.1) same)
    same_caveat (first_party fp) (third_party tq) s t nc nd free e =
        let same = free.0.0 (sym (sign-mac (first_party fp) s) ∙ e ∙ sign-mac (third_party tq) t) in
        absurd (nc (ap (λ x. length x.1) same ∙ pair_length t tq.verifier_id tq.id))
    same_caveat (third_party tp) (first_party fq) s t nc nd free e =
        let same = free.0.0 (sym (sign-mac (third_party tp) s) ∙ e ∙ sign-mac (first_party fq) t) in
        absurd (nd (sym (ap (λ x. length x.1) same) ∙ pair_length s tp.verifier_id tp.id))
    same_caveat (third_party tp) (third_party tq) s t nc nd free e =
        let same = free.0.0 (sym (sign-mac (third_party tp) s) ∙ e ∙ sign-mac (third_party tq) t) in
        let (vids, ids) =
          halves s t tp.verifier_id tp.id tq.verifier_id tq.id (ap (λ x. x.1) same) in
        let vid = free.1.0.1.0 vids in
        let id = free.1.1.0.1.1.0 ids in
        (ap (λ x. x.0) same, ap₂ sealed (ap (λ x. x.1) vid) (ap (λ x. x.1) id))

    -- No signature of a chain is its root key.
    keeps_root :
        (key id : Bytes) (cs : List Caveat)
        → KeepsRoot key (calls_from key id cs)
        → last_first (hmac p key id) cs ≢ key
    keeps_root key id [] h e = h.0 e
    keeps_root key id (c ∷ cs) h e = h.0 (sym (sign-mac c (last_first (hmac p key id) cs)) ∙ e)

    same_chain :
        (key id id' : Bytes) (cs ds : List Caveat)
        → All IsNoPair cs
        → All IsNoPair ds
        → KeepsRoot key (calls_from key id cs)
        → KeepsRoot key (calls_from key id' ds)
        → CollisionFree (calls_from key id cs) (calls_from key id' ds)
        → last_first (hmac p key id) cs ≡ last_first (hmac p key id') ds
        → (id ≡ id') × (map authenticated cs ≡ map authenticated ds)
    same_chain key id id' [] [] nc nd rc rd free e = (ap (λ x. x.1) (free.0.0 e), refl)
    same_chain key id id' [] (d ∷ ds) nc nd rc rd free e =
        let σ = last_first (hmac p key id') ds in
        let same = free.0.0 (e ∙ sign-mac d σ) in
        absurd (
          keeps_root key id' ds (All-append-inv _ (sign_calls d σ) _ rd).1
            (sym (ap (λ x. x.0) same ∙ last_call-key d σ)))
    same_chain key id id' (c ∷ cs) [] nc nd rc rd free e =
        let σ = last_first (hmac p key id) cs in
        let same = free.0.0 (sym (sign-mac c σ) ∙ e) in
        absurd (
          keeps_root key id cs (All-append-inv _ (sign_calls c σ) _ rc).1
            (sym (last_call-key c σ) ∙ ap (λ x. x.0) same))
    same_chain key id id' (c ∷ cs) (d ∷ ds) nc nd rc rd free e =
        let σ = last_first (hmac p key id) cs in
        let τ = last_first (hmac p key id') ds in
        let (here, below) =
          CollisionFree-append-inv (sign_calls c σ) (calls_from key id cs) (sign_calls d τ)
            (calls_from key id' ds) free in
        let (sigs, caveat) = same_caveat c d σ τ nc.0 nd.0 here e in
        let (ids, caveats) =
          same_chain key id id' cs ds nc.1 nd.1 (All-append-inv _ (sign_calls c σ) _ rc).1
            (All-append-inv _ (sign_calls d τ) _ rd).1 below sigs in
        (ids, ap₂ (λ x y. x ∷ y) caveat caveats)

    All-reverse : (cs : List Caveat) → All IsNoPair cs → All IsNoPair (reverse cs)
    All-reverse [] h = tt
    All-reverse (c ∷ cs) h =
        subst (All IsNoPair) (sym (reverse-cons c cs))
          (All-append IsNoPair (reverse cs) (c ∷ []) (All-reverse cs h.1) (h.0, tt))

    map-reverse :
        (cs : List Caveat) → map authenticated (reverse cs) ≡ reverse (map authenticated cs)
    map-reverse [] = refl
    map-reverse (c ∷ cs) =
        ap (map authenticated) (reverse-cons c cs)
        ∙ map-append authenticated (reverse cs) (c ∷ [])
        ∙ ap (λ t. t ++ (authenticated c ∷ [])) (map-reverse cs)
        ∙ sym (reverse-cons (authenticated c) (map authenticated cs))

    unreversed :
        (cs ds : List Caveat)
        → map authenticated (reverse cs) ≡ map authenticated (reverse ds)
        → map authenticated cs ≡ map authenticated ds
    unreversed cs ds e =
        sym (reverse-reverse (map authenticated cs))
        ∙ ap reverse (sym (map-reverse cs) ∙ e ∙ map-reverse ds)
        ∙ reverse-reverse (map authenticated ds)

    -- Two macaroons with one chain have one identifier and authenticate the same caveats.
    pub chain_injective :
        (key : MacaroonKey) (m n : Macaroon)
        → All IsNoPair m.caveats
        → All IsNoPair n.caveats
        → KeepsRoot key (calls key m)
        → KeepsRoot key (calls key n)
        → CollisionFree (calls key m) (calls key n)
        → chain p key m ≡ chain p key n
        → (m.identifier ≡ n.identifier)
          × (map authenticated m.caveats ≡ map authenticated n.caveats)
    chain_injective key m n nm nn rm rn free e =
        let (ids, caveats) =
          same_chain key m.identifier n.identifier (reverse m.caveats) (reverse n.caveats)
            (All-reverse m.caveats nm) (All-reverse n.caveats nn) rm rn free
            (sym (chain_from-reverse (hmac p key m.identifier) m.caveats)
              ∙ e
              ∙ chain_from-reverse (hmac p key n.identifier) n.caveats) in
        (ids, unreversed m.caveats n.caveats caveats)
