-- ===== src/Verifier/Sets.antt =====
-- The discharge map: what collecting and removing keep.
use macaroon.Prelude.{
  ◌≡◌, refl, ap₂, ◌⊎◌, inl, inr, Option, none, some, List, [], ◌∷◌, Bytes, bytes_eq, bytes_eq→eq,
  Bool-cases, All, subst,
}
use macaroon.Error.{ok}
use macaroon.Macaroon.{Macaroon}
use macaroon.Verifier.{DischargeSet, contains_key, put_back, remove, collect}

-- The discharge stands in the list.
abbrev pub In : Macaroon → List Macaroon → Type 0
In d [] = ⊥
In d (e ∷ ds) = (d ≡ e) ⊎ In d ds

put_back-inv :
    (entry : Bytes × Macaroon) (o : Option (Macaroon × DischargeSet)) {d : Macaroon}
    {rest : DischargeSet}
    → put_back entry o ≡ some (d, rest)
    → (rest' : DischargeSet) × (o ≡ some (d, rest')) × (entry ∷ rest' ≡ rest)
unfolding put_back
put_back-inv entry none h = cc
put_back-inv entry (some (e, rest')) h = (rest', cc, cc)

-- The two ways in which `remove` finds its value.
pub remove-inv :
    (i : Bytes) (e : Macaroon) (set : DischargeSet) (id : Bytes) {d : Macaroon}
    {rest : DischargeSet}
    → remove ((i, e) ∷ set) id ≡ some (d, rest)
    → ((i ≡ id) × (e ≡ d) × (set ≡ rest))
      ⊎ ((rest' : DischargeSet) × (remove set id ≡ some (d, rest')) × ((i, e) ∷ rest' ≡ rest))
remove-inv i e set id {d} {rest} h = elim (Bool-cases (bytes_eq i id)) [
  | inl same ↦
      let found : ◌≡◌ {A = Option (Macaroon × DischargeSet)} (some (e, set)) (some (d, rest)) =
        unfold remove in rw same at h in
      inl (bytes_eq→eq i id same, cc, cc)
  | inr other ↦ inr (put_back-inv (i, e) (remove set id) (unfold remove in rw other at h))
]

module _ (P : Bytes × Macaroon → Type 0) where
  -- A value that is removed stood in the map under its key, and the rest stood there too.
  pub remove-All :
      (set : DischargeSet) (id : Bytes) {d : Macaroon} {rest : DischargeSet}
      → remove set id ≡ some (d, rest)
      → All P set
      → P (id, d) × All P rest
  remove-All [] id h all = unfold remove in cc
  remove-All ((i, e) ∷ set) id {d} {rest} h all = elim (remove-inv i e set id h) [
    | inl (same, found, others) ↦
        (subst P (ap₂ (λ x y. (x, y)) same found) all.0, subst (All P) others all.1)
    | inr (rest', found, joined) ↦
        let (mine, others) = remove-All set id found all.1 in
        (mine, subst (All P) joined (all.0, others))
  ]

-- An entry of the map is one of the discharges given, under its own identifier.
abbrev pub From : List Macaroon → Bytes × Macaroon → Type 0
From ds entry = In entry.1 ds × (entry.0 ≡ entry.1.identifier)

pub collect-All :
    (P : Bytes × Macaroon → Type 0) (set : DischargeSet) (ds : List Macaroon) {left : DischargeSet}
    → collect set ds ≡ ok left
    → All P set
    → All (λ d. P (d.identifier, d)) ds
    → All P left
collect-All P set [] h all new = unfold collect in subst (All P) (cc) all
collect-All P set (d ∷ ds) {left} h all new = elim (Bool-cases (contains_key set d.identifier)) [
  | inl twice ↦ absurd (unfold collect in cc (rw twice at h))
  | inr fresh ↦
      collect-All P ((d.identifier, d) ∷ set) ds (unfold collect in rw fresh at h) (new.0, all)
        new.1
]

every :
    (all ds : List Macaroon)
    → ((d : Macaroon) → In d ds → In d all)
    → All (λ d. From all (d.identifier, d)) ds
every all [] sub = tt
every all (d ∷ ds) sub = ((sub d (inl refl), refl), every all ds (λ e i. sub e (inr i)))

pub collect-From :
    (ds : List Macaroon) {left : DischargeSet} → collect [] ds ≡ ok left → All (From ds) left
collect-From ds h = collect-All (From ds) [] ds h tt (every ds ds (λ d i. i))
