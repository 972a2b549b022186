-- ===== src/Verifier/Collect.antt =====
-- src/verifier.rs: the collection of the discharges into a map, which succeeds exactly when their
-- identifiers are pairwise different.
use macaroon.Prelude.{
  ◌+◌, ◌≡◌, ◌≢◌, refl, ap, ◌∙◌, inl, inr, false, List, [], ◌∷◌, ◌++◌, map, Bytes, bytes_eq,
  bytes_eq_refl, bytes_eq→eq, Bool-cases, All, arith, length, append-nil, append_assoc, subst,
}
use mathlib.Core.List.{Permᴰ, map-append}
use mathlib.Core.List.Permᴰ
use macaroon.Error.{ok}
use macaroon.Macaroon.{Macaroon}
use macaroon.Verifier.{DischargeSet, contains_key, insert, collect}

-- No two of the discharges have one identifier.
abbrev pub Distinct : List Macaroon → Type 0
Distinct [] = Unit {0}
Distinct (d ∷ ds) = All (λ e. d.identifier ≢ e.identifier) ds × Distinct ds

-- None of the discharges has its identifier among the keys of the map.
abbrev pub Fresh : DischargeSet → List Macaroon → Type 0
Fresh set = All (λ d. contains_key set d.identifier ≡ false)

pub ne→bytes_eq : (a b : Bytes) → a ≢ b → bytes_eq a b ≡ false
ne→bytes_eq a b h = elim (Bool-cases (bytes_eq a b)) [
  | inl same ↦ absurd (h (bytes_eq→eq a b same))
  | inr other ↦ other
]

Fresh-insert :
    (d : Macaroon) (set : DischargeSet) (ds : List Macaroon)
    → All (λ e. d.identifier ≢ e.identifier) ds
    → Fresh set ds
    → Fresh (insert set d.identifier d) ds
unfolding contains_key
Fresh-insert d set [] others fresh = tt
Fresh-insert d set (e ∷ ds) others fresh = (
  ground (arith, ne→bytes_eq d.identifier e.identifier others.0, fresh.0),
  Fresh-insert d set ds others.1 fresh.1,
)

-- An entry of the map: a discharge under its own identifier.
abbrev pub entry : Macaroon → Bytes × Macaroon
entry d = (d.identifier, d)

-- No two entries have one key.
abbrev pub KeysDiffer : DischargeSet → Type 0
KeysDiffer [] = Unit {0}
KeysDiffer (e ∷ es) = All (λ f. e.0 ≢ f.0) es × KeysDiffer es

pub collect-Distinct :
    (ds : List Macaroon) (set : DischargeSet)
    → Fresh set ds
    → Distinct ds
    → (left : DischargeSet) × (collect set ds ≡ ok left)
      × (length left ≡ length set + length ds)
      × Permᴰ left (map entry ds ++ set)
unfolding collect
collect-Distinct [] set fresh distinct = (set, refl, omega arith, Permᴰ.refl set)
collect-Distinct (d ∷ ds) set fresh distinct =
    let (left, gathered, size, order) =
      collect-Distinct ds (insert set d.identifier d) (Fresh-insert d set ds distinct.0 fresh.1)
        distinct.1 in
    (
      left,
      rw (fresh.0) gathered,
      omega arith,
      Permᴰ.trans order (Permᴰ.middle (entry d) (map entry ds) set),
    )

pub no_keys : (ds : List Macaroon) → Fresh [] ds
unfolding contains_key
no_keys [] = tt
no_keys (d ∷ ds) = (refl, no_keys ds)

All-ne :
    (i : Bytes) (ds : List Macaroon)
    → All (λ d. i ≢ d.identifier) ds
    → All (λ e. i ≢ e.0) (map entry ds)
All-ne i [] h = tt
All-ne i (d ∷ ds) h = (h.0, All-ne i ds h.1)

pub Distinct-KeysDiffer : (ds : List Macaroon) → Distinct ds → KeysDiffer (map entry ds)
Distinct-KeysDiffer [] h = tt
Distinct-KeysDiffer (d ∷ ds) h = (All-ne d.identifier ds h.0, Distinct-KeysDiffer ds h.1)

All-ne-inv :
    (i : Bytes) (ds : List Macaroon)
    → All (λ e. i ≢ e.0) (map entry ds)
    → All (λ d. i ≢ d.identifier) ds
All-ne-inv i [] h = tt
All-ne-inv i (d ∷ ds) h = (h.0, All-ne-inv i ds h.1)

pub KeysDiffer-Distinct : (ds : List Macaroon) → KeysDiffer (map entry ds) → Distinct ds
KeysDiffer-Distinct [] h = tt
KeysDiffer-Distinct (d ∷ ds) h = (All-ne-inv d.identifier ds h.0, KeysDiffer-Distinct ds h.1)

Fresh-insert-inv :
    (d : Macaroon) (set : DischargeSet) (ds : List Macaroon)
    → Fresh (insert set d.identifier d) ds
    → All (λ e. d.identifier ≢ e.identifier) ds × Fresh set ds
unfolding contains_key
Fresh-insert-inv d set [] h = (tt, tt)
Fresh-insert-inv d set (e ∷ ds) h =
    let rest = Fresh-insert-inv d set ds h.1 in
    elim (Bool-cases (bytes_eq d.identifier e.identifier)) [
      | inl same ↦ absurd (cc (rw same at (h.0)))
      | inr other ↦ (
        ((λ q. cc (rw (q, bytes_eq_refl e.identifier) at other)), rest.0),
        (rw other at (h.0), rest.1),
      )
    ]

-- A collection that succeeds has met no identifier twice.
pub collect-inv :
    (ds : List Macaroon) (set : DischargeSet) {left : DischargeSet}
    → collect set ds ≡ ok left
    → Fresh set ds × Distinct ds
unfolding collect
collect-inv [] set h = (tt, tt)
collect-inv (d ∷ ds) set h = elim (Bool-cases (contains_key set d.identifier)) [
  | inl twice ↦ absurd (cc (rw twice at h))
  | inr fresh ↦
      let (later, distinct) = collect-inv ds (insert set d.identifier d) (rw fresh at h) in
      let (others, old) = Fresh-insert-inv d set ds later in ((fresh, old), (others, distinct))
]

-- The map that pairwise different discharges are collected into.
pub collect-map-entry :
    (ds : List Macaroon)
    → Distinct ds
    → (set : DischargeSet) × (collect [] ds ≡ ok set) × Permᴰ set (map entry ds)
collect-map-entry ds distinct =
    let (set, gathered, size, order) = collect-Distinct ds [] (no_keys ds) distinct in
    (set, gathered, subst (Permᴰ set) (append-nil (map entry ds)) order)

pub entries-append :
    (below after : List Macaroon) (rest : DischargeSet)
    → map entry (below ++ after) ++ rest ≡ map entry below ++ (map entry after ++ rest)
entries-append below after rest =
    ap (λ t. t ++ rest) (map-append entry below after)
    ∙ append_assoc (map entry below) (map entry after) rest
