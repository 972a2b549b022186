-- ===== src/Verifier/Removal.antt =====
-- src/verifier.rs: what `HashMap::remove` finds and leaves does not depend on the order of the map.
use macaroon.Prelude.{
  ◌≡◌, ◌≢◌, refl, sym, ap₂, ◌∙◌, inl, inr, Option, none, some, [], ◌∷◌, Bytes, bytes_eq,
  bytes_eq→eq, Bool-cases, All, subst,
}
use mathlib.Core.List.{Permᴰ}
use mathlib.Core.List.Permᴰ
use macaroon.Macaroon.{Macaroon}
use macaroon.Verifier.{DischargeSet, put_back, remove}
use macaroon.Verifier.Sets.{remove-inv}
use macaroon.Verifier.Collect.{KeysDiffer}

pub All-perm : (P : Bytes × Macaroon → Type 0) {s t : DischargeSet} → Permᴰ s t → All P s → All P t
All-perm P Permᴰ.nil h = tt
All-perm P (Permᴰ.cons e q) h = (subst P e (h.0), All-perm P q h.1)
All-perm P (Permᴰ.swap e f) h = (subst P f (h.1.0), (subst P e (h.0), h.1.1))
All-perm P (Permᴰ.trans q r) h = All-perm P r (All-perm P q h)

pub KeysDiffer-perm : {s t : DischargeSet} → Permᴰ s t → KeysDiffer s → KeysDiffer t
KeysDiffer-perm Permᴰ.nil h = tt
KeysDiffer-perm (Permᴰ.cons {b} {l₂} e q) h =
    (subst (λ x. All (λ f. x.0 ≢ f.0) l₂) e (All-perm _ q h.0), KeysDiffer-perm q h.1)
KeysDiffer-perm (Permᴰ.swap {a} {b} {a'} {b'} {l} e f) h =
    let turned : KeysDiffer (b ∷ a ∷ l) = (((λ q. h.0.0 (sym q)), h.1.0), (h.0.1, h.1.1)) in
    subst (λ x. KeysDiffer (x ∷ b' ∷ l)) f (subst (λ x. KeysDiffer (b ∷ x ∷ l)) e turned)
KeysDiffer-perm (Permᴰ.trans q r) h = KeysDiffer-perm r (KeysDiffer-perm q h)

-- What two removals have found is the same, and so is what they leave, but for its order.
abbrev pub Taken : Option (Macaroon × DischargeSet) → Option (Macaroon × DischargeSet) → Type 0
Taken none none = Unit {0}
Taken none (some t) = ⊥
Taken (some s) none = ⊥
Taken (some (d, s)) (some (e, t)) = (d ≡ e) × Permᴰ s t

Taken-refl : (o : Option (Macaroon × DischargeSet)) → Taken o o
Taken-refl none = tt
Taken-refl (some (d, s)) = (refl, Permᴰ.refl s)

Taken-trans :
    (o₁ o₂ o₃ : Option (Macaroon × DischargeSet)) → Taken o₁ o₂ → Taken o₂ o₃ → Taken o₁ o₃
Taken-trans none none none h k = tt
Taken-trans none none (some u) h k = absurd k
Taken-trans none (some t) o₃ h k = absurd h
Taken-trans (some s) none o₃ h k = absurd h
Taken-trans (some s) (some t) none h k = absurd k
Taken-trans (some (d, s)) (some (e, t)) (some (f, u)) h k = (h.0 ∙ k.0, Permᴰ.trans h.1 k.1)

put_back-Taken :
    (e : Bytes × Macaroon) (o₁ o₂ : Option (Macaroon × DischargeSet))
    → Taken o₁ o₂
    → Taken (put_back e o₁) (put_back e o₂)
unfolding put_back
put_back-Taken e none none h = tt
put_back-Taken e none (some t) h = absurd h
put_back-Taken e (some s) none h = absurd h
put_back-Taken e (some (d, s)) (some (f, t)) h = (h.0, Permᴰ.cons refl h.1)

put_back-put_back :
    (a b : Bytes × Macaroon) (o : Option (Macaroon × DischargeSet))
    → Taken (put_back a (put_back b o)) (put_back b (put_back a o))
unfolding put_back
put_back-put_back a b none = tt
put_back-put_back a b (some (d, s)) = (refl, Permᴰ.swap refl refl)

remove-swap :
    (a b : Bytes × Macaroon) (s : DischargeSet) (id : Bytes)
    → a.0 ≢ b.0
    → Taken (remove (a ∷ b ∷ s) id) (remove (b ∷ a ∷ s) id)
unfolding remove put_back
remove-swap a b s id differ = elim (Bool-cases (bytes_eq a.0 id)) [
  | inl x ↦ elim (Bool-cases (bytes_eq b.0 id)) [
    | inl y ↦ absurd (differ (bytes_eq→eq _ _ x ∙ sym (bytes_eq→eq _ _ y)))
    | inr y ↦ rw (x, y) (refl, Permᴰ.refl (b ∷ s))
  ]
  | inr x ↦ elim (Bool-cases (bytes_eq b.0 id)) [
    | inl y ↦ rw (x, y) (refl, Permᴰ.refl (a ∷ s))
    | inr y ↦ rw (x, y) (put_back-put_back a b (remove s id))
  ]
]

remove-cons :
    (a : Bytes × Macaroon) (s t : DischargeSet) (id : Bytes)
    → Permᴰ s t
    → Taken (remove s id) (remove t id)
    → Taken (remove (a ∷ s) id) (remove (a ∷ t) id)
unfolding remove
remove-cons a s t id q h = elim (Bool-cases (bytes_eq a.0 id)) [
  | inl x ↦ rw x (refl, q)
  | inr x ↦ rw x (put_back-Taken a (remove s id) (remove t id) h)
]

pub remove-Taken :
    (id : Bytes) {s t : DischargeSet} → Permᴰ s t → KeysDiffer s → Taken (remove s id) (remove t id)
unfolding remove
remove-Taken id Permᴰ.nil h = tt
remove-Taken id (Permᴰ.cons {a} {b} {l₁} {l₂} e q) h =
    subst (λ x. Taken (remove (a ∷ l₁) id) (remove (x ∷ l₂) id)) e
      (remove-cons a l₁ l₂ id q (remove-Taken id q h.1))
remove-Taken id (Permᴰ.swap {a} {b} {a'} {b'} {l} e f) h =
    subst (λ x. Taken (remove (a ∷ b ∷ l) id) (remove (x ∷ b' ∷ l) id)) f
      (subst (λ x. Taken (remove (a ∷ b ∷ l) id) (remove (b ∷ x ∷ l) id)) e
        (remove-swap a b l id h.0.0))
remove-Taken id (Permᴰ.trans {l₁} {l₂} {l₃} q r) h =
    Taken-trans (remove l₁ id) (remove l₂ id) (remove l₃ id) (remove-Taken id q h)
      (remove-Taken id r (KeysDiffer-perm q h))

-- A removal takes its entry out, and keeps the others.
pub remove-perm :
    (s : DischargeSet) (id : Bytes) {d : Macaroon} {rest : DischargeSet}
    → remove s id ≡ some (d, rest)
    → Permᴰ s ((id, d) ∷ rest)
remove-perm [] id h = absurd (unfold remove in cc h)
remove-perm ((i, e) ∷ s) id {d} {rest} h = elim (remove-inv i e s id h) [
  | inl (same, found, others) ↦
      subst (λ t. Permᴰ ((i, e) ∷ s) ((id, d) ∷ t)) others
        (Permᴰ.cons (ap₂ (λ x y. (x, y)) same found) (Permᴰ.refl s))
  | inr (rest', found, joined) ↦
      subst (λ t. Permᴰ ((i, e) ∷ s) ((id, d) ∷ t)) joined
        (Permᴰ.trans (Permᴰ.cons refl (remove-perm s id found)) (Permᴰ.swap refl refl))
]
