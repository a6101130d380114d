-- ===== src/Policy/Order.antt =====
-- The order of `self.policies` in policy/engine.py.
use linux_xai_security_assis.Base.{
  ◌≡◌, refl, true, false, List, [], ◌∷◌, All, All-map, arith, Bool-cases, inl, inr, Text,
}
use linux_xai_security_assis.Policy.{
  ℤ, pos, negsuc, PolicyRule, text_leb, int_leb, key_leb, insert, sorted,
}

pub text_leb_trans :
    (s t u : Text) → text_leb s t ≡ true → text_leb t u ≡ true → text_leb s u ≡ true
unfolding text_leb
text_leb_trans [] t u h g = refl
text_leb_trans (a ∷ s) [] u h g = cc
text_leb_trans (a ∷ s) (b ∷ t) [] h g = cc
text_leb_trans (a ∷ s) (b ∷ t) (c ∷ u) h g = ground (arith, text_leb_trans s t u)

pub text_leb_total : (s t : Text) → text_leb s t ≡ false → text_leb t s ≡ true
unfolding text_leb
text_leb_total [] t h = cc
text_leb_total (a ∷ s) [] h = refl
text_leb_total (a ∷ s) (b ∷ t) h = ground (arith, text_leb_total s t)

int_leb_trans : (x y z : ℤ) → int_leb x y ≡ true → int_leb y z ≡ true → int_leb x z ≡ true
unfolding int_leb
int_leb_trans (pos a) (pos b) (pos c) h g = ground arith
int_leb_trans (pos a) (pos b) (negsuc c) h g = cc
int_leb_trans (pos a) (negsuc b) z h g = cc
int_leb_trans (negsuc a) (pos b) (pos c) h g = refl
int_leb_trans (negsuc a) (pos b) (negsuc c) h g = cc
int_leb_trans (negsuc a) (negsuc b) (pos c) h g = refl
int_leb_trans (negsuc a) (negsuc b) (negsuc c) h g = ground arith

int_leb_total : (x y : ℤ) → int_leb x y ≡ false → int_leb y x ≡ true
unfolding int_leb
int_leb_total (pos a) (pos b) h = ground arith
int_leb_total (pos a) (negsuc b) h = refl
int_leb_total (negsuc a) (pos b) h = cc
int_leb_total (negsuc a) (negsuc b) h = ground arith

pub key_leb_trans :
    (p q r : PolicyRule) → key_leb p q ≡ true → key_leb q r ≡ true → key_leb p r ≡ true
unfolding key_leb
key_leb_trans p q r h g = ground (
  arith,
  int_leb_trans r.priority q.priority p.priority,
  int_leb_trans p.priority r.priority q.priority,
  int_leb_trans q.priority p.priority r.priority,
  text_leb_trans p.policy_id q.policy_id r.policy_id,
)

pub key_leb_total : (p q : PolicyRule) → key_leb p q ≡ false → key_leb q p ≡ true
unfolding key_leb
key_leb_total p q h = ground (
  arith,
  int_leb_total q.priority p.priority,
  int_leb_total p.priority q.priority,
  text_leb_total p.policy_id q.policy_id,
)

-- Every later policy's key is no smaller.
unfoldable pub IsSorted : List PolicyRule → Type 0
IsSorted [] = Unit
IsSorted (p ∷ ps) = All (λ q. key_leb p q ≡ true) ps × IsSorted ps

pub insert-All {ℓ} :
    (P : PolicyRule → Type ℓ) (p : PolicyRule) (ps : List PolicyRule)
    → P p
    → All P ps
    → All P (insert p ps)
unfolding insert
insert-All P p [] hp h = (hp, tt)
insert-All P p (q ∷ ps) hp h = elim (Bool-cases (key_leb p q)) [
  | inl first ↦ rw first (hp, h)
  | inr later ↦ rw later (h.0, insert-All P p ps hp h.1)
]

pub All-insert {ℓ} :
    (P : PolicyRule → Type ℓ) (p : PolicyRule) (ps : List PolicyRule)
    → All P (insert p ps)
    → P p × All P ps
unfolding insert
All-insert P p [] h = h
All-insert P p (q ∷ ps) h = elim (Bool-cases (key_leb p q)) [
  | inl first ↦ (rw first at h)
  | inr later ↦
      let there : P q × All P (insert p ps) = (rw later at h) in
      let (mine, rest) = All-insert P p ps there.1 in (mine, (there.0, rest))
]

insert-IsSorted : (p : PolicyRule) (ps : List PolicyRule) → IsSorted ps → IsSorted (insert p ps)
unfolding insert IsSorted
insert-IsSorted p [] h = (tt, tt)
insert-IsSorted p (q ∷ ps) h = elim (Bool-cases (key_leb p q)) [
  | inl first ↦ rw first ((first, All-map (λ r. key_leb_trans p q r first) ps h.0), h)
  | inr later ↦ rw later (
    insert-All (λ r. key_leb q r ≡ true) p ps (key_leb_total p q later) h.0,
    insert-IsSorted p ps h.1,
  )
]

pub sorted-IsSorted : (ps : List PolicyRule) → IsSorted (sorted ps)
unfolding sorted IsSorted
sorted-IsSorted [] = tt
sorted-IsSorted (p ∷ ps) = insert-IsSorted p (sorted ps) (sorted-IsSorted ps)

-- What holds of every sorted policy holds of every policy that was given.
pub All-sorted {ℓ} : (P : PolicyRule → Type ℓ) (ps : List PolicyRule) → All P (sorted ps) → All P ps
unfolding sorted
All-sorted P [] h = tt
All-sorted P (p ∷ ps) h =
    let (first, rest) = All-insert P p (sorted ps) h in (first, All-sorted P ps rest)
