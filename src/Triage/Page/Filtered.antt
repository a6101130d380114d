-- ===== src/Triage/Page/Filtered.antt =====
-- The filters of `read_detection_findings_page` in storage/sqlite_store.py, said without SQL.
use linux_xai_security_assis.Base.{
  ℕ, ◌≤◌, ◌≡◌, ◌≢◌, refl, sym, ap, ◌∙◌, ◌⊎◌, ◌↔◌, inl, inr, Bool, true, false, false≢true, Option,
  none, some, List, [], ◌∷◌, ◌++◌, all, ◌&&◌, leb, leb→le, arith, Bool-cases, Text, codes,
  same_text, same_text→eq, same_text_refl,
}
use linux_xai_security_assis.Triage.Page.{
  Enriched, Filters, clause, clauses, disposition_clause, same_flag, passes, is_null, equals,
}

-- What a filter asks, if it is given.
abbrev pub Asked : {A : Type 0} → Option A → (A → Type 0) → Type 0
Asked none P = Unit
Asked (some a) P = P a

-- "none" asks for a finding with no disposition.
abbrev pub HasDisposition : Text → Option Text → Type 0
HasDisposition wanted stored =
    (wanted ≡ codes "none") × (stored ≡ none) ⊎ ((wanted ≢ codes "none") × (stored ≡ some wanted))

abbrev pub IsWanted : Filters → Enriched → Type 0
IsWanted f e =
    Asked f.severity (λ t. e.finding.severity ≡ t)
    × (Asked f.entity_type (λ t. e.finding.entity_type ≡ t)
        × (Asked f.disposition (λ t. HasDisposition t e.triage_disposition)
            × (Asked f.acknowledged (λ b. e.triage_acknowledged ≡ b)
                × (Asked f.suppressed (λ b. e.triage_suppressed ≡ b)
                    × (Asked f.window_start (λ t. t ≤ e.finding.window_start)
                        × Asked f.window_end (λ t. e.finding.window_start ≤ t))))))

same_text_iff : (s t : Text) → (same_text s t ≡ true) ↔ (s ≡ t)
same_text_iff s t = (same_text→eq s t, λ e. rw e (same_text_refl t))

same_flag_iff : (b c : Bool) → (same_flag b c ≡ true) ↔ (c ≡ b)
same_flag_iff true c = ((λ h. h), λ h. h)
same_flag_iff false true = ((λ h. cc), λ h. cc)
same_flag_iff false false = ((λ h. refl), λ h. refl)

leb_iff : (a b : ℕ) → (leb a b ≡ true) ↔ (a ≤ b)
leb_iff a b = (leb→le a b, λ h. ground arith)

null_iff : (o : Option Text) → (is_null o ≡ true) ↔ (o ≡ none)
null_iff none = ((λ h. refl), λ h. refl)
null_iff (some t) = ((λ h. cc), λ h. cc)

equals_iff : (o : Option Text) (t : Text) → (equals o t ≡ true) ↔ (o ≡ some t)
equals_iff none t = ((λ h. cc), λ h. cc)
equals_iff (some s) t =
    ((λ h. ap some (same_text→eq s t h)), λ h. let e : s ≡ t = cc in rw e (same_text_refl t))

disposition_iff :
    (t : Text) (e : Enriched)
    → (disposition_clause t e ≡ true) ↔ HasDisposition t e.triage_disposition
unfolding disposition_clause
disposition_iff t e = elim (Bool-cases (same_text t (codes "none"))) [
  | inl null ↦
      let is : t ≡ codes "none" = same_text→eq t (codes "none") null in
      rw null (
        (λ h. inl (is, (null_iff e.triage_disposition).0 h)),
        λ h. elim h [
          | inl (i, empty) ↦ (null_iff e.triage_disposition).1 empty
          | inr (differs, i) ↦ absurd (differs is)
        ],
      )
  | inr named ↦
      let differs : t ≢ codes "none" =
        λ i. false≢true (sym named ∙ rw i (same_text_refl (codes "none"))) in
      rw named (
        (λ h. inr (differs, (equals_iff e.triage_disposition t).0 h)),
        λ h. elim h [
          | inl (is, empty) ↦ absurd (differs is)
          | inr (d, is) ↦ (equals_iff e.triage_disposition t).1 is
        ],
      )
]

and_true : (b : Bool) → (b && true) ≡ b
and_true true = refl
and_true false = refl

and_iff : (b c : Bool) → ((b && c) ≡ true) ↔ ((b ≡ true) × (c ≡ true))
and_iff true c = ((λ h. (refl, h)), λ h. h.1)
and_iff false c = ((λ h. absurd (false≢true h)), λ h. h.0)

all-append :
    {A : Type 0} (p : A → Bool) (xs ys : List A) → all p (xs ++ ys) ≡ (all p xs && all p ys)
all-append p [] ys = refl
all-append p (x ∷ xs) ys = elim (Bool-cases (p x)) [
  | inl taken ↦ rw taken (all-append p xs ys)
  | inr passed ↦ rw passed refl
]

module _ (e : Enriched) where
  abbrev Met : List (Enriched → Bool) → Type 0
  Met cs = all (λ (c : Enriched → Bool). c e) cs ≡ true

  -- The clauses say of the row what a type says.
  record Reads (cs : List (Enriched → Bool)) (P : Type 0) : Type 0 where
    reads : Met cs ↔ P

  clause-Reads :
      {A : Type 0} (o : Option A) (test : A → Enriched → Bool) (P : A → Type 0)
      → ((a : A) → (test a e ≡ true) ↔ P a)
      → Reads (clause o test) (Asked o P)
  clause-Reads none test P each = record { reads = ((λ h. tt), λ h. refl) }
  clause-Reads (some a) test P each = record { reads = rw (and_true (test a e)) (each a) }

  infixr 5 ◌also◌
  ◌also◌ :
      {cs ds : List (Enriched → Bool)} {P Q : Type 0}
      → Reads cs P
      → Reads ds Q
      → Reads (cs ++ ds) (P × Q)
  ◌also◌ {cs} {ds} h k =
      let both =
        and_iff (all (λ (c : Enriched → Bool). c e) cs) (all (λ (c : Enriched → Bool). c e) ds) in
      record {
        reads = rw (all-append (λ (c : Enriched → Bool). c e) cs ds) (
          (λ m. let (first, second) = both.0 m in (h.reads.0 first, k.reads.0 second)),
          λ m. both.1 (h.reads.1 m.0, k.reads.1 m.1),
        );
      }

  clauses-Reads : (f : Filters) → Reads (clauses f) (IsWanted f e)
  clauses-Reads f =
      clause-Reads f.severity _ _ (same_text_iff e.finding.severity)
      also clause-Reads f.entity_type _ _ (same_text_iff e.finding.entity_type)
      also clause-Reads f.disposition _ _ (λ t. disposition_iff t e)
      also clause-Reads f.acknowledged _ _ (λ b. same_flag_iff b e.triage_acknowledged)
      also clause-Reads f.suppressed _ _ (λ b. same_flag_iff b e.triage_suppressed)
      also clause-Reads f.window_start _ _ (λ t. leb_iff t e.finding.window_start)
      also clause-Reads f.window_end _ _ (leb_iff e.finding.window_start)

-- The query keeps exactly the rows that are wanted.
pub passes_iff : (f : Filters) (e : Enriched) → (passes f e ≡ true) ↔ IsWanted f e
unfolding passes
passes_iff f e = (clauses-Reads e f).reads
