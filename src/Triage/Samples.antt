-- ===== src/Triage/Samples.antt =====
-- The triage log of storage/sqlite_store.py at a few calls, and its theorems there.
use mathlib.Core.List.{Memᴰ}
use linux_xai_security_assis.Base.{
  ℕ, ◌≡◌, ◌⊎◌, ◌≢◌, refl, true, false, Option, none, some, List, [], ◌∷◌, keep, Text, codes,
  same_text,
}
use linux_xai_security_assis.Chain.Toy.{toy_sha256}
use linux_xai_security_assis.Triage.{
  Annotation, Stored, Refusal, unknown_action, refused, written, append, write_triage_annotation,
  read_triage_annotations, read_latest_triage_state, Entry, is_in, updated,
}
use linux_xai_security_assis.Triage.Latest.{
  lookup, summary, is_about, read_latest_triage_state-summary,
}
use linux_xai_security_assis.Triage.Writer.{
  IsAllowed, IsReason, cleaned, Recorded, write_triage_annotation-cases,
  write_triage_annotation-Recorded,
}

abbrev call : ℕ → Text → Option Text → Annotation
call id action disposition = record {
  finding_id = id;
  action = action;
  disposition = disposition;
  note = none;
  actor = some (codes "ana");
  created_at = codes "1.5";
}

abbrev stored : Annotation → Stored
stored a = record { annotation = a; chain_seq = none; chain_prev_hash = none; chain_hash = none }

-- Two dispositions of finding 4, of which the last one counts, and one of finding 7.
abbrev history : List Stored
history =
    stored (call 4 (codes "disposition") (some (codes "benign")))
    ∷ stored (call 7 (codes "suppress") none)
    ∷ stored (call 4 (codes "acknowledge") none)
    ∷ stored (call 4 (codes "disposition") (some (codes "true-positive")))
    ∷ stored (call 7 (codes "unsuppress") none)
    ∷ []

abbrev fourth : Entry
fourth = record {
  disposition = some (codes "true-positive");
  acknowledged = true;
  suppressed = false;
  annotation_count = 3;
}

fourth_runs : lookup 4 (read_latest_triage_state history) ≡ some fourth
unfolding read_latest_triage_state updated same_text
fourth_runs = refl

read_runs :
    read_triage_annotations history (some 7) 1 ≡ stored (call 7 (codes "suppress") none) ∷ []
unfolding read_triage_annotations
read_runs = refl

unknown_runs :
    write_triage_annotation toy_sha256 history (call 4 (codes "close") none)
    ≡ refused (unknown_action (codes "close"))
unfolding write_triage_annotation is_in same_text
unknown_runs = refl

read_latest_triage_state-summary_example :
    lookup 4 (read_latest_triage_state history) ≡ summary (keep (is_about 4) history)
read_latest_triage_state-summary_example = read_latest_triage_state-summary history 4

abbrev stray : Annotation
stray = call 4 (codes "acknowledge") (some (codes "benign"))

write_triage_annotation-cases_example :
    ((e : Refusal) × (write_triage_annotation toy_sha256 history stray ≡ refused e)
      × IsReason stray e)
    ⊎ (IsAllowed stray
        × (write_triage_annotation toy_sha256 history stray
            ≡ append toy_sha256 history (cleaned stray)))
write_triage_annotation-cases_example = write_triage_annotation-cases toy_sha256 history stray

abbrev again : Annotation
again = call 7 (codes "suppress") none

suppress_is_not_disposition : codes "suppress" ≢ codes "disposition"
suppress_is_not_disposition e = cc

again-IsAllowed : IsAllowed again
again-IsAllowed = (
  Memᴰ.tail (Memᴰ.tail (Memᴰ.tail (Memᴰ.head refl))),
  λ e. absurd (suppress_is_not_disposition e),
)

write_triage_annotation-Recorded_example :
    (s : Stored) × (after : List Stored) × (write_triage_annotation toy_sha256 history again
      ≡ written s after)
    × Recorded toy_sha256 (cleaned again) history after
write_triage_annotation-Recorded_example =
    write_triage_annotation-Recorded toy_sha256 history again again-IsAllowed
