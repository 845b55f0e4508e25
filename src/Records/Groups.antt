-- ===== src/Records/Groups.antt =====
-- What the parse of the custom records keeps (records.go, `NewCustomDNSRecordsFromText`).
use leng.Prelude.{
  ◌≡◌, refl, sym, ap, ◌∙◌, ◌≢◌, ◌↔◌, inl, inr, Bool, true, false, ◌&&◌, Option, none, some, List,
  [], ◌∷◌, ◌++◌, append-nil, append_assoc, arith, ltb, if◌then◌else◌, Option-cases, ◌==◌, eq_iff,
  Run-cases, returned≢panicked, Result, ok, err, returned, panicked, length, any, GoMap, lookup,
  lookup-put, Text, comparable_text,
}
use leng.Dns.{Rr}
use leng.Records
use leng.Records.{NewRr, CustomDnsRecords}

abbrev pub records_of : Text → GoMap Text (List Rr) → List Rr
records_of name m = elim (lookup name m) [ none ↦ [] | some rrs ↦ rrs ]

-- The record of a text if it is one of the name.
abbrev pub record_named : Text → Result Text (Option Rr) → List Rr
record_named name (err e) = []
record_named name (ok none) = []
record_named name (ok (some rr)) = if ltb 0 (length rr.name) && rr.name == name then rr ∷ [] else []

-- The records of the name, in the order of the texts.
unfoldable pub records_named : NewRr → Text → List Text → List Rr
records_named new_rr name [] = []
records_named new_rr name (text ∷ texts) =
    record_named name (new_rr text) ++ records_named new_rr name texts

-- Whether a text holds no record, as an empty one does.
abbrev pub is_blank : Result Text (Option Rr) → Bool
is_blank (ok none) = true
is_blank _ = false

append_record-records_of :
    (rr : Rr) (name : Text) (m : GoMap Text (List Rr))
    → records_of name (Records.append_record rr m)
      ≡ (if rr.name == name then records_of name m ++ rr ∷ [] else records_of name m)
unfolding Records.append_record
append_record-records_of rr name m = elim (Option-cases (lookup rr.name m)) [
  | inl new ↦
      rw (new, Records.append_record)
        (ground (arith, lookup-put rr.name name (rr ∷ []) m, eq_iff rr.name name))
  | inr (rrs, old) ↦
      rw (old, Records.append_record)
        (ground (arith, lookup-put rr.name name (rrs ++ rr ∷ []) m, eq_iff rr.name name))
]

add_parsed-records_of :
    (name : Text) (parsed : Result Text (Option Rr)) (m m' : GoMap Text (List Rr))
    → Records.add_parsed parsed m ≡ returned m'
    → records_of name m' ≡ records_of name m ++ record_named name parsed
unfolding Records.add_parsed
add_parsed-records_of name (err e) m m' h = ground (arith, append-nil (records_of name m))
add_parsed-records_of name (ok none) m m' h = cc
add_parsed-records_of name (ok (some rr)) m m' h =
    ground (arith, append-nil (records_of name m), append_record-records_of rr name m)

group_records-records_of :
    (new_rr : NewRr) (name : Text) (texts : List Text) (m m' : GoMap Text (List Rr))
    → Records.group_records new_rr texts m ≡ returned m'
    → records_of name m' ≡ records_of name m ++ records_named new_rr name texts
unfolding Records.group_records records_named
group_records-records_of new_rr name [] m m' h = ground (arith, append-nil (records_of name m))
group_records-records_of new_rr name (text ∷ texts) m m' h =
    elim (Run-cases (Records.add_parsed (new_rr text) m)) [
      | inl stop ↦ absurd (returned≢panicked (sym h ∙ rw (stop, Records.group_records) refl))
      | inr (m1, go) ↦
          group_records-records_of new_rr name texts m1 m' (rw (go, Records.group_records) at h)
          ∙ ap (λ l. l ++ records_named new_rr name texts)
              (add_parsed-records_of name (new_rr text) m m1 go)
          ∙ append_assoc (records_of name m) (record_named name (new_rr text))
              (records_named new_rr name texts)
    ]

-- The parse groups the records by name and loses none: under each name stand the records of the
-- texts that parse to that name, which is not empty, in the order of the texts; texts that do not
-- parse are skipped.
pub group_records_lem :
    (new_rr : NewRr) (name : Text) (texts : List Text) (m : GoMap Text (List Rr))
    → Records.group_records new_rr texts [] ≡ returned m
    → records_of name m ≡ records_named new_rr name texts
unfolding lookup
group_records_lem new_rr name texts m h = group_records-records_of new_rr name texts [] m h

add_parsed_blank :
    (parsed : Result Text (Option Rr)) (m : GoMap Text (List Rr))
    → (is_blank parsed ≡ true → Records.add_parsed parsed m ≡ panicked)
      × (is_blank parsed ≡ false → Records.add_parsed parsed m ≢ panicked)
unfolding Records.add_parsed
add_parsed_blank (err e) m = (λ h. cc, λ h k. cc)
add_parsed_blank (ok none) m = (λ h. refl, λ h k. cc)
add_parsed_blank (ok (some rr)) m = (λ h. cc, λ h k. cc)

group_records_blank :
    (new_rr : NewRr) (texts : List Text) (m : GoMap Text (List Rr))
    → (any (λ t. is_blank (new_rr t)) texts ≡ true
        → Records.group_records new_rr texts m ≡ panicked)
      × (Records.group_records new_rr texts m ≡ panicked
          → any (λ t. is_blank (new_rr t)) texts ≡ true)
unfolding Records.group_records
group_records_blank new_rr [] m = (λ h. cc, λ h. cc)
group_records_blank new_rr (text ∷ texts) m =
    elim (Run-cases (Records.add_parsed (new_rr text) m)) [
      | inl stop ↦ (
        λ h. rw (stop, Records.group_records) refl,
        λ h. ground (arith, (add_parsed_blank (new_rr text) m).1),
      )
      | inr (m1, go) ↦
          rw (go, Records.group_records)
            (
              λ h.
                  (group_records_blank new_rr texts m1).0
                    (ground (arith, (add_parsed_blank (new_rr text) m).0)),
              λ h. ground (arith, (group_records_blank new_rr texts m1).1),
            )
    ]

-- The parse panics exactly when some text holds no record at all, such as an empty one.
pub group_records_panics_iff :
    (new_rr : NewRr) (texts : List Text)
    → (Records.new_custom_dns_records_from_text new_rr texts ≡ panicked)
      ↔ (any (λ t. is_blank (new_rr t)) texts ≡ true)
unfolding Records.new_custom_dns_records_from_text
group_records_panics_iff new_rr texts = (
  λ h. (group_records_blank new_rr texts []).1 (ground arith),
  λ h. ground (arith, (group_records_blank new_rr texts []).0 h),
)
