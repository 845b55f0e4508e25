-- ===== src/Tests/RecordsTests.antt =====
-- The custom records at concrete inputs. A text parses to an A record of that name, the empty text
-- to none.
use leng.Prelude.{
  ◌≡◌, refl, ◌≢◌, ◌↔◌, ◌⊎◌, true, none, some, List, [], ◌∷◌, arith, eq_iff, ok, returned, panicked,
  any, GoMap, lookup, has, put, delete, Text, bytes, text_beq, comparable_text, lower_byte,
  to_lower, text_ne,
}
use leng.Dns.{Rr, new_msg}
use leng.Records
use leng.Records.{NewRr, CustomDnsRecords}
use leng.Records.Groups.{records_named, is_blank, group_records_panics_iff}
use leng.Records.Resolve.{resolve_custom}
use leng.Tests.World.{
  test_dns, test_dns_laws, test_mux, test_mux_laws, an_rr, a_question, a_request, host,
}

abbrev new_rr : NewRr
new_rr [] = ok none
new_rr (c ∷ s) = ok (some (record an_rr { name = c ∷ s }))

program : Unit {0}
unfolding Records.group_records Records.add_parsed Records.append_record
    Records.new_custom_dns_records Records.new_custom_dns_records_from_text Records.register
    Records.new_custom_records_resolver Records.resolve Records.unless_refused Records.as_handler
    Records.write_msg records_named lookup has put delete to_lower lower_byte text_beq
program = tt

abbrev texts : List Text
texts = host ∷ bytes "b.test." ∷ host ∷ []

abbrev groups : GoMap Text (List Rr)
groups =
    (host, an_rr ∷ an_rr ∷ [])
    ∷ (bytes "b.test.", record an_rr { name = bytes "b.test." } ∷ [])
    ∷ []

group_records_panics_iff_example :
    (Records.new_custom_dns_records_from_text new_rr (host ∷ [] ∷ []) ≡ panicked)
    ↔ (any (λ t. is_blank (new_rr t)) (host ∷ [] ∷ []) ≡ true)
group_records_panics_iff_example = group_records_panics_iff new_rr (host ∷ [] ∷ [])

has_group : (a : Text) → has a groups ≡ true → (a ≡ host) ⊎ (a ≡ bytes "b.test.")
unfolding has
has_group a h = ground (arith, eq_iff host a, eq_iff (bytes "b.test.") a)

names_differ : to_lower host ≢ to_lower (bytes "b.test.")
unfolding program
names_differ = text_ne (to_lower host) (to_lower (bytes "b.test.")) refl

groups_apart :
    (a b : Text)
    → has a groups ≡ true
    → has b groups ≡ true
    → test_mux.canonical a ≡ test_mux.canonical b
    → a ≡ b
groups_apart a b ha hb e = grind (arith, has_group a ha, has_group b hb, names_differ)

resolve_custom_example :
    Records.resolve test_mux
      (Records.new_custom_records_resolver test_dns test_mux
        (Records.new_custom_dns_records groups))
      a_request
    ≡ returned (
        some (record (test_dns.set_reply new_msg a_request) {
          answer = records_named new_rr host texts;
        }))
unfolding program
resolve_custom_example =
    resolve_custom test_dns test_mux test_mux_laws test_dns_laws new_rr texts groups host a_request
      a_question [] refl (refl, (refl, tt)) groups_apart refl refl refl (omega arith)
