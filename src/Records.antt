-- ===== src/Records.antt =====
-- The custom records of records.go: their texts are parsed into groups by name, each group is
-- registered with a `dns.ServeMux`, and a request is resolved by asking the mux with a writer that
-- only remembers the message. dns.NewRR and the mux are parameters; metrics are left out.
pub mod Groups
pub mod Resolve
use leng.Prelude.{
  Bool, Option, none, some, List, [], ◌∷◌, ◌++◌, ltb, nat_beq, if◌then◌else◌, Result, ok, err, Run,
  returned, panicked, length, GoMap, lookup, put, Text, comparable_text,
}
use leng.Dns.{Rr, Msg, DnsLib, rcode_refused, new_msg}

pub record CustomDnsRecords : Type 0 where
  pub name : Text
  pub answer : List Rr

-- dns.NewRR: an error, no record (for a text that holds none), or the first record.
abbrev pub NewRr : Type 0
NewRr = Text → Result Text (Option Rr)

-- customRecordsMap[name] = append(customRecordsMap[name], answer)
unfoldable pub append_record : Rr → GoMap Text (List Rr) → GoMap Text (List Rr)
append_record rr m = elim (lookup rr.name m) [
  | none ↦ put rr.name (rr ∷ []) m
  | some rrs ↦ put rr.name (rrs ++ rr ∷ []) m
]

-- The loop of `NewCustomDNSRecordsFromText`. Where a text holds no record, `answer` is nil and
-- `answer.Header()` panics.
-- What the loop does with a parsed text.
unfoldable pub add_parsed :
    Result Text (Option Rr) → GoMap Text (List Rr) → Run (GoMap Text (List Rr))
add_parsed (err e) m = returned m
add_parsed (ok none) m = panicked
add_parsed (ok (some rr)) m = returned (if ltb 0 (length rr.name) then append_record rr m else m)

unfoldable pub group_records : NewRr → List Text → GoMap Text (List Rr) → Run (GoMap Text (List Rr))
group_records new_rr [] m = returned m
group_records new_rr (text ∷ texts) m = elim (add_parsed (new_rr text) m) [
  | panicked ↦ panicked
  | returned m' ↦ group_records new_rr texts m'
]

-- `NewCustomDNSRecords`: one group for each name, in the order of the map's entries.
unfoldable pub new_custom_dns_records : GoMap Text (List Rr) → List CustomDnsRecords
new_custom_dns_records [] = []
new_custom_dns_records ((name, rrs) ∷ from) =
    record { name = name; answer = rrs } ∷ new_custom_dns_records from

unfoldable pub new_custom_dns_records_from_text : NewRr → List Text → Run (List CustomDnsRecords)
new_custom_dns_records_from_text new_rr texts = elim (group_records new_rr texts []) [
  | panicked ↦ panicked
  | returned m ↦ returned (new_custom_dns_records m)
]

-- `roResponseWriter`, without the addresses, which no handler of this program reads.
pub record RoResponseWriter : Type 0 where
  pub result : Option Msg

abbrev pub Handler : Type 0
Handler = RoResponseWriter → Msg → RoResponseWriter

-- `WriteMsg`, which `WriteReplyMsg` calls once.
unfoldable pub write_msg : RoResponseWriter → Msg → RoResponseWriter
write_msg w msg = record w { result = some msg }

-- dns.ServeMux. `registered` reads its table, `is_zone_of p n` says that the pattern p names a zone
-- in which the name n lies, and `canonical` is dns.CanonicalName.
pub record MuxLib (M : Type 0) : Type 0 where
  pub new_mux : M
  pub handle_func : Text → Handler → M → M
  pub serve_dns : M → RoResponseWriter → Msg → RoResponseWriter
  pub registered : M → Text → Option Handler
  pub canonical : Text → Text
  pub is_zone_of : Text → Text → Bool

module _ (d : DnsLib) where
  -- `asHandler`
  unfoldable pub as_handler : CustomDnsRecords → Handler
  as_handler records writer req =
      let m = d.set_reply new_msg req in
      write_msg writer (record m { answer = m.answer ++ records.answer })

  module _ {M : Type 0} (x : MuxLib M) where
    -- The loop of `NewCustomRecordsResolver`.
    unfoldable pub register : List CustomDnsRecords → M → M
    register [] mux = mux
    register (r ∷ records) mux = register records (x.handle_func r.name (as_handler r) mux)

    unfoldable pub new_custom_records_resolver : List CustomDnsRecords → M
    new_custom_records_resolver records = register records x.new_mux

-- What `Resolve` returns for the message that the writer holds. No message is a nil dereference.
unfoldable pub unless_refused : Option Msg → Run (Option Msg)
unless_refused none = panicked
unless_refused (some msg) = returned (if nat_beq msg.rcode rcode_refused then none else some msg)

unfoldable pub resolve : {M : Type 0} → MuxLib M → M → Msg → Run (Option Msg)
resolve x mux req = unless_refused (x.serve_dns mux (record { result = none }) req).result
