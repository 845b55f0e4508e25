-- ===== src/Tests/World.antt =====
-- A small concrete package dns, mux and world, which meet the laws that the theorems assume.
use leng.Prelude.{
  refl, ap, ◌∙◌, Bool, true, false, Option, none, some, List, [], ◌∷◌, ◌++◌, nat_beq, if◌then◌else◌,
  ◌==◌, eq_refl, pos, Text, bytes, comparable_text, to_lower,
}
use leng.Dns.{Rr, Msg, Question, RData, DnsLib, DnsLaws, new_msg, class_inet, rcode_refused, type_a}
use leng.Config.{Config}
use leng.Records.{MuxLib, Handler, RoResponseWriter}
use leng.Records.Resolve.{MuxLaws}

abbrev reply_to : Msg → Msg → Msg
reply_to m req = record m {
  id = req.id;
  response = true;
  rcode = 0;
  question = elim req.question [ [] ↦ m.question | q ∷ qs ↦ q ∷ [] ];
}

abbrev dot_at_end : Text → Bool
dot_at_end [] = false
dot_at_end (c ∷ []) = nat_beq c b'.'
dot_at_end (c ∷ s) = dot_at_end s

abbrev rdata_text : RData → Text
rdata_text (RData.a ip) = ip
rdata_text (RData.aaaa ip) = ip
rdata_text (RData.cname t) = t
rdata_text (RData.other t) = t

abbrev pub test_dns : DnsLib
test_dns = record {
  set_reply = reply_to;
  set_rcode = λ m req r. record (reply_to m req) { rcode = r };
  set_question =
      λ m z t. record m { question = record { name = z; qtype = t; qclass = class_inet } ∷ [] };
  is_fqdn = dot_at_end;
  type_to_string = λ t. t ∷ [];
  class_to_string = λ t. t ∷ [];
  rr_string = λ rr. rr.name ++ rr.rrtype ∷ rdata_text rr.rdata;
}

pub test_dns_laws : DnsLaws test_dns
test_dns_laws = record {
  reply_id = λ m req. refl;
  reply_rcode = λ m req. refl;
  reply_answer = λ m req. refl;
  reply_question = λ m req q qs e. rw e refl;
  rcode_rcode = λ m req r. refl;
  rcode_answer = λ m req r. refl;
  rcode_id = λ m req r. refl;
  question_question = λ m z t. refl;
}

-- A mux as the list of its registrations, the last one first; a zone is a name.
abbrev find_handler : List (Text × Handler) → Text → Option Handler
find_handler [] z = none
find_handler ((p, h) ∷ m) z = if to_lower p == to_lower z then some h else find_handler m z

abbrev refused : Msg
refused = record new_msg { rcode = rcode_refused }

abbrev serve_by : Option Handler → RoResponseWriter → Msg → RoResponseWriter
serve_by none w req = record { result = some refused }
serve_by (some h) w req = h w req

abbrev handler_for : List (Text × Handler) → List Question → Option Handler
handler_for m [] = none
handler_for m (q ∷ qs) = find_handler m q.name

abbrev pub test_mux : MuxLib (List (Text × Handler))
test_mux = record {
  new_mux = [];
  handle_func = λ p h m. (p, h) ∷ m;
  serve_dns = λ m w req. serve_by (handler_for m req.question) w req;
  registered = find_handler;
  canonical = to_lower;
  is_zone_of = λ z n. to_lower z == to_lower n;
}

pub test_mux_laws : MuxLaws test_mux
test_mux_laws = record {
  registered-new_mux = λ z. refl;
  registered-handle_func = λ p z h m. refl;
  serve_exact = λ m w req q qs h e plain hit.
      ap (λ l. serve_by (handler_for m l) w req) e ∙ ap (λ o. serve_by o w req) hit;
  serve_unmatched = λ m w req q qs e none_found. (
    refused,
    ap (λ l. (serve_by (handler_for m l) w req).result) e
        ∙ ap (λ o. (serve_by o w req).result) (none_found q.name (eq_refl (to_lower q.name))),
    refl,
  );
  serve_no_question =
      λ m w req e. (refused, ap (λ l. (serve_by (handler_for m l) w req).result) e, refl);
}

-- Records and requests.
abbrev pub host : Text
host = bytes "a.test."

abbrev pub an_rr : Rr
an_rr = record {
  name = host;
  rrtype = type_a;
  class = class_inet;
  ttl = 10;
  rdata = RData.a (1 ∷ []);
}

abbrev pub a_question : Question
a_question = record { name = host; qtype = type_a; qclass = class_inet }

abbrev pub a_request : Msg
a_request = record new_msg { id = 7; question = a_question ∷ [] }

abbrev pub config : Config
config = record {
  version = bytes "1.6.0";
  log_config = bytes "stderr@2";
  bind = bytes "0.0.0.0:53";
  api = bytes "127.0.0.1:8080";
  interval = pos 200;
  timeout = pos 5000;
  question_cache_cap = pos 5000;
  ttl = 600;
  custom_dns_records = [];
  api_debug = false;
  blocking = record {
    sources = [];
    sources_store = bytes "./sources";
    source_dirs = [];
    blocklist = [];
    whitelist = [];
    nxdomain = true;
    nullroute = bytes "0.0.0.0";
    nullroutev6 = bytes "::";
  };
  upstream = record {
    doh = [];
    nameservers = [];
    timeout_s = pos 5;
    expire = 600;
    maxcount = pos 0;
  };
  metrics = record {
    enabled = false;
    path = bytes "/metrics";
    high_cardinality_enabled = false;
    reset_period_minutes = pos 60;
    histograms_enabled = false;
  };
  dns_over_http_server = record {
    enabled = false;
    bind = bytes "0.0.0.0:80";
    timeout_ms = pos 5000;
    tls = record { cert_path = []; key_path = []; ca_path = []; enabled = false };
    parsed_tls = none;
  };
  follow_cname_depth = 12;
}
