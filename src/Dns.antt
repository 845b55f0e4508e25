-- ===== src/Dns.antt =====
-- The messages of the package github.com/miekg/dns, as far as the program reads or writes them, and
-- the functions of that package that it calls, which are parameters of the model.
use leng.Prelude.{ℕ, ◌≡◌, Bool, false, List, [], ◌∷◌, Text}

pub record Question : Type 0 where
  pub name : Text
  pub qtype : ℕ
  pub qclass : ℕ

-- What follows the header: `*dns.A`, `*dns.AAAA`, `*dns.CNAME`, or a record that the program never
-- takes apart. An address is a list of bytes.
pub data RData : Type 0 where
  a : List ℕ → RData
  aaaa : List ℕ → RData
  cname : Text → RData
  other : Text → RData

pub record Rr : Type 0 where
  pub name : Text
  pub rrtype : ℕ
  pub class : ℕ
  pub ttl : ℕ
  pub rdata : RData

pub record Msg : Type 0 where
  pub id : ℕ
  pub response : Bool
  pub rcode : ℕ
  pub truncated : Bool
  pub question : List Question
  pub answer : List Rr

-- new(dns.Msg)
abbrev pub new_msg : Msg
new_msg = record {
  id = 0;
  response = false;
  rcode = 0;
  truncated = false;
  question = [];
  answer = [];
}

abbrev pub type_a : ℕ
type_a = 1

abbrev pub type_cname : ℕ
type_cname = 5

abbrev pub type_aaaa : ℕ
type_aaaa = 28

abbrev pub class_inet : ℕ
class_inet = 1

abbrev pub rcode_success : ℕ
rcode_success = 0

abbrev pub rcode_server_failure : ℕ
rcode_server_failure = 2

abbrev pub rcode_name_error : ℕ
rcode_name_error = 3

abbrev pub rcode_refused : ℕ
rcode_refused = 5

-- rr.Header().Ttl = t
abbrev pub with_ttl : ℕ → Rr → Rr
with_ttl t rr = record rr { ttl = t }

-- The functions that the program calls. The receiver comes first.
pub record DnsLib : Type 0 where
  pub set_reply : Msg → Msg → Msg
  pub set_rcode : Msg → Msg → ℕ → Msg
  pub set_question : Msg → Text → ℕ → Msg
  pub is_fqdn : Text → Bool
  pub type_to_string : ℕ → Text
  pub class_to_string : ℕ → Text
  pub rr_string : Rr → Text

-- What the documentation and the code of that package say of them.
pub record DnsLaws (d : DnsLib) : Type 0 where
  pub reply_id : (m req : Msg) → (d.set_reply m req).id ≡ req.id
  pub reply_rcode : (m req : Msg) → (d.set_reply m req).rcode ≡ rcode_success
  pub reply_answer : (m req : Msg) → (d.set_reply m req).answer ≡ m.answer
  pub reply_question :
      (m req : Msg) (q : Question) (qs : List Question)
      → req.question ≡ q ∷ qs
      → (d.set_reply m req).question ≡ q ∷ []
  pub rcode_rcode : (m req : Msg) (r : ℕ) → (d.set_rcode m req r).rcode ≡ r
  pub rcode_answer : (m req : Msg) (r : ℕ) → (d.set_rcode m req r).answer ≡ m.answer
  pub rcode_id : (m req : Msg) (r : ℕ) → (d.set_rcode m req r).id ≡ req.id
  pub question_question :
      (m : Msg) (z : Text) (t : ℕ)
      → (d.set_question m z t).question ≡ record { name = z; qtype = t; qclass = class_inet } ∷ []
