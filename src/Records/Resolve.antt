-- ===== src/Records/Resolve.antt =====
-- What `Resolve` answers from the custom records (records.go).
use leng.Prelude.{
  ℕ, ◌≡◌, refl, sym, ap, ◌∙◌, ◌≢◌, inl, inr, true, Option, none, some, List, [], ◌∷◌, arith,
  if◌then◌else◌, Bool-cases, Option-cases, ◌==◌, eq_iff, eq_refl, returned, All, GoMap, lookup, has,
  Distinct, has-lookup, Text, comparable_text,
}
use leng.Dns.{Rr, Msg, Question, DnsLib, DnsLaws, rcode_refused, new_msg}
use leng.Records
use leng.Records.{NewRr, CustomDnsRecords, MuxLib, Handler, RoResponseWriter}
use leng.Records.Groups.{records_named, group_records_lem}

abbrev pub type_ds : ℕ
type_ds = 43

-- What the package dns documents of the mux: the table keeps one handler for each canonical
-- pattern, the last; a name that is itself a pattern is served by that pattern's handler, but for DS
-- queries; a request that no zone matches, or that has no question, is refused.
pub record MuxLaws {M : Type 0} (x : MuxLib M) : Type 0 where
  pub registered-new_mux : (z : Text) → x.registered x.new_mux z ≡ none
  pub registered-handle_func :
      (p z : Text) (h : Handler) (m : M)
      → x.registered (x.handle_func p h m) z
        ≡ (if x.canonical p == x.canonical z then some h else x.registered m z)
  pub serve_exact :
      (m : M) (w : RoResponseWriter) (req : Msg) (q : Question) (qs : List Question) (h : Handler)
      → req.question ≡ q ∷ qs
      → q.qtype ≢ type_ds
      → x.registered m q.name ≡ some h
      → x.serve_dns m w req ≡ h w req
  pub serve_unmatched :
      (m : M) (w : RoResponseWriter) (req : Msg) (q : Question) (qs : List Question)
      → req.question ≡ q ∷ qs
      → ((z : Text) → x.is_zone_of z q.name ≡ true → x.registered m z ≡ none)
      → (msg : Msg) × ((x.serve_dns m w req).result ≡ some msg) × (msg.rcode ≡ rcode_refused)
  pub serve_no_question :
      (m : M) (w : RoResponseWriter) (req : Msg)
      → req.question ≡ []
      → (msg : Msg) × ((x.serve_dns m w req).result ≡ some msg) × (msg.rcode ≡ rcode_refused)

module _ (d : DnsLib) {M : Type 0} (x : MuxLib M) (laws : MuxLaws x) where
  -- The handler that the groups leave registered for a name, over the one that was there.
  served : List CustomDnsRecords → Text → Option Handler → Option Handler
  served [] z o = o
  served (r ∷ rs) z o =
      served rs z (if x.canonical r.name == x.canonical z then some (Records.as_handler d r) else o)

  registered-register :
      (rs : List CustomDnsRecords) (z : Text) (mux : M)
      → x.registered (Records.register d x rs mux) z ≡ served rs z (x.registered mux z)
  unfolding Records.register served
  registered-register [] z mux = refl
  registered-register (r ∷ rs) z mux =
      rw (registered-register rs z _, laws.registered-handle_func) refl

  served_absent :
      (m : GoMap Text (List Rr)) (z : Text) (o : Option Handler)
      → ((n : Text) → has n m ≡ true → x.canonical n ≢ x.canonical z)
      → served (Records.new_custom_dns_records m) z o ≡ o
  unfolding served Records.new_custom_dns_records has
  served_absent [] z o h = refl
  served_absent ((n, l) ∷ m) z o h =
      rw (served_absent m z _ (λ n' p. h n' (ground arith)))
        (ground (arith, eq_iff (x.canonical n) (x.canonical z), h n, eq_refl n))

  served_apart :
      (rs : List CustomDnsRecords) (z : Text) (o : Option Handler)
      → All (λ r. x.canonical r.name ≢ x.canonical z) rs
      → served rs z o ≡ o
  unfolding served
  served_apart [] z o h = refl
  served_apart (r ∷ rs) z o h =
      rw (served_apart rs z _ h.1) (ground (arith, eq_iff (x.canonical r.name) (x.canonical z)))

  served_present :
      (m : GoMap Text (List Rr)) (z n : Text) (l : List Rr) (o : Option Handler)
      → Distinct m
      → ((a b : Text) → has a m ≡ true → has b m ≡ true → x.canonical a ≡ x.canonical b → a ≡ b)
      → lookup n m ≡ some l
      → x.canonical n ≡ x.canonical z
      → served (Records.new_custom_dns_records m) z o
        ≡ some (Records.as_handler d (record { name = n; answer = l }))
  unfolding served Records.new_custom_dns_records has lookup
  served_present [] z n l o dis inj p e = cc
  served_present ((k, w) ∷ m) z n l o dis inj p e = elim (Bool-cases (k == n)) [
    | inl same ↦
        rw
          (served_absent m z _
            (λ n' here c. stale n' here (c ∙ sym e ∙ ap x.canonical (sym ((eq_iff k n).0 same)))))
          (ground (arith, eq_iff (x.canonical k) (x.canonical z), eq_iff k n))
    | inr other ↦
        served_present m z n l _ dis.1 (λ a b ha hb. inj a b (ground arith) (ground arith))
          (ground arith) e
  ]
    where
      stale : (n' : Text) → has n' m ≡ true → x.canonical n' ≡ x.canonical k → ⊥
      stale n' here c = ground (arith, inj n' k (ground arith) (ground (arith, eq_refl k)) c, dis.0)

  module _ (dl : DnsLaws d) where
    handled :
        (name : Text) (l : List Rr) (req : Msg)
        → Records.unless_refused
            (Records.as_handler d
              (record { name = name; answer = l })
              (record { result = none })
              req).result
          ≡ returned (some (record (d.set_reply new_msg req) { answer = l }))
    unfolding Records.unless_refused Records.as_handler Records.write_msg
    handled name l req = rw (dl.reply_rcode, dl.reply_answer) refl

    -- A query, but for DS, whose name is that of custom records is answered with exactly the
    -- records of that name, in the order of the configuration, as a reply to the request; this
    -- holds if no two names of the configuration differ and are yet one name for the mux.
    pub resolve_custom :
        (new_rr : NewRr) (texts : List Text) (m : GoMap Text (List Rr)) (n : Text) (req : Msg)
        (q : Question) (qs : List Question)
        → Records.group_records new_rr texts [] ≡ returned m
        → Distinct m
        → ((a b : Text) → has a m ≡ true → has b m ≡ true → x.canonical a ≡ x.canonical b → a ≡ b)
        → has n m ≡ true
        → x.canonical n ≡ x.canonical q.name
        → req.question ≡ q ∷ qs
        → q.qtype ≢ type_ds
        → Records.resolve x
            (Records.new_custom_records_resolver d x (Records.new_custom_dns_records m))
            req
          ≡ returned
              (some (record (d.set_reply new_msg req) { answer = records_named new_rr n texts }))
    unfolding Records.resolve Records.new_custom_records_resolver
    resolve_custom new_rr texts m n req q qs parsed dis inj here e asked plain =
        elim (Option-cases (lookup n m)) [
          | inl miss ↦ absurd (ground (arith, has-lookup n m))
          | inr (l, hit) ↦
              rw
                (
                  laws.serve_exact _ _ req q qs
                      (Records.as_handler d (record { name = n; answer = l })) asked plain
                      (registered-register (Records.new_custom_dns_records m) q.name x.new_mux
                        ∙ served_present m q.name n l _ dis inj hit e),
                  handled n l req,
                )
                (ap (λ a. returned (some (record (d.set_reply new_msg req) { answer = a })))
                  (ground (arith, group_records_lem new_rr n texts m parsed)))
        ]

    -- A request for a name that lies in the zone of no group of custom records is left to the rest of
    -- the program: `Resolve` returns nil.
    resolve_elsewhere :
        (records : List CustomDnsRecords) (req : Msg) (q : Question) (qs : List Question)
        → req.question ≡ q ∷ qs
        → ((z : Text)
            → x.is_zone_of z q.name ≡ true
            → All (λ r. x.canonical r.name ≢ x.canonical z) records)
        → Records.resolve x (Records.new_custom_records_resolver d x records) req ≡ returned none
    unfolding Records.resolve Records.new_custom_records_resolver Records.unless_refused
    resolve_elsewhere records req q qs asked apart = refuse (
        laws.serve_unmatched mux (record { result = none }) req q qs asked
          (λ z zone.
            registered-register records z x.new_mux
            ∙ served_apart records z _ (apart z zone)
            ∙ laws.registered-new_mux z))
      where
        mux : M
        mux = Records.register d x records x.new_mux

        refuse :
            (msg : Msg) × ((x.serve_dns mux (record { result = none }) req).result ≡ some msg)
              × (msg.rcode ≡ rcode_refused)
            → Records.unless_refused (x.serve_dns mux (record { result = none }) req).result
              ≡ returned none
        refuse (msg, result, refused) = rw (result, Records.unless_refused) (rw refused refl)
