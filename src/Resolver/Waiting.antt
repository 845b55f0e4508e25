-- ===== src/Resolver/Waiting.antt =====
-- What holds all along while a lookup waits for its servers (resolver.go).
use leng.Prelude.{
  ℕ, zero, suc, ◌≡◌, refl, sym, ap, ◌∙◌, inl, inr, Bool, true, false, ◌||◌, Option, none, some,
  List, [], ◌∷◌, ◌++◌, arith, nat_beq, if◌then◌else◌, Bool-cases, Option-cases, ◌==◌, eq_iff,
  eq_refl, some-injective, Result, ok, err, length, take_out, Text, comparable_text,
}
use leng.Dns.{Msg}
use leng.Utils.{holds}
use leng.Resolver
use leng.Resolver.{Network, UpstreamAnswer, ResolvError, Lookup, Event, is_usable, client_net}

holds-append : (x : Text) (l k : List Text) → holds x (l ++ k) ≡ (holds x l || holds x k)
holds-append x [] k = refl
holds-append x (y ∷ l) k = ground (arith, holds-append x l k)

-- The server at an index, and the others, are those of the list.
holds-take_out :
    (n : ℕ) (l : List Text) (x : Text) (rest : List Text) (y : Text)
    → take_out n l ≡ some (x, rest)
    → holds y l ≡ (x == y || holds y rest)
unfolding take_out
holds-take_out n [] x rest y h = cc
holds-take_out zero (z ∷ l) x rest y h = ground (arith, h)
holds-take_out (suc n) (z ∷ l) x rest y h = elim (Option-cases (take_out n l)) [
  | inl e ↦ ground (arith, h, e)
  | inr ((x', rest'), e) ↦ ground (arith, h, e, holds-take_out n l x' rest' y e)
]

pub nothing : (x : Text) (l : List Text) → nat_beq (length l) 0 ≡ true → holds x l ≡ false
nothing x [] h = refl
nothing x (y ∷ l) h = ground (arith, h)

module _ (u : Network) (net : Text) (req : Msg) (servers : List Text) where
  -- The answer of a server that a goroutine passes on, if any.
  unfoldable pub usable : Option Msg → Bool
  usable none = false
  usable (some r) = is_usable r

  unfoldable pub useful : Text → Bool
  useful x = usable (u.exchange (client_net net) req x)

  -- The server is asked, gives the answer, and that is not a SERVFAIL.
  abbrev pub GivenBy : Text → Msg → Type 0
  GivenBy x r =
      (holds x servers ≡ true) × (u.exchange (client_net net) req x ≡ some r) × (is_usable r ≡ true)

  -- One of the servers gives the answer.
  abbrev pub Given : Msg → Type 0
  Given r = (x : Text) × GivenBy x r

  -- What holds all along while the call has not returned.
  pub record Open (s : Lookup) : Type 0 where
    pub asked :
        (x : Text) → (holds x s.waiting || holds x s.running) ≡ true → holds x servers ≡ true
    pub given : (r : UpstreamAnswer) → s.res ≡ some r → GivenBy r.nameserver r.answer
    pub settled :
        (x : Text)
        → s.res ≡ none
        → holds x servers ≡ true
        → useful x ≡ true
        → (holds x s.waiting || holds x s.running) ≡ true

  -- What holds of an outcome.
  abbrev pub Ends : ResolvError → Option (Result ResolvError Msg) → Type 0
  Ends e none = Unit
  Ends e (some (ok r)) = Given r
  Ends e (some (err e')) = (e' ≡ e) × ((x : Text) → holds x servers ≡ true → useful x ≡ false)

  pub start_one-Open :
      (w : List Text) (s : Lookup) → s.waiting ≡ w → Open s → Open (Resolver.start_one u w s)
  unfolding Resolver.start_one
  start_one-Open [] s e o = o
  start_one-Open (server ∷ w) s e o = record {
    asked = λ x h. o.asked x (rw e (ground (arith, h, holds-append x s.running (server ∷ []))));
    given = o.given;
    settled = λ x n h g.
        let t = o.settled x n h g in
        let t' : (holds x (server ∷ w) || holds x s.running) ≡ true =
          ap (λ l. holds x l || holds x s.running) (sym e) ∙ t in
        ground (arith, t', holds-append x s.running (server ∷ []));
  }

  offer-GivenBy :
      (server : Text) (o : Option Msg) (res : Option UpstreamAnswer) (r : UpstreamAnswer)
      → u.exchange (client_net net) req server ≡ o
      → holds server servers ≡ true
      → ((a : UpstreamAnswer) → res ≡ some a → GivenBy a.nameserver a.answer)
      → Resolver.offer u server o res ≡ some r
      → GivenBy r.nameserver r.answer
  unfolding Resolver.offer
  offer-GivenBy server none res r x h g e = g r e
  offer-GivenBy server (some m) (some first) r x h g e = g r e
  offer-GivenBy server (some m) none r x h g e = elim (Bool-cases (is_usable m)) [
    | inl p ↦
        let q : some (record { answer = m; nameserver = server }) ≡ some r =
          ap (λ b. if b then some (record { answer = m; nameserver = server }) else none) (sym p)
          ∙ e in
        rw (sym (some-injective q)) (h, x, p)
    | inr p ↦ ground (arith, e, p)
  ]

  -- A server whose answer is passed on leaves no empty channel.
  offer-none :
      (server : Text) (o : Option Msg) (res : Option UpstreamAnswer)
      → Resolver.offer u server o res ≡ none
      → (res ≡ none) × (usable o ≡ false)
  unfolding Resolver.offer usable
  offer-none server none res e = (e, refl)
  offer-none server (some m) (some first) e = cc
  offer-none server (some m) none e = (refl, ground (arith, e))

  useful_ne :
      (x server : Text)
      → useful x ≡ true
      → usable (u.exchange (client_net net) req server) ≡ false
      → (server == x) ≡ false
  unfolding useful
  useful_ne x server f i = elim (Bool-cases (server == x)) [
    | inl q ↦
        let same = ap (λ y. usable (u.exchange (client_net net) req y)) ((eq_iff server x).0 q) in
        ground (arith, f, i, same)
    | inr q ↦ q
  ]

  pub finish_one-Open :
      (n : ℕ) (s : Lookup) → Open s → Open (Resolver.finish_one u net req (take_out n s.running) s)
  unfolding Resolver.finish_one
  finish_one-Open n s o = elim (Option-cases (take_out n s.running)) [
    | inl e ↦ rw e o
    | inr ((server, rest), e) ↦
        let split : (y : Text) → holds y s.running ≡ (server == y || holds y rest) =
          λ y. holds-take_out n s.running server rest y e in
        rw e (record {
          asked = λ x h. o.asked x (ground (arith, h, split x));
          given = λ r g.
              offer-GivenBy server _ s.res r refl
                (o.asked server (ground (arith, split server, eq_refl server))) o.given g;
          settled = λ x g h f.
              let (empty, idle) = offer-none server _ s.res g in
              let t = o.settled x empty h f in
              ground (arith, t, split x, useful_ne x server f idle);
        })
  ]

  pub finish_one-outcome :
      (o : Option (Text × List Text)) (s : Lookup)
      → (Resolver.finish_one u net req o s).outcome ≡ s.outcome
  unfolding Resolver.finish_one
  finish_one-outcome none s = refl
  finish_one-outcome (some (server, rest)) s = refl
