-- ===== src/Handler/Follow/Replies.antt =====
-- What `doRequest` writes to the client (handler.go).
use leng.Prelude.{
  ℕ, zero, suc, ◌≡◌, refl, sym, ap, ◌∙◌, inl, inr, Bool, true, false, not, ◌&&◌, some, List, [],
  ◌∷◌, ◌++◌, append-nil, append_assoc, Bool-cases, Option-cases, ◌==◌, returned≢panicked,
  returned-injective, Run, returned, panicked, any, Text, comparable_text,
}
use leng.Dns.{Rr, Msg, Question, new_msg}
use leng.Handler
use leng.Handler.{Env, EventLoop, Response, Net, Addr}
use leng.Handler.Follow
use leng.Handler.Follow.{is_a, Act, ◌>>=◌, pure, panic, failure_reply}

module _ {W A B : Type 0} where
  -- Inversion of a sequence of two calls that returned.
  continue-returned :
      (r : Run A × EventLoop W) (f : A → Act W B) {b : B}
      → (Follow.continue r f).0 ≡ returned b
      → (a : A) × (r.0 ≡ returned a) × ((f a r.1).0 ≡ returned b)
  unfolding Follow.continue
  continue-returned (panicked, h) f e = cc
  continue-returned (returned a, h) f e = (a, refl, e)

  pub >>=-step :
      (m : Act W A) (f : A → Act W B) (h h' : EventLoop W) (a : A)
      → m h ≡ (returned a, h')
      → (m >>= f) h ≡ f a h'
  unfolding Follow.continue
  >>=-step m f h h' a e = rw (e, Follow.continue) refl

module _ {W : Type 0} (env : Env W) where
  open env use {dns}

  -- One list of answers begins with the other.
  abbrev pub Extends : List Rr → List Rr → Type 0
  Extends answers longer = (rest : List Rr) × (longer ≡ answers ++ rest)

  Extends-trans : (a b c : List Rr) → Extends a b → Extends b c → Extends a c
  Extends-trans a b c (r, p) (s, q) = (r ++ s, q ∙ ap (λ l. l ++ s) p ∙ append_assoc a r s)

  add_followed-Extends :
      (found_ok : Bool) (answers found : List Rr)
      → Extends answers (Follow.add_followed env found_ok answers found)
  unfolding Follow.add_followed
  add_followed-Extends found_ok answers [] = ([], sym (append-nil answers))
  add_followed-Extends found_ok answers (f ∷ rest) =
      elim (Bool-cases
        (found_ok && not (any (λ rr. dns.rr_string rr == dns.rr_string f) answers))) [
          | inl new ↦ rw new (
              Extends-trans answers (answers ++ f ∷ []) _ (f ∷ [], refl)
                (add_followed-Extends found_ok (answers ++ f ∷ []) rest))
          | inr old ↦ rw old (add_followed-Extends found_ok answers rest)
        ]

  follow_targets-Extends :
      (net : Net) (q : Question) (remote : Addr) (targets : List Text) (answers longer : List Rr)
      (h : EventLoop W)
      → (Follow.follow_targets env net q remote targets answers h).0 ≡ returned longer
      → Extends answers longer
  unfolding Follow.follow_targets
  follow_targets-Extends net q remote [] answers longer h e =
      ([], returned-injective (sym e) ∙ sym (append-nil answers))
  follow_targets-Extends net q remote (t ∷ targets) answers longer h e =
      let (r, asked, e1) =
        continue-returned
          (Handler.response_for env net (dns.set_question new_msg t q.qtype) remote h) _ e in
      let (found, had, e2) = continue-returned (Follow.answers_of r.resp _) _ e1 in
      Extends-trans answers _ longer (add_followed-Extends r.success answers found)
        (follow_targets-Extends net q remote targets _ longer _ e2)

  pub follow_cnames_stop :
      (rounds : ℕ) (net : Net) (q : Question) (remote : Addr) (resp : Msg) (h : EventLoop W)
      → (Follow.can_follow q resp).1 ≡ false
      → Follow.follow_cnames env rounds net q remote resp h ≡ (returned resp, h)
  unfolding Follow.follow_cnames
  follow_cnames_stop zero net q remote resp h stop = refl
  follow_cnames_stop (suc rounds) net q remote resp h stop = rw (stop, Follow.follow_cnames) refl

  pub follow_cnames_go :
      (rounds : ℕ) (net : Net) (q : Question) (remote : Addr) (resp : Msg) (h : EventLoop W)
      → (Follow.can_follow q resp).1 ≡ true
      → Follow.follow_cnames env (suc rounds) net q remote resp h
        ≡ Follow.continue
            (Follow.follow_targets env net q remote (Follow.can_follow q resp).0 resp.answer h)
            (λ answers.
              Follow.follow_cnames env rounds net q remote (record resp { answer = answers }))
  unfolding Follow.follow_cnames
  follow_cnames_go rounds net q remote resp h go = rw (go, Follow.follow_cnames) refl

  follow_cnames-zero :
      (net : Net) (q : Question) (remote : Addr) (resp : Msg) (h : EventLoop W)
      → Follow.follow_cnames env zero net q remote resp h ≡ (returned resp, h)
  unfolding Follow.follow_cnames
  follow_cnames-zero net q remote resp h = refl

  follow_cnames-Extends :
      (rounds : ℕ) (net : Net) (q : Question) (remote : Addr) (resp m : Msg) (h : EventLoop W)
      → (Follow.follow_cnames env rounds net q remote resp h).0 ≡ returned m
      → (rest : List Rr) × (m ≡ record resp { answer = resp.answer ++ rest })
  follow_cnames-Extends zero net q remote resp m h e = (
    [],
    returned-injective (sym e ∙ ap (λ p. p.0) (follow_cnames-zero net q remote resp h))
        ∙ ap (λ l. record resp { answer = l }) (sym (append-nil resp.answer)),
  )
  follow_cnames-Extends (suc rounds) net q remote resp m h e =
      elim (Bool-cases (Follow.can_follow q resp).1) [
        | inl go ↦
            let (answers, found, e1) =
              continue-returned
                (Follow.follow_targets env net q remote (Follow.can_follow q resp).0 resp.answer h)
                (λ answers.
                  Follow.follow_cnames env rounds net q remote (record resp { answer = answers }))
                (ap (λ p. p.0) (sym (follow_cnames_go rounds net q remote resp h go)) ∙ e) in
            let (r, grown) = follow_targets-Extends net q remote _ resp.answer answers h found in
            let (s, final) =
              follow_cnames-Extends rounds net q remote (record resp { answer = answers }) m _ e1 in
            (
              r ++ s,
              final
                  ∙ ap (λ l. record resp { answer = l })
                      (ap (λ l. l ++ s) grown ∙ append_assoc resp.answer r s),
            )
        | inr stop ↦ (
          [],
          returned-injective
                (sym e ∙ ap (λ p. p.0) (follow_cnames_stop (suc rounds) net q remote resp h stop))
              ∙ ap (λ l. record resp { answer = l }) (sym (append-nil resp.answer)),
        )
      ]

  follow-Extends :
      (rounds : ℕ) (net : Net) (req : Msg) (qs : List Question) (remote : Addr) (resp m : Msg)
      (h : EventLoop W)
      → (Follow.follow env rounds net req qs remote resp h).0 ≡ returned m
      → (rest : List Rr) × (m ≡ record resp { answer = resp.answer ++ rest })
  unfolding Follow.follow
  follow-Extends zero net req qs remote resp m h e = (
    [],
    returned-injective (sym e)
        ∙ ap (λ l. record resp { answer = l }) (sym (append-nil resp.answer)),
  )
  follow-Extends (suc rounds) net req [] remote resp m h e = cc
  follow-Extends (suc rounds) net req (q ∷ qs) remote resp m h e =
      follow_cnames-Extends (suc rounds) net q remote resp m h e

  reply_lost :
      (net : Net) (req : Msg) (remote : Addr) (r : Response) (h : EventLoop W)
      → r.success ≡ false
      → Follow.reply env net req remote r h ≡ (returned (failure_reply env req), h)
  unfolding Follow.reply
  reply_lost net req remote r h lost = rw lost refl

  reply_won :
      (net : Net) (req m : Msg) (remote : Addr) (r : Response) (h : EventLoop W)
      → r.success ≡ true
      → (Follow.reply env net req remote r h).0 ≡ returned m
      → (resp : Msg) × (rest : List Rr) × (r.resp ≡ some resp)
        × (m ≡ record resp { answer = resp.answer ++ rest })
  unfolding Follow.reply
  reply_won net req m remote r h won e = elim (Option-cases r.resp) [
    | inl nil ↦ absurd (returned≢panicked (sym e ∙ rw won (rw (nil, Follow.reply) refl)))
    | inr (resp, held) ↦
        let (rest, final) =
          follow-Extends h.config.follow_cname_depth net req req.question remote resp m h
            (sym (rw won (rw (held, Follow.reply) refl)) ∙ e) in
        (resp, rest, held, final)
  ]

  -- What is written for a response, by its success.
  abbrev pub Replied : Bool → Msg → Response → Msg → Type 0
  Replied false req r m = m ≡ failure_reply env req
  Replied true req r m =
      (resp : Msg) × (rest : List Rr) × (r.resp ≡ some resp)
      × (m ≡ record resp { answer = resp.answer ++ rest })

  reply-Replied :
      (b : Bool) (net : Net) (req m : Msg) (remote : Addr) (r : Response) (h : EventLoop W)
      → r.success ≡ b
      → (Follow.reply env net req remote r h).0 ≡ returned m
      → Replied b req r m
  reply-Replied false net req m remote r h lost e =
      returned-injective (sym e ∙ ap (λ p. p.0) (reply_lost net req remote r h lost))
  reply-Replied true net req m remote r h won e = reply_won net req m remote r h won e

  -- What `doRequest` writes where it writes at all: if the request failed, a SERVFAIL; if not, the
  -- response that `responseFor` found, its header and question untouched, with further answers
  -- behind its own.
  pub do_request_reply :
      (net : Net) (req m : Msg) (remote : Addr) (h : EventLoop W)
      → (Follow.do_request env net req remote h).0 ≡ returned m
      → (r : Response) × ((Handler.response_for env net req remote h).0 ≡ returned r)
        × Replied r.success req r m
  unfolding Follow.do_request
  do_request_reply net req m remote h e =
      let (r, found, e1) = continue-returned (Handler.response_for env net req remote h) _ e in
      (r, found, reply-Replied r.success net req m remote r _ refl e1)
