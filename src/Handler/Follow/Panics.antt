-- ===== src/Handler/Follow/Panics.antt =====
-- When following CNAME records ends in a panic (handler.go, `doRequest`).
use leng.Prelude.{
  ℕ, suc, ◌≡◌, refl, ap, ap₂, ◌∙◌, true, Option, none, some, List, ◌∷◌, Run, returned, panicked,
  Text, comparable_text,
}
use leng.Dns.{Rr, Msg, Question, new_msg}
use leng.Handler
use leng.Handler.{Env, EventLoop, Response, Net, Addr}
use leng.Handler.Follow
use leng.Handler.Follow.{is_a, Act, ◌>>=◌, pure, panic, failure_reply}
use leng.Handler.Follow.Replies.{>>=-step, follow_cnames_go}

module _ {W : Type 0} (env : Env W) where
  open env use {dns}

  answers_of_nil :
      (o : Option Msg) (h : EventLoop W) → o ≡ none → (Follow.answers_of o h).0 ≡ panicked
  unfolding Follow.answers_of
  answers_of_nil none h e = refl
  answers_of_nil (some m) h e = cc

  continue_panicked :
      {A B : Type 0} (r : Run A × EventLoop W) (f : A → Act W B)
      → r.0 ≡ panicked
      → (Follow.continue r f).0 ≡ panicked
  unfolding Follow.continue
  continue_panicked (panicked, h) f e = refl
  continue_panicked (returned a, h) f e = cc

  follow_targets_nil :
      (net : Net) (q : Question) (remote : Addr) (t : Text) (ts : List Text) (answers : List Rr)
      (h h' : EventLoop W) (r : Response)
      → Handler.response_for env net (dns.set_question new_msg t q.qtype) remote h
        ≡ (returned r, h')
      → r.resp ≡ none
      → (Follow.follow_targets env net q remote (t ∷ ts) answers h).0 ≡ panicked
  unfolding Follow.follow_targets
  follow_targets_nil net q remote t ts answers h h' r asked nil =
      ap (λ p. p.0)
        (>>=-step (Handler.response_for env net (dns.set_question new_msg t q.qtype) remote) _ h h'
          r asked)
      ∙ continue_panicked (Follow.answers_of r.resp h') _ (answers_of_nil r.resp h' nil)

  -- If the response is to be followed and the lookup of its first CNAME target fails, the request
  -- ends in a panic: `followed` is nil, and the loop reads `followed.Answer` before it looks at `ok`.
  pub do_request_panics :
      (net : Net) (req resp : Msg) (remote : Addr) (h h1 h2 : EventLoop W) (q : Question)
      (qs : List Question) (r r' : Response) (t : Text) (ts : List Text) (rounds : ℕ)
      → Handler.response_for env net req remote h ≡ (returned r, h1)
      → r.success ≡ true
      → r.resp ≡ some resp
      → req.question ≡ q ∷ qs
      → h1.config.follow_cname_depth ≡ suc rounds
      → Follow.can_follow q resp ≡ (t ∷ ts, true)
      → Handler.response_for env net (dns.set_question new_msg t q.qtype) remote h1
        ≡ (returned r', h2)
      → r'.resp ≡ none
      → (Follow.do_request env net req remote h).0 ≡ panicked
  unfolding Follow.do_request Follow.reply Follow.follow
  do_request_panics net req resp remote h h1 h2 q qs r r' t ts rounds found won held asked depth can
        lost nil =
      ap (λ p. p.0) (>>=-step (Handler.response_for env net req remote) _ h h1 r found)
      ∙ rw won (
          rw (held, Follow.reply)
            (ap₂ (λ n l. (Follow.follow env n net req l remote resp h1).0) depth asked
              ∙ ap (λ p. p.0) (follow_cnames_go env rounds net q remote resp h1 (ap (λ p. p.1) can))
              ∙ continue_panicked _ _ (
                  ap (λ l. (Follow.follow_targets env net q remote l resp.answer h1).0)
                    (ap (λ p. p.0) can)
                  ∙ follow_targets_nil net q remote t ts resp.answer h1 h2 r' lost nil)))
