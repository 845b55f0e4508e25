-- ===== src/Lcache/Threads/Counting.antt =====
-- The counter of a response cache whose calls run side by side (lcache/cache.go).
use leng.Prelude.{
  ℕ, zero, suc, ◌+◌, ◌≡◌, refl, sym, ap, ◌∙◌, inl, inr, Bool, true, false, Option, none, some, List,
  [], ◌∷◌, ◌++◌, arith, ltb, if◌then◌else◌, Bool-cases, Option-cases, ok, length, take_out, count,
  count-append, count-take_out, incr, decr, ℤ, pos, negsuc, has, put, delete, Distinct,
  put-Distinct, delete-Distinct, length-put, length-delete, Text, comparable_text, to_lower,
}
use leng.Lcache
use leng.Lcache.{Entry, LEntry, LengCache}
use leng.Lcache.Threads
use leng.Lcache.Threads.{
  Outcome, was_set, Thread, Call, Calls, Step, Reach, new_calls, full_test, exists_test, clock_read,
  swap, count_up, load, expiry_test, load_and_delete, count_down, finished,
}

-- n times c.Add(1)
abbrev pub plus : ℤ → ℕ → ℤ
plus i zero = i
plus i (suc n) = plus (incr i) n

-- The additions that calls still owe the counter.
abbrev pub owes_up : {E : Type 0} → Thread E → Bool
owes_up count_up = true
owes_up _ = false

abbrev pub owes_down : {E : Type 0} → Thread E → Bool
owes_down (count_down o) = true
owes_down _ = false

incr-decr : (i : ℤ) → incr (decr i) ≡ i
incr-decr (pos zero) = refl
incr-decr (pos (suc n)) = refl
incr-decr (negsuc n) = refl

decr-incr : (i : ℤ) → decr (incr i) ≡ i
decr-incr (pos n) = refl
decr-incr (negsuc zero) = refl
decr-incr (negsuc (suc n)) = refl

plus-incr : (i : ℤ) (n : ℕ) → plus (incr i) n ≡ incr (plus i n)
plus-incr i zero = refl
plus-incr i (suc n) = plus-incr (incr i) n

plus-decr : (i : ℤ) (n : ℕ) → plus (decr i) n ≡ decr (plus i n)
plus-decr i zero = refl
plus-decr i (suc n) = ap (λ j. plus j n) (incr-decr i ∙ sym (decr-incr i)) ∙ plus-decr (incr i) n

plus_suc : (a b : ℕ) → a + suc b ≡ suc (a + b)
plus_suc a b = omega arith

-- What holds of a cache whose calls owe these additions.
pub record IsCounted {E : Type 0} (c : LengCache E) (up down : ℕ) : Type 0 where
  pub distinct : Distinct c.backend
  pub counted : plus c.size up ≡ pos (length c.backend + down)

-- How many items meet a test, of an item and `n` such others.
abbrev pub tally : {A : Type 0} → (A → Bool) → A → ℕ → ℕ
tally p t n = if p t then suc n else n

module _ {E : Type 0} where
  -- What a step has to show, of a thread among others that owe `up` and `down`.
  abbrev Keeps : ℕ → ℕ → Thread E × LengCache E → Type 0
  Keeps up down r = IsCounted r.1 (tally owes_up r.0 up) (tally owes_down r.0 down)

  paid_up :
      (c : LengCache E) (up down : ℕ)
      → IsCounted c (suc up) down
      → IsCounted (record c { size = incr c.size }) up down
  paid_up c up down v = record { distinct = v.distinct; counted = v.counted }

  paid_down :
      (c : LengCache E) (up down : ℕ)
      → IsCounted c up (suc down)
      → IsCounted (record c { size = decr c.size }) up down
  paid_down c up down v = record {
    distinct = v.distinct;
    counted = plus-decr c.size up ∙ ap decr (v.counted ∙ ap pos (plus_suc (length c.backend) down));
  }

  entered :
      (k : Text) (e : LEntry E) (c : LengCache E) (down : ℕ)
      → has k c.backend ≡ false
      → suc (length c.backend + down) ≡ length (put k e c.backend) + down
  entered k e c down new = ground (arith, length-put k e c.backend)

  left :
      (k : Text) (c : LengCache E) (down : ℕ)
      → has k c.backend ≡ true
      → length c.backend + down ≡ length (delete k c.backend) + suc down
  left k c down here = ground (arith, length-delete k c.backend)

  swapped :
      (k : Text) (e : LEntry E) (c : LengCache E) (up down : ℕ)
      → IsCounted c up down
      → Keeps up down (
        if has k c.backend then finished (was_set (ok tt)) else count_up,
        record c { backend = put k e c.backend },
      )
  swapped k e c up down v = elim (Bool-cases (has k c.backend)) [
    | inl old ↦ rw old (record {
      distinct = put-Distinct k e c.backend v.distinct;
      counted = ground (arith, v.counted, length-put k e c.backend);
    })
    | inr new ↦ rw new (record {
      distinct = put-Distinct k e c.backend v.distinct;
      counted = plus-incr c.size up ∙ ap incr v.counted ∙ ap pos (entered k e c down new);
    })
  ]

  deleted :
      (k : Text) (o : Outcome E) (c : LengCache E) (up down : ℕ)
      → IsCounted c up down
      → Keeps up down (
          if has k c.backend
          then (count_down o, record c { backend = delete k c.backend })
          else (finished o, c))
  deleted k o c up down v = elim (Bool-cases (has k c.backend)) [
    | inl here ↦ rw here (record {
      distinct = delete-Distinct k c.backend v.distinct;
      counted = v.counted ∙ ap pos (left k c down here);
    })
    | inr gone ↦ rw gone (record { distinct = v.distinct; counted = v.counted })
  ]

  one_of :
      (b : Bool) (s t : Thread E) (c : LengCache E) (up down : ℕ)
      → Keeps up down (s, c)
      → Keeps up down (t, c)
      → Keeps up down (if b then s else t, c)
  one_of true s t c up down v w = v
  one_of false s t c up down v w = w

module _ {E : Type 0} ⦃en : Entry E⦄ where
  loaded-Keeps :
      (k : Text) (o : Option (LEntry E)) (c : LengCache E) (up down : ℕ)
      → IsCounted c up down
      → Keeps up down (Threads.loaded k o, c)
  unfolding Threads.loaded
  loaded-Keeps k none c up down v = v
  loaded-Keeps k (some e) c up down v = v

  advance-Keeps :
      (now : ℕ) (t : Thread E) (c : LengCache E) (up down : ℕ)
      → IsCounted c (tally owes_up t up) (tally owes_down t down)
      → Keeps up down (Threads.advance now t c)
  unfolding Threads.advance
  advance-Keeps now (full_test key x) c up down v = one_of (Lcache.full c) _ _ c up down v v
  advance-Keeps now (exists_test key x) c up down v =
      one_of (Lcache.exists (to_lower key) c) _ _ c up down v v
  advance-Keeps now (clock_read key x) c up down v = v
  advance-Keeps now (swap key e) c up down v = swapped (to_lower key) e c up down v
  advance-Keeps now count_up c up down v = paid_up c up down v
  advance-Keeps now (load key) c up down v = loaded-Keeps (to_lower key) _ c up down v
  advance-Keeps now (expiry_test k e) c up down v = one_of (ltb e.expires_at now) _ _ c up down v v
  advance-Keeps now (load_and_delete k o) c up down v = deleted k o c up down v
  advance-Keeps now (count_down o) c up down v = paid_down c up down v
  advance-Keeps now (finished o) c up down v = v

  -- A thread is put behind the others.
  pub count_behind :
      (p : Thread E → Bool) (l : List (Thread E)) (t : Thread E)
      → count p (l ++ t ∷ []) ≡ tally p t (count p l)
  count_behind p l t = ground (arith, count-append p l (t ∷ []))

  abbrev pub Counts : Calls E → Type 0
  Counts s = IsCounted s.cache (count owes_up s.threads) (count owes_down s.threads)

  behind-Counts :
      (l : List (Thread E)) (t : Thread E) (c : LengCache E)
      → IsCounted c (tally owes_up t (count owes_up l)) (tally owes_down t (count owes_down l))
      → IsCounted c (count owes_up (l ++ t ∷ [])) (count owes_down (l ++ t ∷ []))
  behind-Counts l t c v = rw (count_behind owes_up l t, count_behind owes_down l t) v

  begun-Counts :
      (o : Call E) (s : Calls E)
      → Counts s
      → Counts (record s { threads = s.threads ++ Threads.begin o ∷ [] })
  unfolding Threads.begin
  begun-Counts (Threads.get key) s v = behind-Counts s.threads _ s.cache v
  begun-Counts (Threads.set key none) s v = behind-Counts s.threads _ s.cache v
  begun-Counts (Threads.set key (some x)) s v = behind-Counts s.threads _ s.cache v
  begun-Counts (Threads.remove key) s v = behind-Counts s.threads _ s.cache v

  advanced-Counts :
      (now i : ℕ) (s : Calls E)
      → Counts s
      → Counts (Threads.advance_one now (take_out i s.threads) s)
  unfolding Threads.advance_one
  advanced-Counts now i s v = elim (Option-cases (take_out i s.threads)) [
    | inl out ↦ rw (out, Threads.advance_one) v
    | inr ((t, rest), out) ↦
        rw (out, Threads.advance_one)
          (behind-Counts rest _ _ (
            advance-Keeps now t s.cache _ _ (
              rw
                (
                  sym (count-take_out owes_up i s.threads t rest out),
                  sym (count-take_out owes_down i s.threads t rest out),
                )
                v)))
  ]

  Step-Counts : {n : ℕ} {s t : Calls E} → Step n s t → Counts s → Counts t
  Step-Counts (Threads.call o s few) v = begun-Counts o s v
  Step-Counts (Threads.progress i now s) v = advanced-Counts now i s v

  pub Reach-Counts :
      {n : ℕ} (max_size : ℤ) {s : Calls E} → Reach n (new_calls max_size) s → Counts s
  unfolding Lcache.new_generic
  Reach-Counts max_size Threads.here = record { distinct = tt; counted = refl }
  Reach-Counts max_size (Threads.next r st) = Step-Counts st (Reach-Counts max_size r)

  -- However the steps of any calls of a new cache interleave, the counter with the additions that
  -- calls still owe it is the number of entries, so it is the number of entries whenever no call is
  -- between its access to the map and that to the counter.
  pub calls_counted :
      (n : ℕ) (max_size : ℤ) (s : Calls E)
      → Reach n (new_calls max_size) s
      → plus s.cache.size (count owes_up s.threads)
        ≡ pos (length s.cache.backend + count owes_down s.threads)
  calls_counted n max_size s r = (Reach-Counts max_size r).counted
