-- ===== src/Lcache/Threads/Bound.antt =====
-- How far calls of `Set` that run side by side can overfill a response cache (lcache/cache.go).
use leng.Prelude.{
  ℕ, suc, ◌+◌, ◌≤◌, ◌≡◌, refl, sym, inl, inr, Bool, true, false, Option, none, some, List, [], ◌∷◌,
  ◌++◌, arith, if◌then◌else◌, Bool-cases, Option-cases, eq_iff, ok, err, length, take_out, count,
  count-take_out, pos, has, put, delete, has-put, has-delete-false, Text, comparable_text, to_lower,
  to_lower_idem,
}
use leng.Lcache
use leng.Lcache.{Entry, LEntry, LengCache}
use leng.Lcache.Errors.{cache_is_full}
use leng.Lcache.Threads
use leng.Lcache.Threads.{
  Call, Step, Reach, new_calls, Outcome, was_set, Calls, Thread, is_setting, full_test, exists_test,
  clock_read, swap, count_up, load, expiry_test, load_and_delete, count_down, finished,
}
use leng.Lcache.Threads.Counting.{Reach-Counts, Counts, owes_up, owes_down, IsCounted, count_behind}
use leng.Lcache.Threads.Coverage.{
  IsCovered, Covers, covered_length, All-take_out, All-behind, quiet, passes,
}

module _ {E : Type 0} ⦃en : Entry E⦄ where
  -- What a step has to show.
  abbrev Keeps : ℕ → ℕ → Thread E × LengCache E → List (Thread E) → Type 0
  Keeps n m r rest = IsCovered n m r.1 (r.0 ∷ rest)

  tested :
      {n m : ℕ} (b : Bool) (key : Text) (x : E) (rest : List (Thread E)) (c : LengCache E)
      → IsCovered n m c (full_test key x ∷ rest)
      → IsCounted c (count owes_up rest) (count owes_down rest)
      → Lcache.full c ≡ b
      → Keeps n m (if b then exists_test key x else clock_read key x, c) rest
  tested true key x rest c v w h = quiet _ _ rest c c v refl v.entries tt (omega arith)
  tested false key x rest c v w h = passes key x rest c v w h

  found :
      {n m : ℕ} (b : Bool) (key : Text) (x : E) (rest : List (Thread E)) (c : LengCache E)
      → IsCovered n m c (exists_test key x ∷ rest)
      → Lcache.exists (to_lower key) c ≡ b
      → Keeps n m (if b then clock_read key x else finished (was_set (err cache_is_full)), c) rest
  unfolding Lcache.exists
  found true key x rest c v h =
      quiet _ _ rest c c v refl v.entries
        (v.entries (to_lower key) (ground (arith, h, to_lower_idem key))) (omega arith)
  found false key x rest c v h = quiet _ _ rest c c v refl v.entries tt (omega arith)

  swapped_in :
      {n m : ℕ} (key : Text) (e : LEntry E) (rest : List (Thread E)) (c : LengCache E)
      (v : IsCovered n m c (swap key e ∷ rest)) (k : Text)
      → has k (put (to_lower key) e c.backend) ≡ true
      → has k v.keys ≡ true
  swapped_in key e rest c v k h = ground (
    arith,
    h,
    has-put (to_lower key) k e c.backend,
    eq_iff (to_lower key) k,
    v.coming.0,
    v.entries k,
  )

  swapped :
      {n m : ℕ} (b : Bool) (key : Text) (e : LEntry E) (rest : List (Thread E)) (c : LengCache E)
      → IsCovered n m c (swap key e ∷ rest)
      → Keeps n m
          (
            if b then finished (was_set (ok tt)) else count_up,
            record c { backend = put (to_lower key) e c.backend },
          )
          rest
  swapped true key e rest c v =
      quiet _ _ rest c _ v refl (swapped_in key e rest c v) tt (omega arith)
  swapped false key e rest c v =
      quiet _ _ rest c _ v refl (swapped_in key e rest c v) tt (omega arith)

  loaded :
      {n m : ℕ} (key k : Text) (o : Option (LEntry E)) (rest : List (Thread E)) (c : LengCache E)
      → IsCovered n m c (load key ∷ rest)
      → Keeps n m (Threads.loaded k o, c) rest
  unfolding Threads.loaded
  loaded key k none rest c v = quiet _ _ rest c c v refl v.entries tt (omega arith)
  loaded key k (some e) rest c v = quiet _ _ rest c c v refl v.entries tt (omega arith)

  deleted :
      {n m : ℕ} (b : Bool) (k : Text) (o : Outcome E) (rest : List (Thread E)) (c : LengCache E)
      → IsCovered n m c (load_and_delete k o ∷ rest)
      → Keeps n m
          (if b then (count_down o, record c { backend = delete k c.backend }) else (finished o, c))
          rest
  deleted true k o rest c v =
      quiet _ _ rest c _ v refl
        (λ j h.
          v.entries j
            (ground (arith, has-delete-false k j c.backend, Bool-cases (has j c.backend), h)))
        tt (omega arith)
  deleted false k o rest c v = quiet _ _ rest c c v refl v.entries tt (omega arith)

  expired :
      {n m : ℕ} (b : Bool) (k : Text) (e : LEntry E) (o : Outcome E) (r : Outcome E)
      (rest : List (Thread E)) (c : LengCache E)
      → IsCovered n m c (expiry_test k e ∷ rest)
      → Keeps n m (if b then load_and_delete k o else finished r, c) rest
  expired true k e o r rest c v = quiet _ _ rest c c v refl v.entries tt (omega arith)
  expired false k e o r rest c v = quiet _ _ rest c c v refl v.entries tt (omega arith)

  advance-Keeps :
      {n m : ℕ} (now : ℕ) (t : Thread E) (rest : List (Thread E)) (c : LengCache E)
      → IsCovered n m c (t ∷ rest)
      → IsCounted c (count owes_up (t ∷ rest)) (count owes_down (t ∷ rest))
      → Keeps n m (Threads.advance now t c) rest
  unfolding Threads.advance
  advance-Keeps now (full_test key x) rest c v w = tested _ key x rest c v w refl
  advance-Keeps now (exists_test key x) rest c v w = found _ key x rest c v refl
  advance-Keeps now (clock_read key x) rest c v w =
      quiet _ _ rest c c v refl v.entries v.coming.0 (omega arith)
  advance-Keeps now (swap key e) rest c v w = swapped _ key e rest c v
  advance-Keeps now count_up rest c v w = quiet _ _ rest c _ v refl v.entries tt (omega arith)
  advance-Keeps now (load key) rest c v w = loaded key _ _ rest c v
  advance-Keeps now (expiry_test k e) rest c v w = expired _ k e _ _ rest c v
  advance-Keeps now (load_and_delete k o) rest c v w = deleted _ k o rest c v
  advance-Keeps now (count_down o) rest c v w = quiet _ _ rest c _ v refl v.entries tt (omega arith)
  advance-Keeps now (finished o) rest c v w = quiet _ _ rest c c v refl v.entries tt (omega arith)

  behind-Covered :
      {n m : ℕ} (t : Thread E) (rest : List (Thread E)) (c : LengCache E)
      → IsCovered n m c (t ∷ rest)
      → IsCovered n m c (rest ++ t ∷ [])
  behind-Covered t rest c v = record {
    bound = v.bound;
    keys = v.keys;
    short = v.short;
    entries = v.entries;
    coming = All-behind (Covers v.keys) rest t v.coming;
    few = omega (arith, v.few, count_behind is_setting rest t);
  }

  out-Covered :
      {n m : ℕ} (i : ℕ) (ts : List (Thread E)) (t : Thread E) (rest : List (Thread E))
      (c : LengCache E)
      → take_out i ts ≡ some (t, rest)
      → IsCovered n m c ts
      → IsCovered n m c (t ∷ rest)
  out-Covered i ts t rest c out v = record {
    bound = v.bound;
    keys = v.keys;
    short = v.short;
    entries = v.entries;
    coming = All-take_out (Covers v.keys) i ts t rest out v.coming;
    few = omega (arith, v.few, count-take_out is_setting i ts t rest out);
  }

  begun-Covered :
      {n m : ℕ} (t : Thread E) (s : Calls E) (v : IsCovered n m s.cache s.threads)
      → Covers v.keys t
      → count is_setting (s.threads ++ t ∷ []) ≤ n
      → IsCovered n m s.cache (s.threads ++ t ∷ [])
  begun-Covered t s v h few = record {
    bound = v.bound;
    keys = v.keys;
    short = v.short;
    entries = v.entries;
    coming = All-behind (Covers v.keys) s.threads t (h, v.coming);
    few = few;
  }

  call-Covered :
      {n m : ℕ} (o : Call E) (s : Calls E)
      → IsCovered n m s.cache s.threads
      → count is_setting (s.threads ++ Threads.begin o ∷ []) ≤ n
      → IsCovered n m s.cache (s.threads ++ Threads.begin o ∷ [])
  unfolding Threads.begin
  call-Covered (Threads.get key) s v few = begun-Covered _ s v tt few
  call-Covered (Threads.set key none) s v few = begun-Covered _ s v tt few
  call-Covered (Threads.set key (some x)) s v few = begun-Covered _ s v tt few
  call-Covered (Threads.remove key) s v few = begun-Covered _ s v tt few

  abbrev Bounds : ℕ → ℕ → Calls E → Type 0
  Bounds n m s = IsCovered n m s.cache s.threads

  advanced-Bounds :
      {n m : ℕ} (now i : ℕ) (s : Calls E)
      → Bounds n m s
      → Counts s
      → Bounds n m (Threads.advance_one now (take_out i s.threads) s)
  unfolding Threads.advance_one
  advanced-Bounds now i s v w = elim (Option-cases (take_out i s.threads)) [
    | inl out ↦ rw (out, Threads.advance_one) v
    | inr ((t, rest), out) ↦
        rw (out, Threads.advance_one)
          (behind-Covered _ rest _ (
            advance-Keeps now t rest s.cache (out-Covered i s.threads t rest s.cache out v) (
              rw
                (
                  sym (count-take_out owes_up i s.threads t rest out),
                  sym (count-take_out owes_down i s.threads t rest out),
                )
                w)))
  ]

  Step-Bounds : {n m : ℕ} {s t : Calls E} → Step n s t → Counts s → Bounds n m s → Bounds n m t
  Step-Bounds (Threads.call o s few) w v = call-Covered o s v few
  Step-Bounds (Threads.progress i now s) w v = advanced-Bounds now i s v w

  Reach-Bounds : {n : ℕ} (m : ℕ) {s : Calls E} → Reach n (new_calls (pos (suc m))) s → Bounds n m s
  unfolding Lcache.new_generic has
  Reach-Bounds m Threads.here = record {
    bound = refl;
    keys = [];
    short = omega arith;
    entries = λ k h. h;
    coming = tt;
    few = omega arith;
  }
  Reach-Bounds m (Threads.next r st) =
      Step-Bounds st (Reach-Counts (pos (suc m)) r) (Reach-Bounds m r)

  -- If at most `n` calls of `Set` are under way at once, a cache with a bound of `m` + 1 entries never
  -- holds more than `m` + `n`, however the steps of its calls interleave: the bound is kept by calls
  -- of `Set` one at a time, and each further one that runs beside adds at most one entry.
  pub calls_bounded :
      (n m : ℕ) (s : Calls E) → Reach n (new_calls (pos (suc m))) s → length s.cache.backend ≤ m + n
  calls_bounded n m s r =
      let v = Reach-Bounds m r in
      let covered =
        covered_length s.cache.backend v.keys (Reach-Counts (pos (suc m)) r).distinct v.entries in
      omega (arith, covered, v.short)
