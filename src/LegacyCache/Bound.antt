-- ===== src/LegacyCache/Bound.antt =====
-- The bound of lengCache (cache.go).
use leng.Prelude.{
  ℕ, zero, suc, ◌≡◌, refl, inl, inr, Bool, false, ◌&&◌, Option, none, some, List, [], ◌∷◌, arith,
  Bool-cases, ok, decr, is_positive, ℤ, pos, negsuc, has, Text, comparable_text, to_lower,
}
use leng.Dns.{Msg}
use leng.LegacyCache
use leng.LegacyCache.{LengCache, Finding, Mesg}

-- One call of a method, with its arguments.
pub data Op : Type 0 where
  call_get : Text → ℕ → Op
  call_set : Text → Option Msg → Bool → ℕ → Op
  call_remove : Text → Op
  call_length call_full : Op

-- The cache after the call; a call that panics is taken as recovered from.
unfoldable pub run_op : Op → LengCache → LengCache
run_op (call_get key now) c = (LegacyCache.leng_get key now c).1
run_op (call_set key msg blocked now) c = (LegacyCache.leng_set key msg blocked now c).1
run_op (call_remove key) c = LegacyCache.leng_remove key c
run_op call_length c = (LegacyCache.leng_len c).1
run_op call_full c = c

unfoldable pub run_ops : List Op → LengCache → LengCache
run_ops [] c = c
run_ops (op ∷ ops) c = run_ops ops (run_op op c)

-- The size has not been raised, and the flag stands only where there is no bound.
pub record Unbounded (c : LengCache) : Type 0 where
  pub size : is_positive c.size ≡ false
  pub flag : (is_positive c.max_size && c.is_full) ≡ false

decr_positive : (n : ℤ) → is_positive n ≡ false → is_positive (decr n) ≡ false
decr_positive (pos zero) h = refl
decr_positive (pos (suc n)) h = ground arith
decr_positive (negsuc n) h = refl

below : (m n : ℤ) → is_positive n ≡ false → (is_positive m && LegacyCache.ltb_ℤ m n) ≡ false
unfolding LegacyCache.ltb_ℤ
below (pos m) (pos n) h = ground arith
below (pos m) (negsuc n) h = ground arith
below (negsuc m) n h = refl

leng_remove-Unbounded :
    (key : Text) (c : LengCache) → Unbounded c → Unbounded (LegacyCache.leng_remove key c)
unfolding LegacyCache.leng_remove
leng_remove-Unbounded key c u = elim (Bool-cases (has key c.backend)) [
  | inl e ↦ rw e (record { size = decr_positive c.size u.size; flag = ground (arith, u.flag) })
  | inr e ↦ rw e u
]

leng_finish_get-Unbounded :
    (key : Text) (f : Finding) (c : LengCache)
    → Unbounded c
    → Unbounded (LegacyCache.leng_finish_get key f c).1
unfolding LegacyCache.leng_finish_get
leng_finish_get-Unbounded key LegacyCache.nil_message c u = leng_remove-Unbounded key c u
leng_finish_get-Unbounded key LegacyCache.too_old c u = leng_remove-Unbounded key c u
leng_finish_get-Unbounded key (LegacyCache.aged msg mesg) c u = record {
  size = u.size;
  flag = u.flag;
}

leng_get_found-Unbounded :
    (key : Text) (now : ℕ) (o : Option Mesg) (c : LengCache)
    → Unbounded c
    → Unbounded (LegacyCache.leng_get_found key now o c).1
unfolding LegacyCache.leng_get_found
leng_get_found-Unbounded key now none c u = u
leng_get_found-Unbounded key now (some mesg) c u = leng_finish_get-Unbounded key _ c u

run_op-Unbounded : (op : Op) (c : LengCache) → Unbounded c → Unbounded (run_op op c)
unfolding run_op LegacyCache.leng_set LegacyCache.leng_len LegacyCache.leng_full
    LegacyCache.leng_get
run_op-Unbounded (call_get key now) c u = leng_get_found-Unbounded (to_lower key) now _ c u
run_op-Unbounded (call_set key msg blocked now) c u =
    rw (run_op, u.flag) (record { size = u.size; flag = u.flag })
run_op-Unbounded (call_remove key) c u = leng_remove-Unbounded key c u
run_op-Unbounded call_length c u = record { size = u.size; flag = below c.max_size c.size u.size }
run_op-Unbounded call_full c u = u

run_ops-Unbounded : (ops : List Op) (c : LengCache) → Unbounded c → Unbounded (run_ops ops c)
unfolding run_ops
run_ops-Unbounded [] c u = u
run_ops-Unbounded (op ∷ ops) c u = run_ops-Unbounded ops (run_op op c) (run_op-Unbounded op c u)

-- Whatever calls a new lengCache of any bound has seen, it is not full and accepts every Set.
pub leng_set_never_refused :
    (ops : List Op) (max_size : ℤ) (key : Text) (msg : Option Msg) (blocked : Bool) (now : ℕ)
    → (LegacyCache.leng_full (run_ops ops (LegacyCache.new_cache max_size)) ≡ false)
      × ((LegacyCache.leng_set key msg blocked now (run_ops ops (LegacyCache.new_cache max_size))).0
          ≡ ok tt)
unfolding LegacyCache.leng_full LegacyCache.leng_set LegacyCache.new_cache
leng_set_never_refused ops max_size key msg blocked now =
    let u =
      run_ops-Unbounded ops (LegacyCache.new_cache max_size)
        (record { size = refl; flag = ground arith }) in
    (u.flag, rw u.flag refl)
