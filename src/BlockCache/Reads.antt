-- ===== src/BlockCache/Reads.antt =====
-- Reads and removals of the block list (cache.go).
use leng.Prelude.{
  ◌≡◌, inl, inr, Bool, true, false, none, some, arith, if◌then◌else◌, Option-cases, eq_refl, ok,
  err, has, delete, Distinct, lookup-put, has-put, has-lookup, lookup-delete, Text, comparable_text,
  to_lower,
}
use leng.BlockCache
use leng.BlockCache.{MemoryBlockCache, Matchers, KeyNotFound, key_not_found, is_regexp, is_glob}

module _ (m : Matchers) where
  -- What `Get` reads back right after a `Set` of the same key: the value for an exact name, true
  -- for a glob and for a regular expression that compiles.
  pub get-set_self :
      (key : Text) (value : Bool) (c : MemoryBlockCache)
      → BlockCache.get key (BlockCache.set m key value c) ≡ (
          if is_regexp key
          then (if elim (m.compile (BlockCache.without_first key)) [
            | none ↦ has key c.special
            | some re ↦ true
          ]
              then ok true
              else err (key_not_found key))
          else ok (if is_glob key then true else value))
  unfolding BlockCache.get BlockCache.set BlockCache.set_regexp BlockCache.found
  get-set_self key value c = elim (Option-cases (m.compile (BlockCache.without_first key))) [
    | inl bad ↦
        rw (bad, BlockCache.set_regexp)
          (ground (
            arith,
            has-put (to_lower key) (to_lower key) none c.special,
            lookup-put (to_lower key) (to_lower key) value c.backend,
            eq_refl (to_lower key),
          ))
    | inr (re, good) ↦
        rw (good, BlockCache.set_regexp)
          (ground (
            arith,
            has-put key key (some re) c.special,
            has-put (to_lower key) (to_lower key) none c.special,
            lookup-put (to_lower key) (to_lower key) value c.backend,
            eq_refl key,
            eq_refl (to_lower key),
          ))
  ]

  -- After a removal `Get` does not find the key.
  get-remove_self :
      (key : Text) (c : MemoryBlockCache)
      → Distinct c.backend
      → Distinct c.special
      → BlockCache.get key (BlockCache.remove key c)
        ≡ err (key_not_found (if is_regexp key then key else to_lower key))
  unfolding BlockCache.get BlockCache.remove BlockCache.found
  get-remove_self key c db ds = ground (
    arith,
    lookup-delete key key c.special ds,
    lookup-delete (to_lower key) (to_lower key) c.special ds,
    lookup-delete (to_lower key) (to_lower key) c.backend db,
    has-lookup key (delete key c.special),
    has-lookup (to_lower key) (delete (to_lower key) c.special),
    eq_refl key,
    eq_refl (to_lower key),
  )

  -- A name that `Get` finds among the exact names is blocked, also where the value found is false.
  get-exists :
      (key : Text) (value : Bool) (c : MemoryBlockCache)
      → is_regexp key ≡ false
      → is_glob key ≡ false
      → BlockCache.get key c ≡ ok value
      → BlockCache.exists m key c ≡ true
  unfolding BlockCache.get BlockCache.found BlockCache.exists
  get-exists key value c plain exact h = ground (arith, has-lookup (to_lower key) c.backend)
