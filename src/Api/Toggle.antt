-- ===== src/Api/Toggle.antt =====
-- What the endpoint that sets a key does to the block list (api.go).
use leng.Prelude.{
  ◌≡◌, refl, inl, inr, true, false, not, ◌&&◌, arith, if◌then◌else◌, Bool-cases, Option-cases, ◌==◌,
  lookup, has, has-lookup, Text, comparable_text, to_lower,
}
use leng.BlockCache
use leng.BlockCache.{MemoryBlockCache, Matchers, is_regexp, is_glob}
use leng.Api
use leng.Api.{ApiState}

is_not_found-get :
    (key : Text) (c : MemoryBlockCache)
    → is_regexp key ≡ false
    → is_glob key ≡ false
    → Api.is_not_found key (BlockCache.get key c)
      ≡ (to_lower key == key && not (has (to_lower key) c.backend))
unfolding BlockCache.get BlockCache.found Api.is_not_found
is_not_found-get key c r g = elim (Option-cases (lookup (to_lower key) c.backend)) [
  | inl e ↦ rw (r, g, e, has-lookup (to_lower key) c.backend, e) (ground arith)
  | inr (v, e) ↦ rw (r, g, e, has-lookup (to_lower key) c.backend, e) (ground arith)
]

-- For a key that is neither an expression nor a glob the endpoint sets the key if it is in lower
-- case and not in the block list, and removes it otherwise: a key with an upper-case letter is
-- never set.
pub set_endpoint_lem :
    (m : Matchers) (key : Text) (s : ApiState)
    → is_regexp key ≡ false
    → is_glob key ≡ false
    → (Api.set_endpoint m key s).block_cache ≡ (
        if to_lower key == key && not (has (to_lower key) s.block_cache.backend)
        then BlockCache.set m key true s.block_cache
        else BlockCache.remove key s.block_cache)
unfolding Api.set_endpoint
set_endpoint_lem m key s r g =
    rw (is_not_found-get key s.block_cache r g)
      (elim (Bool-cases (to_lower key == key && not (has (to_lower key) s.block_cache.backend))) [
        | inl e ↦ rw e refl
        | inr e ↦ rw e refl
      ])
