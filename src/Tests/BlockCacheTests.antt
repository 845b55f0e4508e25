-- ===== src/Tests/BlockCacheTests.antt =====
-- The block list at concrete inputs: an exact name, a glob and a regular expression.
use leng.Prelude.{
  ◌≡◌, refl, Bool, true, false, none, some, List, [], ◌∷◌, ok, any, lookup, has, put, delete, Text,
  bytes, text_beq, comparable_text, lower_byte, to_lower, has_prefix, contains_any,
}
use leng.BlockCache
use leng.BlockCache.{
  Matchers, MemoryBlockCache, KeyNotFound, key_not_found, empty, is_regexp, is_glob,
}
use mathlib.Core.List.{Permᴰ}
use mathlib.Core.Quot
use leng.BlockCache.Order.{blocks, blocks-set_all}
use leng.BlockCache.Rules.{covers, set_all}
use leng.BlockCache.Reads.{get-set_self}

-- Every expression that compiles matches the names that begin with it; a glob matches all names.
abbrev matchers : Matchers
matchers = record {
  compile = λ s. elim s [ [] ↦ none | c ∷ r ↦ some (λ name. has_prefix name (c ∷ r)) ];
  glob = λ p s. true;
}

program : Unit {0}
unfolding BlockCache.set BlockCache.set_regexp BlockCache.without_first BlockCache.get
    BlockCache.found BlockCache.exists BlockCache.scan_special BlockCache.remove covers set_all
    has_prefix contains_any lookup has put delete to_lower lower_byte text_beq
program = tt

abbrev rules : List (Text × Bool)
rules = (bytes "Ads.test", true) ∷ (bytes "~track", true) ∷ (bytes "~", true) ∷ []

tracker_blocked :
    BlockCache.exists matchers (bytes "TRACKER.test") (set_all matchers rules empty) ≡ true
unfolding program
tracker_blocked = refl

get-set_self_example :
    BlockCache.get (bytes "AB") (BlockCache.set matchers (bytes "AB") false empty) ≡ ok false
unfolding program
get-set_self_example = get-set_self matchers (bytes "AB") false empty

blocks-set_all_example :
    blocks matchers (bytes "TRACKER.test") (
      Quot.mk (
        set_all matchers
          ((bytes "~track", true) ∷ (bytes "Ads.test", true) ∷ (bytes "~", true) ∷ [])
          empty))
    ≡ any (λ r. covers matchers r.0 (to_lower (bytes "TRACKER.test"))) rules
blocks-set_all_example =
    blocks-set_all matchers (bytes "TRACKER.test") rules
      ((bytes "~track", true) ∷ (bytes "Ads.test", true) ∷ (bytes "~", true) ∷ [])
      ∣ Permᴰ.swap refl refl ∣₁
