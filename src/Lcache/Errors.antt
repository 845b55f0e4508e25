-- ===== src/Lcache/Errors.antt =====
-- The errors of lcache/errors.go, and their texts.
use leng.Prelude.{Text, bytes, ◌++◌}

pub data CacheError : Type 0 where
  key_not_found : Text → CacheError
  key_expired : Text → CacheError
  cache_is_full : CacheError

pub error : CacheError → Text
error (key_not_found key) = key ++ bytes " " ++ bytes "not found"
error (key_expired key) = key ++ bytes " " ++ bytes "expired"
error cache_is_full = bytes "cache is Full"
