-- ===== src/BlockCache.antt =====
-- `MemoryBlockCache` of cache.go: the block list. The lock makes each operation one step. The
-- packages regexp and go-glob are parameters: a compiled expression is the test that it makes.
pub mod Rules
pub mod Reads
pub mod Order
use leng.Prelude.{
  ℕ, Bool, true, false, Option, none, some, [], ◌∷◌, if◌then◌else◌, Result, ok, err, length, GoMap,
  lookup, has, put, delete, Text, bytes, comparable_text, to_lower, has_prefix, contains_any,
}

-- regexp.Compile with MatchString, and glob.Glob
pub record Matchers : Type 0 where
  pub compile : Text → Option (Text → Bool)
  pub glob : Text → Text → Bool

-- In `special` a nil expression stands for a glob pattern.
pub record MemoryBlockCache : Type 0 where
  pub backend : GoMap Text Bool
  pub special : GoMap Text (Option (Text → Bool))

-- `&MemoryBlockCache{Backend: make(...), Special: make(...)}`
abbrev pub empty : MemoryBlockCache
empty = record { backend = []; special = [] }

pub data KeyNotFound : Type 0 where
  key_not_found : Text → KeyNotFound

abbrev pub glob_chars : Text
glob_chars = bytes "*?"

-- strings.HasPrefix(key, "~")
abbrev pub is_regexp : Text → Bool
is_regexp key = has_prefix key (bytes "~")

-- strings.ContainsAny(key, globChars)
abbrev pub is_glob : Text → Bool
is_glob key = contains_any key glob_chars

-- string([]rune(key)[1:])
unfoldable pub without_first : Text → Text
without_first [] = []
without_first (c ∷ s) = s

unfoldable pub found : Text → Option Bool → Result KeyNotFound Bool
found key none = err (key_not_found key)
found key (some val) = ok val

unfoldable pub get : Text → MemoryBlockCache → Result KeyNotFound Bool
get key c =
    if is_regexp key
    then found key (if has key c.special then some true else none)
    else if is_glob key
    then found (to_lower key) (if has (to_lower key) c.special then some true else none)
    else found (to_lower key) (lookup (to_lower key) c.backend)

unfoldable pub remove : Text → MemoryBlockCache → MemoryBlockCache
remove key c =
    if is_regexp key
    then record c { special = delete key c.special }
    else if is_glob key
    then record c { special = delete (to_lower key) c.special }
    else record c { backend = delete (to_lower key) c.backend }

unfoldable pub set_regexp : Text → Option (Text → Bool) → MemoryBlockCache → MemoryBlockCache
set_regexp key none c = c
set_regexp key (some re) c = record c { special = put key (some re) c.special }

-- `Set`, which always returns nil.
unfoldable pub set : Matchers → Text → Bool → MemoryBlockCache → MemoryBlockCache
set m key value c =
    if is_regexp key
    then set_regexp key (m.compile (without_first key)) c
    else if is_glob key
    then record c { special = put (to_lower key) none c.special }
    else record c { backend = put (to_lower key) value c.backend }

-- One entry of `special` against a key.
abbrev pub hits : Matchers → Text → Text → Option (Text → Bool) → Bool
hits m key pattern none = m.glob pattern key
hits m key pattern (some re) = re key

-- The loop of `Exists`, which runs to its end.
unfoldable pub scan_special : Matchers → Text → Bool → GoMap Text (Option (Text → Bool)) → Bool
scan_special m key found [] = found
scan_special m key found ((pattern, regex) ∷ rest) =
    scan_special m key (if hits m key pattern regex then true else found) rest

unfoldable pub exists : Matchers → Text → MemoryBlockCache → Bool
exists m key c =
    let k = to_lower key in if has k c.backend then true else scan_special m k false c.special

-- `Length`: the special entries do not count.
unfoldable pub len : MemoryBlockCache → ℕ
len c = length c.backend
