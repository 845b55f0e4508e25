-- ===== src/Updater/Blocking.antt =====
-- What the names in hosts files and in the configuration block (updater.go).
use leng.Prelude.{
  ◌≡◌, sym, ◌∙◌, inl, inr, Bool, true, false, not, ◌&&◌, ◌||◌, Option, none, some, List, [], ◌∷◌,
  arith, Bool-cases, ◌==◌, eq_iff, eq_refl, ok-injective, ok, any, GoMap, Text, comparable_text,
  to_lower,
}
use leng.BlockCache
use leng.BlockCache.{MemoryBlockCache, Matchers, is_regexp, is_glob}
use leng.BlockCache.Rules.{IsValid, covers, set-IsValid, exists-set}
use leng.Updater
use leng.Updater.{add_name, is_whitelisted}
use leng.Updater.Totality.{line_name, add_named, add_all, add_lines_lem}

module _ (m : Matchers) (whitelist : GoMap Text Bool) where
  add_name-IsValid :
      (name : Text) (c : MemoryBlockCache) → IsValid m c → IsValid m (add_name m whitelist name c)
  unfolding add_name
  add_name-IsValid name c v =
      elim (Bool-cases (not (BlockCache.exists m name c) && not (is_whitelisted name whitelist))) [
        | inl e ↦ rw e (set-IsValid m name true c v)
        | inr e ↦ rw e v
      ]

  -- What one name adds: what it covers as a rule, unless it is blocked or white-listed already.
  add_name-exists :
      (name other : Text) (c : MemoryBlockCache)
      → IsValid m c
      → BlockCache.exists m other (add_name m whitelist name c) ≡ (
          (not (BlockCache.exists m name c)
            && not (is_whitelisted name whitelist)
            && covers m name (to_lower other))
          || BlockCache.exists m other c)
  unfolding add_name
  add_name-exists name other c v =
      elim (Bool-cases (not (BlockCache.exists m name c) && not (is_whitelisted name whitelist))) [
        | inl e ↦ rw e (exists-set m name other true c v ∙ ground (arith, e))
        | inr e ↦ rw e (ground (arith, e))
      ]

  add_named-IsValid :
      (n : Option Text) (c : MemoryBlockCache) → IsValid m c → IsValid m (add_named m whitelist n c)
  unfolding add_named
  add_named-IsValid none c v = v
  add_named-IsValid (some name) c v = add_name-IsValid name c v

  -- What a line may block: what its name covers, unless the name is white-listed.
  unfoldable pub name_covers : Option Text → Text → Bool
  name_covers none other = false
  name_covers (some name) other =
      not (is_whitelisted name whitelist) && covers m name (to_lower other)

  unfoldable pub line_covers : Text → Text → Bool
  line_covers line other = name_covers (line_name line) other

  add_named_mono :
      (n : Option Text) (other : Text) (c : MemoryBlockCache)
      → IsValid m c
      → BlockCache.exists m other c ≡ true
      → BlockCache.exists m other (add_named m whitelist n c) ≡ true
  unfolding add_named
  add_named_mono none other c v h = h
  add_named_mono (some name) other c v h = ground (arith, add_name-exists name other c v)

  add_named_sound :
      (n : Option Text) (other : Text) (c : MemoryBlockCache)
      → IsValid m c
      → BlockCache.exists m other (add_named m whitelist n c) ≡ true
      → (name_covers n other || BlockCache.exists m other c) ≡ true
  unfolding add_named name_covers
  add_named_sound none other c v h = h
  add_named_sound (some name) other c v h = ground (arith, add_name-exists name other c v)

  pub add_all-IsValid :
      (lines : List Text) (c : MemoryBlockCache)
      → IsValid m c
      → IsValid m (add_all m whitelist lines c)
  unfolding add_all
  add_all-IsValid [] c v = v
  add_all-IsValid (line ∷ lines) c v =
      add_all-IsValid lines (add_named m whitelist (line_name line) c)
        (add_named-IsValid (line_name line) c v)

  pub add_all_mono :
      (lines : List Text) (other : Text) (c : MemoryBlockCache)
      → IsValid m c
      → BlockCache.exists m other c ≡ true
      → BlockCache.exists m other (add_all m whitelist lines c) ≡ true
  unfolding add_all
  add_all_mono [] other c v h = h
  add_all_mono (line ∷ lines) other c v h =
      add_all_mono lines other (add_named m whitelist (line_name line) c)
        (add_named-IsValid (line_name line) c v) (add_named_mono (line_name line) other c v h)

  add_all_sound :
      (lines : List Text) (other : Text) (c : MemoryBlockCache)
      → IsValid m c
      → BlockCache.exists m other (add_all m whitelist lines c) ≡ true
      → (any (λ line. line_covers line other) lines || BlockCache.exists m other c) ≡ true
  unfolding add_all line_covers
  add_all_sound [] other c v h = h
  add_all_sound (line ∷ lines) other c v h = ground (
    arith,
    add_named_sound (line_name line) other c v,
    add_all_sound lines other (add_named m whitelist (line_name line) c)
        (add_named-IsValid (line_name line) c v) h,
  )

  -- A line that gives the name.
  unfoldable pub gives : Text → Text → Bool
  gives name line = elim (line_name line) [ none ↦ false | some n ↦ n == name ]

  covers_self :
      (name : Text)
      → is_regexp name ≡ false
      → is_glob name ≡ false
      → covers m name (to_lower name) ≡ true
  unfolding covers
  covers_self name r g = rw (r, g) (eq_refl (to_lower name))

  add_named_blocks :
      (n : Option Text) (name : Text) (c : MemoryBlockCache)
      → IsValid m c
      → is_regexp name ≡ false
      → is_glob name ≡ false
      → is_whitelisted name whitelist ≡ false
      → (elim n [ none ↦ false | some k ↦ k == name ]) ≡ true
      → BlockCache.exists m name (add_named m whitelist n c) ≡ true
  unfolding add_named
  add_named_blocks none name c v r g w h = cc
  add_named_blocks (some k) name c v r g w h =
      let e = (eq_iff k name).0 h in
      rw e (ground (arith, add_name-exists name name c v, covers_self name r g))

  add_all_blocks :
      (lines : List Text) (name : Text) (c : MemoryBlockCache)
      → IsValid m c
      → is_regexp name ≡ false
      → is_glob name ≡ false
      → is_whitelisted name whitelist ≡ false
      → any (gives name) lines ≡ true
      → BlockCache.exists m name (add_all m whitelist lines c) ≡ true
  unfolding add_all gives
  add_all_blocks [] name c v r g w h = cc
  add_all_blocks (line ∷ lines) name c v r g w h =
      let v' = add_named-IsValid (line_name line) c v in
      elim (Bool-cases (elim (line_name line) [ none ↦ false | some n ↦ n == name ])) [
        | inl e ↦
            add_all_mono lines name (add_named m whitelist (line_name line) c) v'
              (add_named_blocks (line_name line) name c v r g w e)
        | inr e ↦
            add_all_blocks lines name (add_named m whitelist (line_name line) c) v' r g w
              (ground (arith, h, e))
      ]

  -- The loop over lines that were read of a hosts file into a well-formed block list succeeds, whatever
  -- the lines are, and every name that a line gives is blocked then, if it is neither an expression nor a glob and is not white-listed.
  pub add_lines_blocks :
      (lines : List Text) (name : Text) (c : MemoryBlockCache)
      → IsValid m c
      → is_regexp name ≡ false
      → is_glob name ≡ false
      → is_whitelisted name whitelist ≡ false
      → any (gives name) lines ≡ true
      → (c' : MemoryBlockCache) × (Updater.add_lines m whitelist lines c ≡ ok c')
        × (BlockCache.exists m name c' ≡ true)
  add_lines_blocks lines name c v r g w h = (
    add_all m whitelist lines c,
    add_lines_lem m whitelist lines c,
    add_all_blocks lines name c v r g w h,
  )

  -- After the scan of a hosts file into a well-formed block list, a name is blocked only if it was
  -- before or if a name that one of the lines gives covers it and is not white-listed.
  pub add_lines_sound :
      (lines : List Text) (other : Text) (c c' : MemoryBlockCache)
      → IsValid m c
      → Updater.add_lines m whitelist lines c ≡ ok c'
      → BlockCache.exists m other c' ≡ true
      → (any (λ line. line_covers line other) lines || BlockCache.exists m other c) ≡ true
  add_lines_sound lines other c c' v e h =
      add_all_sound lines other c v
        (rw (ok-injective (sym (add_lines_lem m whitelist lines c) ∙ e)) h)
