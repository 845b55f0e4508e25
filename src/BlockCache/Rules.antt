-- ===== src/BlockCache/Rules.antt =====
-- The block list as a set of rules (cache.go): what `Exists` answers after any sequence of writes.
use leng.Prelude.{
  ℕ, ◌≡◌, refl, sym, ap, ◌∙◌, inl, inr, Bool, true, false, ◌&&◌, ◌||◌, Option, none, some, List, [],
  ◌∷◌, arith, nat_beq, if◌then◌else◌, Bool-cases, Option-cases, ◌==◌, eq_iff, any, GoMap, lookup,
  has, put, lookup-put, has-put, Text, comparable_text, lower_byte, to_lower, has_prefix,
}
use leng.BlockCache
use leng.BlockCache.{MemoryBlockCache, Matchers, is_regexp, is_glob, hits, empty}

-- A rule by regular expression that does not compile covers nothing.
unfoldable pub covers_regexp : Option (Text → Bool) → Text → Bool
covers_regexp none name = false
covers_regexp (some re) name = re name

module _ (m : Matchers) where
  -- Which lower-case names a rule of the block list covers: a rule that begins with ~ by its
  -- regular expression, if that compiles; one with a glob character by its pattern in lower case;
  -- any other the one name that it is in lower case.
  unfoldable pub covers : Text → Text → Bool
  covers rule name =
      if is_regexp rule
      then covers_regexp (m.compile (BlockCache.without_first rule)) name
      else if is_glob rule
      then m.glob (to_lower rule) name
      else to_lower rule == name

  -- The matcher that a key of `special` stands for.
  pub matcher : Text → Option (Text → Bool)
  matcher key = if is_regexp key then m.compile (BlockCache.without_first key) else none

  unfoldable pub any_hit : Text → GoMap Text (Option (Text → Bool)) → Bool
  any_hit name l = any (λ e. hits m name e.0 e.1) l

  scan_special-any :
      (name : Text) (found : Bool) (l : GoMap Text (Option (Text → Bool)))
      → BlockCache.scan_special m name found l ≡ (found || any_hit name l)
  unfolding BlockCache.scan_special any_hit
  scan_special-any name true [] = refl
  scan_special-any name false [] = refl
  scan_special-any name found ((p, r) ∷ l) =
      ground (arith, scan_special-any name true l, scan_special-any name found l)

  -- Each special entry holds the matcher of its key.
  pub record IsValid (c : MemoryBlockCache) : Type 0 where
    pub special :
        (k : Text) (r : Option (Text → Bool)) → lookup k c.special ≡ some r → r ≡ matcher k

  hit_present :
      (name k : Text) (r : Option (Text → Bool)) (l : GoMap Text (Option (Text → Bool)))
      → lookup k l ≡ some r
      → hits m name k r ≡ true
      → any_hit name l ≡ true
  unfolding lookup any_hit
  hit_present name k r [] p h = cc
  hit_present name k r ((j, s) ∷ l) p h = ground (arith, eq_iff j k, hit_present name k r l)

  any_hit-put :
      (name k : Text) (r : Option (Text → Bool)) (l : GoMap Text (Option (Text → Bool)))
      → ((s : Option (Text → Bool)) → lookup k l ≡ some s → s ≡ r)
      → any_hit name (put k r l) ≡ (hits m name k r || any_hit name l)
  unfolding lookup put any_hit
  any_hit-put name k r [] same = refl
  any_hit-put name k r ((j, s) ∷ l) same =
      ground (arith, eq_iff j k, same s, any_hit-put name k r l)

lower_byte-tilde : (c : ℕ) → nat_beq (lower_byte c) b'~' ≡ nat_beq c b'~'
unfolding lower_byte
lower_byte-tilde c = ground arith

is_regexp-to_lower : (s : Text) → is_regexp (to_lower s) ≡ is_regexp s
unfolding has_prefix to_lower
is_regexp-to_lower [] = refl
is_regexp-to_lower (c ∷ s) = ap (λ b. b && has_prefix (to_lower s) []) (lower_byte-tilde c)

module _ (m : Matchers) where
  matcher-glob : (key : Text) → is_regexp key ≡ false → matcher m (to_lower key) ≡ none
  unfolding matcher
  matcher-glob key h = rw (is_regexp-to_lower key, h) refl

  pub empty-IsValid : IsValid m empty
  unfolding lookup
  empty-IsValid = record { special = λ k r h. cc }

  put-IsValid :
      (k : Text) (r : Option (Text → Bool)) (c : MemoryBlockCache)
      → r ≡ matcher m k
      → IsValid m c
      → IsValid m (record c { special = put k r c.special })
  put-IsValid k r c e v = record {
    special = λ j s h. ground (arith, lookup-put k j r c.special, v.special j s, eq_iff k j);
  }

  set_regexp-IsValid :
      (key : Text) (c : MemoryBlockCache)
      → is_regexp key ≡ true
      → IsValid m c
      → IsValid m (BlockCache.set_regexp key (m.compile (BlockCache.without_first key)) c)
  unfolding BlockCache.set_regexp
  set_regexp-IsValid key c tilde v =
      elim (Option-cases (m.compile (BlockCache.without_first key))) [
        | inl bad ↦ rw (bad, BlockCache.set_regexp) v
        | inr (re, good) ↦
            rw (good, BlockCache.set_regexp)
              (put-IsValid key (some re) c (unfold matcher in rw (tilde, good)) v)
      ]

  pub set-IsValid :
      (key : Text) (value : Bool) (c : MemoryBlockCache)
      → IsValid m c
      → IsValid m (BlockCache.set m key value c)
  unfolding BlockCache.set
  set-IsValid key value c v = elim (Bool-cases (is_regexp key)) [
    | inl tilde ↦ rw tilde (set_regexp-IsValid key c tilde v)
    | inr plain ↦ elim (Bool-cases (is_glob key)) [
      | inl star ↦
          rw (plain, star) (put-IsValid (to_lower key) none c (sym (matcher-glob key plain)) v)
      | inr exact ↦ rw (plain, exact) (record { special = v.special })
    ]
  ]

  pub exists-any :
      (name : Text) (c : MemoryBlockCache)
      → BlockCache.exists m name c
        ≡ (has (to_lower name) c.backend || any_hit m (to_lower name) c.special)
  unfolding BlockCache.exists
  exists-any name c = ground (arith, scan_special-any m (to_lower name) false c.special)

  set_regexp-exists :
      (key name : Text) (c : MemoryBlockCache)
      → is_regexp key ≡ true
      → IsValid m c
      → BlockCache.exists m name
          (BlockCache.set_regexp key (m.compile (BlockCache.without_first key)) c)
        ≡ (covers_regexp (m.compile (BlockCache.without_first key)) (to_lower name)
            || BlockCache.exists m name c)
  unfolding BlockCache.set_regexp covers_regexp
  set_regexp-exists key name c tilde v =
      elim (Option-cases (m.compile (BlockCache.without_first key))) [
        | inl bad ↦ rw (bad, BlockCache.set_regexp, covers_regexp)
        | inr (re, good) ↦
            rw
              (
                good,
                BlockCache.set_regexp,
                covers_regexp,
                exists-any,
                exists-any,
                any_hit-put m (to_lower name) key (some re) c.special
                    (λ s p. v.special key s p ∙ unfold matcher in rw (tilde, good)),
              )
              (ground arith)
      ]

  -- A write of a rule adds what the rule covers to what the block list holds, and nothing else.
  pub exists-set :
      (key name : Text) (value : Bool) (c : MemoryBlockCache)
      → IsValid m c
      → BlockCache.exists m name (BlockCache.set m key value c)
        ≡ (covers m key (to_lower name) || BlockCache.exists m name c)
  unfolding BlockCache.set covers
  exists-set key name value c v = elim (Bool-cases (is_regexp key)) [
    | inl tilde ↦ rw tilde (set_regexp-exists key name c tilde v)
    | inr plain ↦ elim (Bool-cases (is_glob key)) [
      | inl star ↦
          rw
            (
              plain,
              star,
              exists-any,
              exists-any,
              any_hit-put m (to_lower name) (to_lower key) none c.special
                  (λ s p. v.special (to_lower key) s p ∙ matcher-glob key plain),
            )
            (ground arith)
      | inr exact ↦ rw (plain, exact, exists-any, exists-any, has-put) (ground arith)
    ]
  ]

  -- One `Set` after another.
  unfoldable pub set_all : List (Text × Bool) → MemoryBlockCache → MemoryBlockCache
  set_all [] c = c
  set_all ((key, value) ∷ rules) c = set_all rules (BlockCache.set m key value c)

  set_all-exists :
      (rules : List (Text × Bool)) (name : Text) (c : MemoryBlockCache)
      → IsValid m c
      → BlockCache.exists m name (set_all rules c)
        ≡ (any (λ r. covers m r.0 (to_lower name)) rules || BlockCache.exists m name c)
  unfolding set_all
  set_all-exists [] name c v = refl
  set_all-exists ((key, value) ∷ rules) name c v =
      rw
        (
          set_all-exists rules name (BlockCache.set m key value c) (set-IsValid key value c v),
          exists-set key name value c v,
        )
        (ground arith)

  exists-empty : (name : Text) → BlockCache.exists m name empty ≡ false
  unfolding BlockCache.exists BlockCache.scan_special has
  exists-empty name = refl

  -- After any writes into an empty block list, a name is blocked exactly when one of the rules
  -- written covers it in lower case, whatever their order, their repetitions and their values.
  pub exists-set_all :
      (rules : List (Text × Bool)) (name : Text)
      → BlockCache.exists m name (set_all rules empty)
        ≡ any (λ r. covers m r.0 (to_lower name)) rules
  exists-set_all rules name =
      rw (set_all-exists rules name empty empty-IsValid, exists-empty) (ground arith)
