-- ===== src/Api/Calls.antt =====
-- What a sequence of requests to the API leaves of the block list (api.go).
use leng.Prelude.{
  ◌≡◌, refl, sym, ap, ◌∙◌, inl, inr, Bool, true, false, not, ◌&&◌, ◌||◌, List, [], ◌∷◌, arith,
  if◌then◌else◌, Bool-cases, ◌==◌, eq_iff, eq_refl, All, GoMap, has, delete, Distinct, has-put,
  has-lookup, lookup-delete, put-Distinct, delete-Distinct, Text, comparable_text, to_lower,
}
use leng.BlockCache
use leng.BlockCache.{MemoryBlockCache, Matchers, is_regexp, is_glob}
use leng.Api
use leng.Api.{ApiState}
use leng.Api.Toggle.{set_endpoint_lem}
use leng.Api.Routes
use leng.Api.Routes.{Call, ApiServer}

-- A name in lower case that is neither an expression nor a glob.
abbrev pub is_plain : Text → Bool
is_plain key = not (is_regexp key) && not (is_glob key) && to_lower key == key

abbrev pub is_plain_call : Call → Bool
is_plain_call (Routes.get_remove key) = is_plain key
is_plain_call (Routes.get_set key) = is_plain key
is_plain_call _ = true

-- Whether a name is listed after the requests: a request to set it turns it over.
abbrev pub listed_after : Text → List Call → Bool → Bool
listed_after name [] b = b
listed_after name (Routes.get_set key ∷ cs) b =
    listed_after name cs (if key == name then not b else b)
listed_after name (Routes.get_remove key ∷ cs) b =
    listed_after name cs (if key == name then false else b)
listed_after name (c ∷ cs) b = listed_after name cs b

has-delete :
    (k j : Text) (m : GoMap Text Bool)
    → Distinct m
    → has j (delete k m) ≡ (if k == j then false else has j m)
has-delete k j m d =
    ground (arith, has-lookup j (delete k m), has-lookup j m, lookup-delete k j m d)

module _ (m : Matchers) (name : Text) where
  -- The block list after a request: whether it has the name, no name twice, the same special rules.
  record After (b : Bool) (c d : MemoryBlockCache) : Type 0 where
    listed : has name d.backend ≡ b
    distinct : Distinct d.backend
    special : d.special ≡ c.special

  set-After :
      (key : Text) (c : MemoryBlockCache)
      → is_regexp key ≡ false
      → is_glob key ≡ false
      → to_lower key ≡ key
      → Distinct c.backend
      → After (key == name || has name c.backend) c (BlockCache.set m key true c)
  unfolding BlockCache.set
  set-After key c r g l d =
      rw (r, g, l)
        (record {
          listed = has-put key name true c.backend;
          distinct = put-Distinct key true c.backend d;
          special = refl;
        })

  remove-After :
      (key : Text) (c : MemoryBlockCache)
      → is_regexp key ≡ false
      → is_glob key ≡ false
      → to_lower key ≡ key
      → Distinct c.backend
      → After (if key == name then false else has name c.backend) c (BlockCache.remove key c)
  unfolding BlockCache.remove
  remove-After key c r g l d =
      rw (r, g, l)
        (record {
          listed = has-delete key name c.backend d;
          distinct = delete-Distinct key c.backend d;
          special = refl;
        })

  After-subst :
      {b b' : Bool} {c d d' : MemoryBlockCache} → b ≡ b' → d ≡ d' → After b c d → After b' c d'
  After-subst p q a = rw (sym p, sym q) a

  set_endpoint-After :
      (key : Text) (s : ApiState)
      → is_regexp key ≡ false
      → is_glob key ≡ false
      → to_lower key ≡ key
      → Distinct s.block_cache.backend
      → After
          (if key == name
            then not (has name s.block_cache.backend)
            else has name s.block_cache.backend)
          s.block_cache
          (Api.set_endpoint m key s).block_cache
  set_endpoint-After key s r g l d = elim (Bool-cases (has key s.block_cache.backend)) [
    | inl h ↦
        After-subst (ground (arith, h, eq_iff key name))
          (sym (set_endpoint_lem m key s r g ∙ rw (l, h, eq_refl key) refl))
          (remove-After key s.block_cache r g l d)
    | inr h ↦
        After-subst (ground (arith, h, eq_iff key name))
          (sym (set_endpoint_lem m key s r g ∙ rw (l, h, eq_refl key) refl))
          (set-After key s.block_cache r g l d)
  ]

  change-After :
      (call : Call) (s : ApiServer)
      → is_plain_call call ≡ true
      → Distinct s.api.block_cache.backend
      → After
          (listed_after name (call ∷ []) (has name s.api.block_cache.backend))
          s.api.block_cache
          (Routes.change m call s).api.block_cache
  unfolding Routes.change Api.remove_endpoint
  change-After (Routes.get_set key) s p d =
      set_endpoint-After key s.api (ground (arith, p)) (ground (arith, p))
        (ground (arith, p, eq_iff (to_lower key) key)) d
  change-After (Routes.get_remove key) s p d =
      remove-After key s.api.block_cache (ground (arith, p)) (ground (arith, p))
        (ground (arith, p, eq_iff (to_lower key) key)) d
  change-After Routes.post_update s p d = record { listed = refl; distinct = d; special = refl }
  change-After Routes.get_block_cache s p d = record { listed = refl; distinct = d; special = refl }
  change-After Routes.get_length s p d = record { listed = refl; distinct = d; special = refl }
  change-After Routes.get_personal s p d = record { listed = refl; distinct = d; special = refl }
  change-After Routes.options_active s p d = record { listed = refl; distinct = d; special = refl }
  change-After Routes.get_active s p d = record { listed = refl; distinct = d; special = refl }
  change-After (Routes.get_exists k) s p d = record { listed = refl; distinct = d; special = refl }
  change-After (Routes.get_get k) s p d = record { listed = refl; distinct = d; special = refl }
  change-After (Routes.get_question_cache q) s p d = record {
    listed = refl;
    distinct = d;
    special = refl;
  }

  listed_after-cons :
      (c : Call) (cs : List Call) (b : Bool)
      → listed_after name (c ∷ cs) b ≡ listed_after name cs (listed_after name (c ∷ []) b)
  listed_after-cons (Routes.get_set key) cs b = refl
  listed_after-cons (Routes.get_remove key) cs b = refl
  listed_after-cons Routes.post_update cs b = refl
  listed_after-cons Routes.get_block_cache cs b = refl
  listed_after-cons Routes.get_length cs b = refl
  listed_after-cons Routes.get_personal cs b = refl
  listed_after-cons Routes.options_active cs b = refl
  listed_after-cons Routes.get_active cs b = refl
  listed_after-cons (Routes.get_exists k) cs b = refl
  listed_after-cons (Routes.get_get k) cs b = refl
  listed_after-cons (Routes.get_question_cache q) cs b = refl

  serve_all-After :
      (cs : List Call) (s : ApiServer)
      → All (λ c. is_plain_call c ≡ true) cs
      → Distinct s.api.block_cache.backend
      → After
          (listed_after name cs (has name s.api.block_cache.backend))
          s.api.block_cache
          (Routes.serve_all m cs s).api.block_cache
  unfolding Routes.serve_all
  serve_all-After [] s p d = record { listed = refl; distinct = d; special = refl }
  serve_all-After (c ∷ cs) s p d =
      let a = change-After c s p.0 d in
      let b = serve_all-After cs (Routes.change m c s) p.1 a.distinct in
      record {
        listed =
            b.listed
            ∙ ap (listed_after name cs) a.listed
            ∙ sym (listed_after-cons c cs (has name s.api.block_cache.backend));
        distinct = b.distinct;
        special = b.special ∙ a.special;
      }

  -- After requests that name only plain names, of a block list that has no name twice, the answer of
  -- /blockcache/exists for a name that is its own lower case is whether the requests leave it listed,
  -- each request to set it turning it over, or a special rule of the list covers it.
  pub serve_all_exists :
      (cs : List Call) (s : ApiServer)
      → All (λ c. is_plain_call c ≡ true) cs
      → Distinct s.api.block_cache.backend
      → to_lower name ≡ name
      → Routes.answer_call m (Routes.get_exists name) (Routes.serve_all m cs s)
        ≡ Routes.status_ok (
            Routes.exists (
              listed_after name cs (has name s.api.block_cache.backend)
              || BlockCache.exists m name
                  (record { backend = []; special = s.api.block_cache.special })))
  unfolding Routes.answer_call Api.exists_endpoint BlockCache.exists has
  serve_all_exists cs s p d l =
      let a = serve_all-After cs s p d in rw (l, a.listed, a.special) (ground arith)
