-- ===== src/BlockCache/Order.antt =====
-- Orders that Go leaves open: that in which the maps of the block list are ranged over, and that in
-- which the rules come in (cache.go).
use mathlib.Core.Logic.{∥∥₁_elim}
use mathlib.Core.List.{Perm, Permᴰ}
use mathlib.Core.Bool.{Bool-set}
use mathlib.Core.Quot
use mathlib.Core.Quot.{Quot}
use leng.Prelude.{
  ◌≡◌, refl, sym, ap, ap₂, ◌∙◌, Bool, ◌||◌, List, [], ◌∷◌, arith, ◌==◌, any, GoMap, has, Text,
  comparable_text, to_lower,
}
use leng.BlockCache
use leng.BlockCache.{MemoryBlockCache, Matchers, hits, empty}
use leng.BlockCache.Rules.{covers, any_hit, set_all, exists-set_all, exists-any}

module _ {ℓ} {A : Type ℓ} where
  any-permute : (p : A → Bool) {l k : List A} → Permᴰ l k → any p l ≡ any p k
  any-permute p Permᴰ.nil = refl
  any-permute p (Permᴰ.cons e h) = ap₂ (λ a b. p a || b) e (any-permute p h)
  any-permute p (Permᴰ.swap {a = a} {b = b} {l = l} e f) =
      rw (sym e, sym f) (ground (arith, any p l))
  any-permute p (Permᴰ.trans h k) = any-permute p h ∙ any-permute p k

  any-Perm : (p : A → Bool) (l k : List A) → Perm l k → any p l ≡ any p k
  any-Perm p l k h = ∥∥₁_elim h (Bool-set _ _) (any-permute p)

-- The same entries, in any orders.
abbrev pub SameEntries : MemoryBlockCache → MemoryBlockCache → Type 0
SameEntries c d = Perm c.backend d.backend × Perm c.special d.special

-- The block list without the orders of its maps.
abbrev pub BlockSet : Type 0
BlockSet = Quot SameEntries

has-any : (k : Text) (m : GoMap Text Bool) → has k m ≡ any (λ e. e.0 == k) m
unfolding has
has-any k [] = refl
has-any k ((j, v) ∷ m) = ap (λ b. j == k || b) (has-any k m)

module _ (m : Matchers) where
  pub exists-SameEntries :
      (name : Text) (c d : MemoryBlockCache)
      → SameEntries c d
      → BlockCache.exists m name c ≡ BlockCache.exists m name d
  unfolding any_hit
  exists-SameEntries name c d (b, s) =
      exists-any m name c
      ∙ ap₂ ◌||◌
          (has-any (to_lower name) c.backend
            ∙ any-Perm (λ e. e.0 == to_lower name) c.backend d.backend b
            ∙ sym (has-any (to_lower name) d.backend))
          (any-Perm (λ e. hits m (to_lower name) e.0 e.1) c.special d.special s)
      ∙ sym (exists-any m name d)

  -- `Exists` of a block list without the orders of its maps.
  unfoldable pub blocks : Text → BlockSet → Bool
  blocks name = Quot.lift Bool-set (BlockCache.exists m name) (exists-SameEntries name)

  -- What `Exists` answers, read off a block list whose maps have lost their order, is the same for
  -- all orders in which the rules came in: whether one of them covers the name in lower case.
  pub blocks-set_all :
      (name : Text) (rules shuffled : List (Text × Bool))
      → Perm rules shuffled
      → blocks name (Quot.mk (set_all m shuffled empty))
        ≡ any (λ r. covers m r.0 (to_lower name)) rules
  unfolding blocks
  blocks-set_all name rules shuffled h =
      exists-set_all m shuffled name
      ∙ sym (any-Perm (λ r. covers m r.0 (to_lower name)) rules shuffled h)
