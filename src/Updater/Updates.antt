-- ===== src/Updater/Updates.antt =====
-- What an update of the block list blocks in the end (updater.go, PerformUpdate).
use leng.Prelude.{
  ℕ, ◌≡◌, refl, sym, inl, inr, Bool, true, false, ◌||◌, Option, none, some, List, [], ◌∷◌, arith,
  if◌then◌else◌, Bool-cases, ok-injective, Result, ok, err, any, GoMap, Text, bytes,
  comparable_text, to_lower,
}
use leng.BlockCache
use leng.BlockCache.{MemoryBlockCache, Matchers}
use leng.BlockCache.Rules.{IsValid, covers, set-IsValid, exists-set, empty-IsValid}
use leng.Updater
use leng.Updater.{UpdateError, Os, Scan, WalkedFile, Globals, and_then, add_name, is_whitelisted}
use leng.Updater.Totality.{add_all, add_lines_lem}
use leng.Updater.Blocking.{add_all_mono, add_all-IsValid}
use leng.Config.{Config}

-- If the result is a block list, it is well-formed and blocks the name.
abbrev pub Blocks : Matchers → Text → Result UpdateError MemoryBlockCache → Type 0
Blocks m name r =
    (c : MemoryBlockCache) → r ≡ ok c → IsValid m c × (BlockCache.exists m name c ≡ true)

module _ (m : Matchers) (name : Text) where
  and_then-Blocks :
      (r : Result UpdateError MemoryBlockCache)
      (f : MemoryBlockCache → Result UpdateError MemoryBlockCache)
      → Blocks m name r
      → ((c : MemoryBlockCache)
          → IsValid m c
          → BlockCache.exists m name c ≡ true
          → Blocks m name (f c))
      → Blocks m name (and_then r f)
  and_then-Blocks (err e) f b g c h = cc
  and_then-Blocks (ok c') f b g c h = g c' (b c' refl).0 (b c' refl).1 c h

  ok-Blocks :
      (c : MemoryBlockCache)
      → IsValid m c
      → BlockCache.exists m name c ≡ true
      → Blocks m name (ok c)
  ok-Blocks c v h c' e = let p = ok-injective e in (rw (sym p) v, rw (sym p) h)

  err-Blocks : (e : UpdateError) → Blocks m name (err e)
  err-Blocks e c h = cc

  if-Blocks :
      (b : Bool) (r s : Result UpdateError MemoryBlockCache)
      → Blocks m name r
      → Blocks m name s
      → Blocks m name (if b then r else s)
  if-Blocks true r s p q = p
  if-Blocks false r s p q = q

  module _ (whitelist : GoMap Text Bool) where
    add_lines-Blocks :
        (lines : List Text) (c : MemoryBlockCache)
        → IsValid m c
        → BlockCache.exists m name c ≡ true
        → Blocks m name (Updater.add_lines m whitelist lines c)
    add_lines-Blocks lines c v h = rw (add_lines_lem m whitelist lines c) (
        ok-Blocks (add_all m whitelist lines c) (add_all-IsValid m whitelist lines c v)
          (add_all_mono m whitelist lines name c v h))

    parse_scan-Blocks :
        (file : Text) (scan : Option Scan) (c : MemoryBlockCache)
        → IsValid m c
        → BlockCache.exists m name c ≡ true
        → Blocks m name (Updater.parse_scan m file whitelist scan c)
    unfolding Updater.parse_scan
    parse_scan-Blocks file none c v h = err-Blocks (Updater.file_not_opened file)
    parse_scan-Blocks file (some scan) c v h =
        and_then-Blocks (Updater.add_lines m whitelist scan.lines c) _
          (add_lines-Blocks scan.lines c v h)
          (λ c' v' h'.
            if-Blocks scan.failed (err (Updater.file_not_scanned file)) (ok c')
              (err-Blocks (Updater.file_not_scanned file)) (ok-Blocks c' v' h'))

    module _ {W : Type 0} (os : Os W) (w : W) where
      walk_file-Blocks :
          (path : Text) (is_dir : Option Bool) (c : MemoryBlockCache)
          → IsValid m c
          → BlockCache.exists m name c ≡ true
          → Blocks m name (Updater.walk_file os m path is_dir whitelist w c)
      unfolding Updater.walk_file Updater.parse_host_file
      walk_file-Blocks path none c v h = err-Blocks Updater.nil_file_info
      walk_file-Blocks path (some is_dir) c v h =
          if-Blocks is_dir (ok c) _ (ok-Blocks c v h)
            (parse_scan-Blocks path (os.open_file (os.clean path) w) c v h)

      walk_files-Blocks :
          (files : List WalkedFile) (c : MemoryBlockCache)
          → IsValid m c
          → BlockCache.exists m name c ≡ true
          → Blocks m name (Updater.walk_files os m files whitelist w c)
      unfolding Updater.walk_files
      walk_files-Blocks [] c v h = ok-Blocks c v h
      walk_files-Blocks (f ∷ files) c v h =
          and_then-Blocks _ _ (walk_file-Blocks f.path f.is_dir c v h) (walk_files-Blocks files)

      update_block_cache-Blocks :
          (dirs : List Text) (c : MemoryBlockCache)
          → IsValid m c
          → BlockCache.exists m name c ≡ true
          → Blocks m name (Updater.update_block_cache os m dirs whitelist w c)
      unfolding Updater.update_block_cache
      update_block_cache-Blocks [] c v h = ok-Blocks c v h
      update_block_cache-Blocks (d ∷ dirs) c v h =
          let dir = os.eval_symlinks (os.clean d) w in
          and_then-Blocks _ _
            (if-Blocks (os.is_missing dir w) (ok c) _ (ok-Blocks c v h)
              (walk_files-Blocks (os.walk dir w) c v h))
            (update_block_cache-Blocks dirs)

module _ (m : Matchers) where
  block-IsValid :
      (blist : List Text) (c : MemoryBlockCache) → IsValid m c → IsValid m (Updater.block m blist c)
  unfolding Updater.block
  block-IsValid [] c v = v
  block-IsValid (e ∷ blist) c v =
      block-IsValid blist (BlockCache.set m e true c) (set-IsValid m e true c v)

  -- The rules of the configuration are written whatever is blocked or white-listed.
  block-exists :
      (blist : List Text) (name : Text) (c : MemoryBlockCache)
      → IsValid m c
      → BlockCache.exists m name (Updater.block m blist c)
        ≡ (any (λ e. covers m e (to_lower name)) blist || BlockCache.exists m name c)
  unfolding Updater.block
  block-exists [] name c v = refl
  block-exists (e ∷ blist) name c v = ground (
    arith,
    block-exists blist name (BlockCache.set m e true c) (set-IsValid m e true c v),
    exists-set m e name true c v,
  )

  fetched-Blocks :
      {W : Type 0} (os : Os W) (config : Config) (name : Text) (g : Globals) (c : MemoryBlockCache)
      (r : Result UpdateError (GoMap Text ℕ) × W)
      → IsValid m c
      → BlockCache.exists m name c ≡ true
      → Blocks m name (Updater.load_sources os m config (Updater.fetched os m g c r)).0
  unfolding Updater.load_sources Updater.fetched
  fetched-Blocks os config name g c (err e, w) v h = err-Blocks m name e
  fetched-Blocks os config name g c (ok times, w) v h =
      update_block_cache-Blocks m name _ os _ _ c v h

  loaded-Blocks :
      {W : Type 0} (os : Os W) (config : Config) (name : Text)
      → any (λ e. covers m e (to_lower name)) config.blocking.blocklist ≡ true
      → (made : Result UpdateError (Unit {0})) (g : Globals) (w : W)
      → Blocks m name
          (Updater.load_sources os m config
            (Updater.update_lists os m config made g BlockCache.empty w)).0
  unfolding Updater.update_lists
  loaded-Blocks os config name h (err x) g w = unfold Updater.load_sources in err-Blocks m name x
  loaded-Blocks os config name h (ok u) g w =
      fetched-Blocks os config name _ (Updater.block m config.blocking.blocklist BlockCache.empty) _
        (block-IsValid config.blocking.blocklist BlockCache.empty (empty-IsValid m))
        (ground (
          arith,
          h,
          block-exists config.blocking.blocklist name BlockCache.empty (empty-IsValid m),
        ))

  -- If a forced update succeeds, its block list is well-formed and blocks every name that a rule of
  -- the configured block list covers, whatever the white list and the hosts files hold.
  pub perform_update_blocks :
      {W : Type 0} (os : Os W) (config : Config) (g : Globals) (w : W) (name : Text)
      (c : MemoryBlockCache)
      → any (λ e. covers m e (to_lower name)) config.blocking.blocklist ≡ true
      → (Updater.perform_update os m config true g w).0 ≡ ok c
      → IsValid m c × (BlockCache.exists m name c ≡ true)
  unfolding Updater.perform_update Updater.update
  perform_update_blocks os config g w name c h e =
      let made = Updater.ensure_store os (os.clean config.blocking.sources_store) w in
      elim (Bool-cases (os.is_missing (bytes "lists") w)) [
        | inl i ↦ loaded-Blocks os config name h made.0 g made.1 c (rw (sym e, i) refl)
        | inr i ↦ loaded-Blocks os config name h made.0 g made.1 c (rw (sym e, i) refl)
      ]
