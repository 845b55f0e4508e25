-- ===== src/Updater.antt =====
-- updater.go: the block list's sources, and how a new block list is built from them. The disk and
-- the network are parameters over a world of any type. The downloads, which the code runs at the
-- same time, write to different files; here they run one after another. Logging is left out.
pub mod Lines
pub mod Totality
pub mod Blocking
pub mod Updates
use leng.Prelude.{
  ℕ, ◌+◌, ◌/◌, Bool, true, false, not, ◌&&◌, ◌||◌, Option, none, some, List, [], ◌∷◌, ◌++◌,
  if◌then◌else◌, ◌==◌, Result, ok, err, any, GoMap, lookup, put, Text, bytes, comparable_text,
}
use leng.BlockCache
use leng.BlockCache.{MemoryBlockCache, Matchers}
use leng.Config.{Config}
use Lines.{before_hash, trim_space, fields}

-- The package variables `timesSeen` and `whitelist`.
pub record Globals : Type 0 where
  pub times_seen : GoMap Text ℕ
  pub whitelist : GoMap Text Bool

-- What a scanner over an open file yields: its lines, and whether it ends in an error.
pub record Scan : Type 0 where
  pub lines : List Text
  pub failed : Bool

-- A file that `filepath.Walk` comes by; without a FileInfo where it could not be read (lstat).
pub record WalkedFile : Type 0 where
  pub path : Text
  pub is_dir : Option Bool

-- The packages os, filepath, net/http, net/url, bufio and fmt.
pub record Os (W : Type 0) : Type 0 where
  pub clean : Text → Text
  -- os.IsNotExist of os.Stat
  pub is_missing : Text → W → Bool
  pub mkdir : Text → W → Option W
  pub create : Text → W → Option W
  pub http_get : Text → W → Option Text × W
  pub copy : Text → Text → W → Option W
  pub eval_symlinks : Text → W → Text
  pub walk : Text → W → List WalkedFile
  pub open_file : Text → W → Option Scan
  -- url.Parse, which gives nil for a text that is no URL
  pub url_host : Text → Option Text
  pub print_int : ℕ → Text

-- The errors of an update, the panics among them.
pub data UpdateError : Type 0 where
  store_not_created file_not_created not_downloaded not_copied : UpdateError
  index_out_of_range nil_url nil_file_info : UpdateError
  file_not_opened file_not_scanned : Text → UpdateError

-- Whether the update ends in a panic, and not in an error that it returns.
abbrev pub is_panic : UpdateError → Bool
is_panic index_out_of_range = true
is_panic nil_url = true
is_panic nil_file_info = true
is_panic _ = false

abbrev pub and_then :
    {A B : Type 0} → Result UpdateError A → (A → Result UpdateError B) → Result UpdateError B
and_then (err e) f = err e
and_then (ok a) f = f a

-- whitelist[line]
unfoldable pub is_whitelisted : Text → GoMap Text Bool → Bool
is_whitelisted line whitelist = elim (lookup line whitelist) [ none ↦ false | some b ↦ b ]

-- fields[1] if there are two, else fields[0]
unfoldable pub name_field : List Text → Result UpdateError Text
name_field [] = err index_out_of_range
name_field (f ∷ []) = ok f
name_field (f ∷ f' ∷ rest) = ok f'

-- The loop over the white list.
unfoldable pub allow : List Text → GoMap Text Bool → GoMap Text Bool
allow [] whitelist = whitelist
allow (entry ∷ wlist) whitelist = allow wlist (put entry true whitelist)

module _ (m : Matchers) where
  unfoldable pub add_name : GoMap Text Bool → Text → MemoryBlockCache → MemoryBlockCache
  add_name whitelist line c =
      if not (BlockCache.exists m line c) && not (is_whitelisted line whitelist)
      then BlockCache.set m line true c
      else c

  -- The body of the scan, after the line is cut at # and trimmed.
  unfoldable pub add_trimmed :
      GoMap Text Bool → Text → MemoryBlockCache → Result UpdateError MemoryBlockCache
  add_trimmed whitelist [] c = ok c
  add_trimmed whitelist (b ∷ s) c =
      and_then (name_field (fields (b ∷ s))) (λ line. ok (add_name whitelist line c))

  unfoldable pub add_lines :
      GoMap Text Bool → List Text → MemoryBlockCache → Result UpdateError MemoryBlockCache
  add_lines whitelist [] c = ok c
  add_lines whitelist (line ∷ lines) c =
      and_then (add_trimmed whitelist (trim_space (before_hash line)) c) (add_lines whitelist lines)

  -- `parseHostFile` on what os.Open gives.
  unfoldable pub parse_scan :
      Text → GoMap Text Bool → Option Scan → MemoryBlockCache → Result UpdateError MemoryBlockCache
  parse_scan name whitelist none c = err (file_not_opened name)
  parse_scan name whitelist (some scan) c =
      and_then (add_lines whitelist scan.lines c)
        (λ c'. if scan.failed then err (file_not_scanned name) else ok c')

  -- The loop over the block list.
  unfoldable pub block : List Text → MemoryBlockCache → MemoryBlockCache
  block [] c = c
  block (entry ∷ blist) c = block blist (BlockCache.set m entry true c)

module _ {W : Type 0} (os : Os W) where
  abbrev pub and_try :
      {A : Type 0}
      → UpdateError
      → Option W
      → (W → Result UpdateError A × W)
      → W
      → Result UpdateError A × W
  and_try e none f w = (err e, w)
  and_try e (some w') f w = f w'

  -- `downloadFile` past the request
  unfoldable pub copy_body : Text → Option Text → W → Result UpdateError (Unit {0}) × W
  copy_body file none w = (err not_downloaded, w)
  copy_body file (some body) w = and_try not_copied (os.copy body file w) (λ w'. (ok tt, w')) w

  unfoldable pub download_file : Text → Text → Text → W → Result UpdateError (Unit {0}) × W
  download_file uri name store w =
      let file = os.clean (store ++ bytes "/" ++ name) in
      and_try file_not_created (os.create file w)
        (λ w'. copy_body file (os.http_get uri w').0 (os.http_get uri w').1) w

  -- timesSeen[host], 0 where it is missing
  unfoldable pub seen : Text → GoMap Text ℕ → ℕ
  seen host times = elim (lookup host times) [ none ↦ 0 | some n ↦ n ]

  abbrev pub file_name : Text → ℕ → Text
  file_name host n = host ++ bytes "." ++ os.print_int n ++ bytes ".list"

  -- One source: its file is counted and downloaded. A nil URL has no host to read.
  unfoldable pub fetch_source :
      Text → Option Text → Text → GoMap Text ℕ → W → Result UpdateError (GoMap Text ℕ) × W
  fetch_source uri none store times w = (err nil_url, w)
  fetch_source uri (some host) store times w =
      let n = seen host times + 1 in
      (ok (put host n times), (download_file uri (file_name host n) store w).1)

  unfoldable pub then_fetch :
      Result UpdateError (GoMap Text ℕ) × W
      → (GoMap Text ℕ → W → Result UpdateError (GoMap Text ℕ) × W)
      → Result UpdateError (GoMap Text ℕ) × W
  then_fetch (err e, w) f = (err e, w)
  then_fetch (ok times, w) f = f times w

  -- The loop of `fetchSources`, which prints the error of a download and goes on.
  unfoldable pub fetch_sources :
      List Text → Text → GoMap Text ℕ → W → Result UpdateError (GoMap Text ℕ) × W
  fetch_sources [] store times w = (ok times, w)
  fetch_sources (uri ∷ sources) store times w =
      then_fetch (fetch_source uri (os.url_host uri) store times w) (fetch_sources sources store)

  unfoldable pub ensure_store : Text → W → Result UpdateError (Unit {0}) × W
  ensure_store store w =
      if os.is_missing store w
      then and_try store_not_created (os.mkdir store w) (λ w'. (ok tt, w')) w
      else (ok tt, w)

  module _ (m : Matchers) where
    -- `update` after `fetchSources`
    unfoldable pub fetched :
        Globals
        → MemoryBlockCache
        → Result UpdateError (GoMap Text ℕ) × W
        → Result UpdateError MemoryBlockCache × Globals × W
    fetched g c (err e, w) = (err e, g, w)
    fetched g c (ok times, w) = (ok c, record g { times_seen = times }, w)

    -- `update`: the lists of the configuration, then the downloads.
    unfoldable pub update_lists :
        Config
        → Result UpdateError (Unit {0})
        → Globals
        → MemoryBlockCache
        → W
        → Result UpdateError MemoryBlockCache × Globals × W
    update_lists config (err e) g c w = (err e, g, w)
    update_lists config (ok u) g c w =
        fetched (record g { whitelist = allow config.blocking.whitelist g.whitelist })
          (block m config.blocking.blocklist c)
          (fetch_sources config.blocking.sources (os.clean config.blocking.sources_store)
            g.times_seen w)

    unfoldable pub update :
        Config → Globals → MemoryBlockCache → W → Result UpdateError MemoryBlockCache × Globals × W
    update config g c w =
        let made = ensure_store (os.clean config.blocking.sources_store) w in
        update_lists config made.0 g c made.1

    -- `parseHostFile`
    unfoldable pub parse_host_file :
        Text → GoMap Text Bool → W → MemoryBlockCache → Result UpdateError MemoryBlockCache
    parse_host_file name whitelist w c =
        parse_scan m name whitelist (os.open_file (os.clean name) w) c

    -- The function that `filepath.Walk` calls: !f.IsDir() of a nil FileInfo panics.
    unfoldable pub walk_file :
        Text
        → Option Bool
        → GoMap Text Bool
        → W
        → MemoryBlockCache
        → Result UpdateError MemoryBlockCache
    walk_file path none whitelist w c = err nil_file_info
    walk_file path (some is_dir) whitelist w c =
        if is_dir then ok c else parse_host_file path whitelist w c

    unfoldable pub walk_files :
        List WalkedFile
        → GoMap Text Bool
        → W
        → MemoryBlockCache
        → Result UpdateError MemoryBlockCache
    walk_files [] whitelist w c = ok c
    walk_files (f ∷ files) whitelist w c =
        and_then (walk_file f.path f.is_dir whitelist w c) (walk_files files whitelist w)

    -- `updateBlockCache`
    unfoldable pub update_block_cache :
        List Text → GoMap Text Bool → W → MemoryBlockCache → Result UpdateError MemoryBlockCache
    update_block_cache [] whitelist w c = ok c
    update_block_cache (d ∷ dirs) whitelist w c =
        let dir = os.eval_symlinks (os.clean d) w in
        and_then (if os.is_missing dir w then ok c else walk_files (os.walk dir w) whitelist w c)
          (update_block_cache dirs whitelist w)

    -- slices.Contains, and append where it is missing
    unfoldable pub with_store : Text → List Text → List Text
    with_store store dirs = if any (λ d. d == store) dirs then dirs else dirs ++ store ∷ []

    -- `PerformUpdate` past `update`; logger.Fatal and a panic end the program.
    unfoldable pub load_sources :
        Config
        → Result UpdateError MemoryBlockCache × Globals × W
        → Result UpdateError MemoryBlockCache × Globals × W
    load_sources config (err e, g, w) = (err e, g, w)
    load_sources config (ok c, g, w) = (
      update_block_cache (with_store config.blocking.sources_store config.blocking.source_dirs)
          g.whitelist w c,
      g,
      w,
    )

    unfoldable pub perform_update :
        Config → Bool → Globals → W → Result UpdateError MemoryBlockCache × Globals × W
    perform_update config force g w = load_sources config (
        if os.is_missing (bytes "lists") w || force
        then update config g BlockCache.empty w
        else (ok BlockCache.empty, g, w))
