-- ===== src/Tests/UpdaterTests.antt =====
-- Hosts files, updates and slices at concrete inputs.
use leng.Prelude.{
  ℕ, ◌+◌, ◌≡◌, refl, Bool, true, ◌||◌, none, some, List, [], ◌∷◌, ok, any, GoMap, lookup, has, put,
  Text, bytes, text_beq, comparable_text, lower_byte, to_lower, has_prefix, contains_any,
}
use leng.BlockCache
use leng.BlockCache.{Matchers, MemoryBlockCache, empty}
use leng.BlockCache.Rules.{IsValid, covers, empty-IsValid}
use leng.Updater
use leng.Updater.{Os, Globals}
use leng.Updater.Lines
use leng.Updater.Totality.{add_all, add_named, line_name}
use leng.Updater.Blocking.{gives, line_covers, name_covers, add_lines_blocks, add_lines_sound}
use leng.Updater.Updates.{perform_update_blocks}
use leng.Utils.{difference, test_eq}
use leng.Tests.World.{config}
use leng.Config.{Config}

abbrev matchers : Matchers
matchers = record { compile = λ s. none; glob = λ p s. true }

program : Unit {0}
unfolding BlockCache.set BlockCache.exists BlockCache.scan_special has_prefix contains_any lookup
    has put to_lower lower_byte text_beq Updater.add_lines Updater.add_trimmed Updater.add_name
    Updater.name_field Updater.is_whitelisted Lines.is_space Lines.trim_left Lines.trim_right
    Lines.trim_space Lines.before_hash Lines.split_fields Lines.fields add_all add_named line_name
    gives line_covers name_covers covers Updater.perform_update Updater.update Updater.update_lists
    Updater.ensure_store Updater.load_sources Updater.update_block_cache Updater.with_store
    Updater.fetch_sources Updater.fetched Updater.allow Updater.block difference test_eq
program = tt

abbrev lines : List Text
lines = bytes "# hosts" ∷ bytes "0.0.0.0 ads.test # an ad" ∷ bytes "  good.test" ∷ bytes "   " ∷ []

abbrev whitelist : GoMap Text Bool
whitelist = (bytes "good.test", true) ∷ []

abbrev loaded : MemoryBlockCache
loaded = record { backend = (bytes "ads.test", true) ∷ []; special = [] }

add_lines_run : Updater.add_lines matchers whitelist lines empty ≡ ok loaded
unfolding program
add_lines_run = refl

add_lines_blocks_example :
    (c : MemoryBlockCache) × (Updater.add_lines matchers whitelist lines empty ≡ ok c)
    × (BlockCache.exists matchers (bytes "ads.test") c ≡ true)
unfolding program
add_lines_blocks_example =
    add_lines_blocks matchers whitelist lines (bytes "ads.test") empty (empty-IsValid matchers) refl
      refl refl refl

add_lines_sound_example :
    (any (λ line. line_covers matchers whitelist line (bytes "ADS.test")) lines
      || BlockCache.exists matchers (bytes "ADS.test") empty)
    ≡ true
unfolding program
add_lines_sound_example =
    add_lines_sound matchers whitelist lines (bytes "ADS.test") empty loaded
      (empty-IsValid matchers) refl refl

-- A disk without files, over a world that counts what is written.
abbrev os : Os ℕ
os = record {
  clean = λ p. p;
  is_missing = λ p w. true;
  mkdir = λ p w. some (w + 1);
  create = λ p w. some (w + 1);
  http_get = λ uri w. (none, w);
  copy = λ body file w. some (w + 1);
  eval_symlinks = λ p w. p;
  walk = λ p w. [];
  open_file = λ p w. none;
  url_host = λ uri. some uri;
  print_int = λ n. n ∷ [];
}

abbrev blocking_config : Config
blocking_config = record config {
  blocking = record config.blocking {
    blocklist = bytes "Bad.test" ∷ [];
    whitelist = bytes "Bad.test" ∷ [];
  };
}

abbrev globals : Globals
globals = record { times_seen = []; whitelist = [] }

abbrev updated : MemoryBlockCache
updated = record { backend = (bytes "bad.test", true) ∷ []; special = [] }

perform_update_blocks_example :
    IsValid matchers updated × (BlockCache.exists matchers (bytes "bad.test") updated ≡ true)
unfolding program
perform_update_blocks_example =
    perform_update_blocks matchers os blocking_config globals 0 (bytes "bad.test") updated refl refl

abbrev first_slice : List Text
first_slice = bytes "a" ∷ bytes "b" ∷ []

abbrev second_slice : List Text
second_slice = bytes "b" ∷ []
