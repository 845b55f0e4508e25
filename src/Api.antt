-- ===== src/Api.antt =====
-- api.go: the endpoints that read and change the block list. The personal list is the text of its
-- file, which is taken to open, and whose reads and writes succeed. A request is one step. The JSON
-- around the answers, the router and the metrics are left out.
pub mod Toggle
pub mod Routes
pub mod Calls
use leng.Prelude.{
  ℕ, Bool, true, false, List, [], ◌∷◌, ◌++◌, nat_beq, if◌then◌else◌, ◌==◌, Result, ok, err, length,
  Text, bytes, comparable_text,
}
use leng.BlockCache
use leng.BlockCache.{MemoryBlockCache, Matchers, KeyNotFound}

pub record ApiState : Type 0 where
  pub block_cache : MemoryBlockCache
  pub personal_list : Text

-- bufio.Scanner by lines: the rest of the first line, and the lines after it. The end of the text
-- after a line feed is no line.
unfoldable pub split_lines : Text → Text × List Text
split_lines [] = ([], [])
split_lines (c ∷ s) =
    let r = split_lines s in
    if nat_beq c 10 then ([], if nat_beq (length s) 0 then [] else r.0 ∷ r.1) else (c ∷ r.0, r.1)

unfoldable pub scan_lines : Text → List Text
scan_lines [] = []
scan_lines (c ∷ s) = (split_lines (c ∷ s)).0 ∷ (split_lines (c ∷ s)).1

-- The loop that leaves out a key: each line that stays is written behind a line feed.
unfoldable pub without_key : Text → List Text → Text
without_key key [] = []
without_key key (line ∷ lines) =
    let rest = without_key key lines in if line == key then rest else bytes "\n" ++ line ++ rest

-- err == (KeyNotFound{key})
unfoldable pub is_not_found : Text → Result KeyNotFound Bool → Bool
is_not_found key (ok b) = false
is_not_found key (err (BlockCache.key_not_found k)) = k == key

module _ (m : Matchers) where
  -- GET /blockcache/set/:key
  unfoldable pub set_endpoint : Text → ApiState → ApiState
  set_endpoint key s =
      if is_not_found key (BlockCache.get key s.block_cache)
      then record {
        block_cache = BlockCache.set m key true s.block_cache;
        personal_list = s.personal_list ++ key ++ bytes "\n";
      }
      else record {
        block_cache = BlockCache.remove key s.block_cache;
        personal_list = without_key key (scan_lines s.personal_list);
      }

  -- GET /blockcache/remove/:key
  unfoldable pub remove_endpoint : Text → ApiState → ApiState
  remove_endpoint key s = record s { block_cache = BlockCache.remove key s.block_cache }

  -- GET /blockcache/exists/:key
  unfoldable pub exists_endpoint : Text → ApiState → Bool
  exists_endpoint key s = BlockCache.exists m key s.block_cache

  -- GET /blockcache/get/:key: whether the answer is a success
  unfoldable pub get_endpoint : Text → ApiState → Bool
  get_endpoint key s = elim (BlockCache.get key s.block_cache) [ ok b ↦ b | err e ↦ false ]

  -- GET /blockcache/length and GET /blockcache/personal
  unfoldable pub length_endpoint : ApiState → ℕ
  length_endpoint s = BlockCache.len s.block_cache

  unfoldable pub personal_endpoint : ApiState → List Text
  personal_endpoint s = scan_lines s.personal_list
