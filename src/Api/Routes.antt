-- ===== src/Api/Routes.antt =====
-- The routes of the API server and its start (api.go: StartAPIServer). A request is the route that the
-- router took, with its parameter; `get_set`, for one, is GET /blockcache/set/:key.
use leng.Prelude.{
  ℕ, zero, suc, ◌+◌, Bool, true, ◌&&◌, Option, none, some, List, [], ◌∷◌, ◌++◌, map, if◌then◌else◌,
  length, GoMap, Text, bytes, comparable_text, has_prefix,
}
use leng.Config.{Config}
use leng.BlockCache.{Matchers}
use leng.Api
use leng.Api.{ApiState}

-- What is left of the question cache: the whole, its length, its clearing, a client, and all clients.
pub data QuestionCache : Type 0 where
  whole the_length clearing clients : QuestionCache
  client : Text → QuestionCache

pub data Call : Type 0 where
  get_block_cache get_length get_personal options_active get_active post_update : Call
  get_exists get_get get_remove get_set : Text → Call
  get_question_cache : QuestionCache → Call

-- The bodies of the answers.
pub data Body : Type 0 where
  block_cache : ℕ → GoMap Text Bool → List Text → Body
  exists success active : Bool → Body
  not_found : Text → Body
  items : ℕ → Body
  personal : List Text → Body
  deprecated no_body : Body

pub record Reply : Type 0 where
  pub status : ℕ
  pub body : Body

abbrev pub status_ok : Body → Reply
status_ok b = record { status = 200; body = b }

-- `reloads`: the goroutines that send to `reloadChan`.
pub record ApiServer : Type 0 where
  pub api : ApiState
  pub leng_active : Bool
  pub reloads : ℕ

module _ (m : Matchers) where
  unfoldable pub answer_call : Call → ApiServer → Reply
  answer_call get_block_cache s = status_ok (
      block_cache (Api.length_endpoint m s.api) s.api.block_cache.backend
        (map (λ e. e.0) s.api.block_cache.special))
  answer_call get_length s = status_ok (items (Api.length_endpoint m s.api))
  answer_call get_personal s = status_ok (personal (Api.personal_endpoint m s.api))
  answer_call options_active s = status_ok no_body
  answer_call get_active s = status_ok (active s.leng_active)
  answer_call post_update s = status_ok no_body
  answer_call (get_exists key) s = status_ok (exists (Api.exists_endpoint m key s.api))
  answer_call (get_get key) s =
      status_ok (if Api.get_endpoint m key s.api then success true else not_found key)
  answer_call (get_remove key) s = status_ok (success true)
  answer_call (get_set key) s = status_ok (success true)
  answer_call (get_question_cache q) s = record { status = 400; body = deprecated }

  -- What a request changes.
  unfoldable pub change : Call → ApiServer → ApiServer
  change (get_remove key) s = record s { api = Api.remove_endpoint m key s.api }
  change (get_set key) s = record s { api = Api.set_endpoint m key s.api }
  change post_update s = record s { reloads = s.reloads + 1 }
  change _ s = s

  -- Requests one after another.
  unfoldable pub serve_all : List Call → ApiServer → ApiServer
  serve_all [] s = s
  serve_all (c ∷ cs) s = serve_all cs (change c s)

abbrev pub localhost : Text
localhost = bytes "127.0.0.1:"

abbrev pub any_host : Text
any_host = bytes "0.0.0.0:"

unfoldable pub drop : ℕ → Text → Text
drop zero s = s
drop (suc n) [] = []
drop (suc n) (c ∷ s) = drop n s

-- strings.Replace(s, old, new, 1), of a text that begins with `old`
unfoldable pub replace_prefix : Text → Text → Text → Text
replace_prefix old new s = new ++ drop (length old) s

-- The address of the configuration inside a container.
unfoldable pub api_address : Bool → Text → Text
api_address in_docker address =
    if in_docker && has_prefix address localhost
    then replace_prefix localhost any_host address
    else address

-- `StartAPIServer`: the changed configuration, and the address that the server listens on, unless
-- that fails.
unfoldable pub start_api_server : Bool → (Text → Bool) → Config → Config × Option Text
start_api_server in_docker can_listen config =
    let address = api_address in_docker config.api in
    (record config { api = address }, if can_listen address then some address else none)
