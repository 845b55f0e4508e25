-- ===== src/Tests/ApiTests.antt =====
-- The block list's endpoints at concrete requests.
use leng.Prelude.{
  ◌≡◌, refl, true, false, none, some, List, [], ◌∷◌, lookup, has, put, delete, bytes, text_beq,
  comparable_text, lower_byte, to_lower, has_prefix, contains_any,
}
use leng.BlockCache
use leng.BlockCache.{Matchers, empty}
use leng.Api
use leng.Api.{ApiState}
use leng.Api.Toggle.{set_endpoint_lem}
use leng.Api.Routes
use leng.Api.Routes.{Call, ApiServer}
use leng.Api.Calls.{serve_all_exists}
use leng.Tests.World.{config}

program : Unit {0}
unfolding Routes.answer_call Routes.change Routes.serve_all Routes.drop Routes.replace_prefix
    Routes.api_address Routes.start_api_server Api.exists_endpoint Api.remove_endpoint
    BlockCache.exists BlockCache.scan_special Api.set_endpoint Api.is_not_found Api.without_key
    Api.scan_lines Api.split_lines BlockCache.get BlockCache.found BlockCache.set BlockCache.remove
    lookup has put delete to_lower lower_byte text_beq has_prefix contains_any
program = tt

abbrev matchers : Matchers
matchers = record { compile = λ s. none; glob = λ p s. true }

abbrev start : ApiState
start = record { block_cache = empty; personal_list = bytes "a\nb\n" }

-- A key with an upper-case letter is removed, where it is asked to be set.
set_endpoint_lem_example : (Api.set_endpoint matchers (bytes "Ads.test") start).block_cache ≡ empty
unfolding program
set_endpoint_lem_example = set_endpoint_lem matchers (bytes "Ads.test") start refl refl

-- A key that is left out leaves a list without a line feed at its end, to which the next key is
-- appended.
merged_lines :
    Api.scan_lines
      (Api.set_endpoint matchers (bytes "c") (
        Api.set_endpoint matchers (bytes "a") (record {
          block_cache = BlockCache.set matchers (bytes "a") true empty;
          personal_list = bytes "a\nb\n";
        }))).personal_list
    ≡ [] ∷ bytes "bc" ∷ []
unfolding program
merged_lines = refl

abbrev api_server : ApiServer
api_server = record {
  api = record start { block_cache = record empty { backend = (bytes "b.test", true) ∷ [] } };
  leng_active = true;
  reloads = 0;
}

abbrev calls : List Call
calls =
    Routes.get_set (bytes "a.test")
    ∷ Routes.get_length
    ∷ Routes.get_set (bytes "b.test")
    ∷ Routes.get_remove (bytes "c.test")
    ∷ Routes.post_update
    ∷ []

serve_all_exists_example :
    Routes.answer_call matchers
      (Routes.get_exists (bytes "b.test"))
      (Routes.serve_all matchers calls api_server)
    ≡ Routes.status_ok (Routes.exists false)
unfolding program
serve_all_exists_example =
    serve_all_exists matchers (bytes "b.test") calls api_server
      (refl, (refl, (refl, (refl, (refl, tt))))) (refl, tt) refl

-- The address of the API inside a container.
address_in_docker :
    Routes.start_api_server true (λ a. true) (record config { api = bytes "127.0.0.1:8080" })
    ≡ (record config { api = bytes "0.0.0.0:8080" }, some (bytes "0.0.0.0:8080"))
unfolding program
address_in_docker = refl
