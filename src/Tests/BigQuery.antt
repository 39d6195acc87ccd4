-- ===== src/Tests/BigQuery.antt =====
-- The connector to BigQuery, each property at one input.
use maysemantic.Prelude.{
  arith, ◌≡◌, Option, ◌+◌, Text, none, some, ok, [], ◌∷◌, ◌==◌, refl, true, map, str,
}
use maysemantic.Connectors.{is_success, response, timed_out, text}
use maysemantic.Json.{string, as_str}
use maysemantic.Secrets.{service_account_key}
use maysemantic.Models.State.{head?}
use maysemantic.Connectors.BigQuery.{map_cell, Readers, field_type_of}
use maysemantic.Connectors.Snowflake.Token.{Secrets}
use maysemantic.Connectors.BigQuery.Token.Manager.{get_token-HasManager, start, call}
use maysemantic.Connectors.BigQuery.Token.{Gcp, new, fetch_or_refresh_token, live_token, get_token}
use maysemantic.Connectors.BigQuery.Pages.{
  BqQueryResponse, Server, pages, cells_of, Tokens, finished, request, received,
}
use maysemantic.Connectors.BigQuery.Pages.Complete.{pages-Delivers, more_pages, last_page}

instance abbrev readers : Readers
readers = record {
  show_json = λ v. [];
  as_f64 = λ v. none;
  parse_f64 = head?;
  decode_base64 = λ s. some s;
}

instance abbrev plain_gcp : Gcp
plain_gcp = record { from_json = λ j. some j; token = λ a now. some (a, now + 3600) }

abbrev account_secrets : Secrets
account_secrets = λ n. ok (service_account_key (b'k' ∷ []))

get_token-HasManager_example :
    (account : Text) × (◌≡◌ {A = Option Text} (some (b'k' ∷ [])) (some account))
unfolding get_token new fetch_or_refresh_token live_token
get_token-HasManager_example =
    get_token-HasManager account_secrets [] 100 (get_token account_secrets [] 0 new).1
      (record { auth_manager = some (b'k' ∷ []); token_cache = some (b'k' ∷ [], 3600) }) (b'k' ∷ [])
      (call account_secrets [] 0 start) refl

-- A page of one row, and whether more pages follow.
abbrev one_page : Option Text → BqQueryResponse
one_page next = record {
  job_complete = true;
  job_id = b'j' ∷ [];
  schema = some ((b'c' ∷ [], str "STRING") ∷ []);
  rows = some ((string (b'x' ∷ []) ∷ []) ∷ []);
  page_token = next;
}

abbrev page_server : Server
page_server = record {
  post = λ url t sql. timed_out;
  get = λ k url t. response 200 [] (some (one_page none));
}

abbrev tokens : Tokens
tokens = λ k. ok []

pages-Delivers_example :
    pages page_server [] tokens 2 0 (one_page (some (b'p' ∷ [])))
    ≡ (map ok ((text (b'x' ∷ []) ∷ []) ∷ (text (b'x' ∷ []) ∷ []) ∷ []), finished)
unfolding cells_of map_cell field_type_of str ◌==◌ as_str request received is_success
pages-Delivers_example =
    pages-Delivers page_server [] tokens 2 0 1 (one_page (some (b'p' ∷ [])))
      ((text (b'x' ∷ []) ∷ []) ∷ (text (b'x' ∷ []) ∷ []) ∷ [])
      (more_pages ((text (b'x' ∷ []) ∷ []) ∷ []) ((text (b'x' ∷ []) ∷ []) ∷ [])
        ((b'c' ∷ [], str "STRING") ∷ []) (b'p' ∷ []) (one_page none) refl refl (refl, tt) refl refl
        (last_page ((b'c' ∷ [], str "STRING") ∷ []) refl refl (refl, tt) refl) refl)
      (omega arith)
