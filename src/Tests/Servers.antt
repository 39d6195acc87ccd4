-- ===== src/Tests/Servers.antt =====
-- Accounts, the handlers of the REST server and the command line, each at one input.

use maysemantic.Rest.Login.Accounts.{login-create_user, login-deactivated}
use maysemantic.Rest.Query.Handler.{query_handler_sound}
use maysemantic.Dialects.Quote.{dialect_for}
use maysemantic.Compiler.Semantic.Compile.{compile}
use maysemantic.Rest.Query.Mapping.{try_from_iff, mapped, IsQuery}
use maysemantic.Rest.Login.{give_token, invalid_credentials_error, login}
use maysemantic.Rest.Users.Admin.{users_router-IsRefusal, IsRefusal}
use maysemantic.Auth.Password.{Bcrypt, hash_password}
use maysemantic.Rest.{from_request_parts-issue, from_request, AppState, from_request_parts}
use maysemantic.Auth.Store.{pg_user_repository, create, new_row, retire, is_taken}
use maysemantic.Rest.Query.{envelope, run_query, QueryRequest, try_from, query_handler}
use mathlib.Core.List.Memᴰ
use maysemantic.Auth.{is_admin, User, Role, admin, viewer}
use maysemantic.Auth.Token.{verify, JwtError, Claims, Jwt, issue, expired_signature}
use maysemantic.Auth.Store.Unique.{IsUnique, here}
use maysemantic.Rest.Users.Table.{Served-IsUnique, requested, booted, empty_table}
use maysemantic.Rest.Users.{is_out_of_limits, post_user}
use maysemantic.Auth.Store.{Users, ensure_admin}
use maysemantic.Rest.Users.{
  is_out_of_limits, reply, user_response, users_router, create_user, delete_user,
}
use maysemantic.Tests.Security.{floats, shop_plain_sql, shop_compiled_plain}
use maysemantic.Tests.Graphs.{list_graph}
use maysemantic.Tests.Fixtures.{total_request, shop_models}
use maysemantic.Prelude.{
  strip_prefix, length, to_ascii_lower, byte_len, arith, true, Bool, ltb, ◌++◌, nat_eq, ◌↔◌, str,
  Result, is_empty, ◌≡◌, if◌then◌else◌, Option, ℕ, Text, none, some, ok, err, [], ◌∷◌, ◌==◌, eq_iff,
  refl, trim, any,
}

pub marked-check :
    (cost : ℕ) (p h : Text)
    → ◌≡◌ {A = Option Text} (some (b'h' ∷ p)) (some h)
    → ◌≡◌ {A = Option Bool} (some ((b'h' ∷ p) == h)) (some true)
marked-check cost p h e = ground (arith, eq_iff (b'h' ∷ p) h)

-- A hash that marks the password.
instance abbrev pub marked : Bcrypt
marked = record {
  hash = λ cost p. some (b'h' ∷ p);
  check = λ p h. some ((b'h' ∷ p) == h);
  check-hash = marked-check;
}

-- A token is the role, the expiry and the subject in clear.
abbrev read_role : ℕ → Role
read_role r = if nat_eq r 0 then admin else viewer

abbrev role_mark : Role → ℕ
role_mark admin = 0
role_mark viewer = 1

abbrev read_claims : ℕ → Text → Result JwtError Claims
read_claims now (r ∷ e ∷ sub) =
    if ltb e now
    then err expired_signature
    else ok (record { sub = sub; role = read_role r; exp = e })
read_claims now _ = err JwtError.other

read_role-mark : (r : Role) → read_role (role_mark r) ≡ r
read_role-mark admin = refl
read_role-mark viewer = refl

pub clear_decode :
    (secret : Text) (c : Claims) (t : Text) (now : ℕ)
    → ◌≡◌ {A = Option Text} (some (role_mark c.role ∷ c.exp ∷ c.sub)) (some t)
    → read_claims now t ≡ (if ltb c.exp now then err expired_signature else ok c)
clear_decode secret c [] now e = cc
clear_decode secret c (r ∷ []) now e = cc
clear_decode secret c (r ∷ x ∷ sub) now e = ground (arith, read_role-mark c.role)

instance abbrev pub clear_jwt : Jwt
clear_jwt = record {
  encode = λ secret c. some (role_mark c.role ∷ c.exp ∷ c.sub);
  decode = λ secret now t. read_claims now t;
  decode-encode = clear_decode;
}

abbrev pub show_id : ℕ → Text
show_id id = id ∷ []

abbrev pub server : AppState
server = record {
  token_service = record { secret = b's' ∷ []; expiry_secs = 3600 };
  dialect_kind = str "postgres";
}

abbrev pub alice : Text
alice = str "alice"

abbrev pub alice_hash : Text
alice_hash = b'h' ∷ alice

-- alice, whose password is her name
abbrev pub alice_row : User
alice_row = new_row 1 50 alice alice_hash viewer

abbrev admin_claims : Claims
admin_claims = record { sub = b'0' ∷ []; role = admin; exp = 900 }

abbrev retired : User
retired = retire 60 alice_row

from_request_parts-issue_example :
    from_request_parts server 200 (some (str "Bearer " ++ (1 ∷ 3700 ∷ 1 ∷ [])))
    ≡ ok (record { sub = 1 ∷ []; role = viewer; exp = 3700 })
unfolding issue new_row
from_request_parts-issue_example =
    from_request_parts-issue show_id server 100 200 alice_row (1 ∷ 3700 ∷ 1 ∷ []) (omega arith) refl

-- the first admin, and the account of alice that the admin asks for
abbrev seeded_table : Users
seeded_table = (ensure_admin hash_password (some alice) 7 40 []).1

abbrev requested_table : Users
requested_table =
    (users_router ⦃R = pg_user_repository 1 50⦄ server 50
      (some (str "Bearer " ++ (0 ∷ 900 ∷ b'0' ∷ [])))
      (post_user (ok (record { username = alice; password = alice; role = viewer })))
      seeded_table).1

Served-IsUnique_example : IsUnique requested_table
Served-IsUnique_example = Served-IsUnique server (
    requested 1 50 (some (str "Bearer " ++ (0 ∷ 900 ∷ b'0' ∷ [])))
      (post_user (ok (record { username = alice; password = alice; role = viewer })))
      (booted (some alice) 7 40 empty_table))

requested_two : length requested_table ≡ 2
unfolding users_router from_request_parts strip_prefix verify create_user is_admin is_out_of_limits
    is_empty byte_len hash_password reply pg_user_repository any ensure_admin ◌==◌
requested_two = refl

login-deactivated_example :
    login ⦃R = pg_user_repository 7 200⦄ show_id server 200
      (ok (record { username = alice; password = alice }))
      (retired ∷ [])
    ≡ err invalid_credentials_error
unfolding is_taken any retire login str new_row
login-deactivated_example =
    login-deactivated show_id server retired alice 7 200 refl (Memᴰ.head refl) (refl, tt) here

login-create_user_example :
    login ⦃R = pg_user_repository 7 200⦄ show_id server 200
      (ok (record { username = alice; password = alice }))
      (alice_row ∷ [])
    ≡ give_token show_id server 200 alice_row
unfolding hash_password create_user pg_user_repository create is_taken any is_out_of_limits is_admin
    is_empty byte_len reply
login-create_user_example =
    login-create_user show_id server admin_claims
      (record { username = alice; password = alice; role = viewer }) 1 50 7 200 [] (alice_row ∷ [])
      (user_response alice_row) alice_hash refl refl

users_router-IsRefusal_example :
    IsRefusal [] 401
      (users_router ⦃R = pg_user_repository 7 200⦄ server 200 none (delete_user 1) [])
unfolding from_request_parts
users_router-IsRefusal_example =
    users_router-IsRefusal ⦃R = pg_user_repository 7 200⦄ server 200 none (delete_user 1) []
      (λ h. h) tt

-- the request for the total as the REST server reads it
abbrev total_query : QueryRequest
total_query = record {
  metrics = total_request.metric_name ∷ [];
  dimensions = total_request.dimensions;
  filters = total_request.filters;
  time_range = none;
  limit = total_request.limit;
}

try_from_iff_example :
    (try_from total_query ≡ ok total_request)
    ↔ ((name : Text) × IsQuery total_query name × (total_request ≡ mapped total_query name))
try_from_iff_example = try_from_iff total_query total_request

mapped_total : try_from total_query ≡ ok total_request
unfolding try_from trim is_empty
mapped_total = refl

abbrev bearer : Option Text
bearer = some (str "Bearer " ++ (1 ∷ 3700 ∷ 1 ∷ []))

compiled_total :
    compile shop_models (dialect_for server.dialect_kind) total_request none ≡ ok shop_plain_sql
unfolding dialect_for str ◌==◌ to_ascii_lower
compiled_total = shop_compiled_plain

query_answered :
    query_handler server shop_models 200 bearer (ok total_query)
    ≡ ok (envelope total_request.metric_name shop_plain_sql)
unfolding query_handler run_query from_request
query_answered = rw (from_request_parts-issue_example, mapped_total, compiled_total) refl

query_handler_sound_example :
    (claims : Claims) × (name : Text) × (sql : Text) × (from_request_parts server 200 bearer
      ≡ ok claims)
    × IsQuery total_query name
    × (compile shop_models (dialect_for server.dialect_kind) (mapped total_query name) none
        ≡ ok sql)
    × (envelope total_request.metric_name shop_plain_sql ≡ envelope name sql)
query_handler_sound_example =
    query_handler_sound server shop_models 200 bearer total_query
      (envelope total_request.metric_name shop_plain_sql) query_answered
