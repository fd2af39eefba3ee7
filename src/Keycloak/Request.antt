-- ===== src/Keycloak/Request.antt =====
-- The requests of scripts/sync-keycloak-demo-data.py to the admin API of Keycloak, and how it fails.
use konnect_oidc_fapi2_keycl.Common.{Option, none, some, List, [], ◌++◌, Result, ok, err}
use konnect_oidc_fapi2_keycl.Python.Text.{Text, str}
use konnect_oidc_fapi2_keycl.Python.Url.{quote, query_item}
use konnect_oidc_fapi2_keycl.Python.Json.{Json, obj, Fields}
use konnect_oidc_fapi2_keycl.Keycloak.Values.{Sync}
use konnect_oidc_fapi2_keycl.Program.{Program, done, fail, call, lift, from, ◌>>=◌}

-- A RuntimeError with its message, a URLError, or any other exception.
pub data Error : Type 0 where
  runtime : Text → Error
  url_error other : Error

-- The arguments of `request`. The token is the value that Keycloak gave for one.
pub record Call : Type 0 where
  pub method : Text
  pub path : Text
  pub token : Option Json
  pub body : Option Json
  pub form : List (Text × Text)

-- What `request` returns, with None as the null, or raises.
abbrev pub Reply : Type 0
Reply = Result Error Json

abbrev pub Admin : Type 0 → Type 0
Admin A = Program Call (λ _. Reply) Error A

abbrev pub answer : Reply → Admin Json
answer (ok j) = done j
answer (err e) = fail e

abbrev pub get_method : Text
get_method = str "GET"

abbrev pub post : Text
post = str "POST"

abbrev pub put_method : Text
put_method = str "PUT"

abbrev pub request_get : Json → Text → Admin Json
request_get token path =
    call (record { method = get_method; path = path; token = some token; body = none; form = [] })
      answer

-- `request` with a body, of method POST or PUT.
abbrev pub request_body : Text → Json → Text → Fields → Admin Json
request_body method token path body =
    call
      (record {
        method = method;
        path = path;
        token = some token;
        body = some (obj body);
        form = [];
      })
      answer

-- A step that makes no request.
abbrev pub pure_step : {A : Type 0} → Sync A → Admin A
pure_step r = lift runtime r

abbrev pub realm_path : Text
realm_path = str "/admin/realms/fapi-demo"

-- The client of an internal ID.
unfoldable pub client_path : Text → Admin Text
client_path client_uuid = do
  quoted ← from (quote client_uuid) other
  done (realm_path ++ str "/clients/" ++ quoted)

unfoldable pub mappers_path : Text → Admin Text
unfolding client_path
mappers_path client_uuid = do
  path ← client_path client_uuid
  done (path ++ str "/protocol-mappers/models")

unfoldable pub clients_query : Text → Admin Text
clients_query client_id = do
  item ← from (query_item (str "clientId") client_id) other
  done (realm_path ++ str "/clients?" ++ item)
