-- ===== src/Keycloak/Main.antt =====
-- The token, and the order in which `main` prepares, applies and verifies.
use konnect_oidc_fapi2_keycl.Common.{ℕ, zero, suc, Bool, Option, none, List, [], ◌∷◌}
use konnect_oidc_fapi2_keycl.Python.Text.{Text, str}
use konnect_oidc_fapi2_keycl.Python.Json.{Json, obj, Fields, get, as_object}
use konnect_oidc_fapi2_keycl.Program.{done, fail, call, from, catch, ◌>>=◌, ◌>>◌}
use konnect_oidc_fapi2_keycl.Keycloak.KeyProvider.{key_provider_admin_payload}
use konnect_oidc_fapi2_keycl.Keycloak.KeyProvider
use konnect_oidc_fapi2_keycl.Keycloak.Request.{
  Admin, Error, runtime, url_error, other, Call, answer, post, pure_step,
}
use konnect_oidc_fapi2_keycl.Keycloak.Prepare.{
  ClientAction, prepare_key_provider_sync, prepare_client_sync, prepare_realm_sync,
  verify_key_provider_sync, verify_client_sync, verify_realm_sync,
}
use konnect_oidc_fapi2_keycl.Keycloak.Apply.{
  apply_key_provider_sync, apply_client_sync, apply_realm_sync,
}

-- The two values of `secrets` that are read; a missing one raises KeyError.
pub record Secrets : Type 0 where
  pub username : Option Text
  pub password : Option Text

abbrev pub token_path : Text
token_path = str "/realms/master/protocol/openid-connect/token"

abbrev pub token_call : Text → Text → Call
token_call username password = record {
  method = post;
  path = token_path;
  token = none;
  body = none;
  form =
      (str "grant_type", str "password")
      ∷ (str "client_id", str "admin-cli")
      ∷ (str "username", username)
      ∷ (str "password", password)
      ∷ [];
}

-- `["access_token"]` of the reply; any other value than a dict with that key raises.
abbrev pub read_token : Json → Admin Json
read_token reply = do
  fields ← from (as_object reply) other
  from (get (str "access_token") fields) other

unfoldable pub admin_token : Secrets → Admin Json
admin_token secrets = do
  username ← from secrets.username other
  password ← from secrets.password other
  reply ← call (token_call username password) answer
  read_token reply

-- `except (URLError, RuntimeError)`
abbrev pub retry : Error → Admin Json → Admin Json
retry (runtime _) again = again
retry url_error again = again
retry other again = fail other

-- `attempts` rounds of the loop.
unfoldable pub attempt : ℕ → Secrets → Admin Json
unfolding admin_token
attempt zero secrets = fail (runtime (str "Keycloak did not become ready within 60 seconds"))
attempt (suc attempts) secrets =
    catch (admin_token secrets) (λ e. retry e (attempt attempts secrets))

unfoldable pub wait_for_keycloak : Secrets → Admin Json
unfolding attempt
wait_for_keycloak secrets = attempt 30 secrets

abbrev pub clients_of : Json → Option Json
clients_of (obj fs) = get (str "clients") fs
clients_of _ = none

-- What is printed of a run: the clients and mappers synced, and whether realm and key provider were
-- changed.
pub record Summary : Type 0 where
  pub synced_clients : ℕ
  pub synced_mappers : ℕ
  pub realm_changed : Bool
  pub key_provider_changed : Bool

-- The three plans, before anything is written.
pub record Plans : Type 0 where
  pub realm_plan : Fields
  pub clients : Json
  pub client_plan : List ClientAction
  pub key_provider_plan : KeyProvider.Plan

unfoldable pub make_plans : Json → Json → Admin Plans
make_plans desired_realm token = do
  realm_plan ← prepare_realm_sync desired_realm token
  clients ← from (clients_of desired_realm) other
  client_plan ← prepare_client_sync clients token
  key_provider_plan ← prepare_key_provider_sync desired_realm token
  done (record {
    realm_plan = realm_plan;
    clients = clients;
    client_plan = client_plan;
    key_provider_plan = key_provider_plan;
  })

unfoldable pub carry_out : Json → Json → Plans → Admin Summary
carry_out desired_realm token plans = do
  key_provider_changed ← apply_key_provider_sync plans.key_provider_plan token
  synced ← apply_client_sync plans.client_plan token
  realm_changed ← apply_realm_sync plans.realm_plan token
  verify_client_sync plans.clients token
  verify_realm_sync desired_realm token
  verify_key_provider_sync desired_realm token
  done (record {
    synced_clients = synced.0;
    synced_mappers = synced.1;
    realm_changed = realm_changed;
    key_provider_changed = key_provider_changed;
  })

-- From the plans to the last verification.
unfoldable pub sync_realm : Json → Json → Admin Summary
unfolding make_plans carry_out
sync_realm desired_realm token = make_plans desired_realm token >>= carry_out desired_realm token

-- The first checks of `main`, the token, and the realm.
unfoldable pub start : Secrets → Json → Admin Summary
unfolding wait_for_keycloak sync_realm
start secrets desired_realm = do
  _ ← pure_step (key_provider_admin_payload desired_realm)
  token ← wait_for_keycloak secrets
  sync_realm desired_realm token
