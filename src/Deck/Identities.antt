-- ===== src/Deck/Identities.antt =====
-- The identities of the entities that a change of the gateway may name: their order, and the plans
-- that were reviewed.
use konnect_oidc_fapi2_keycl.Common.{
  String, Bool, true, false, ◌&&◌, List, [], ◌∷◌, ◌++◌, Option, none, some, ltb, eqb, all,
  if◌then◌else◌,
}
use konnect_oidc_fapi2_keycl.Python.Text.{Text, str, ◌==◌}

-- A kind and a name.
abbrev pub Identity : Type 0
Identity = Text × Text

abbrev pub same_identity : Identity → Identity → Bool
same_identity (kind, name) (k, n) = kind == k && name == n

unfoldable pub has_identity : Identity → List Identity → Bool
has_identity i [] = false
has_identity i (j ∷ js) = let rest = has_identity i js in if same_identity j i then true else rest

unfoldable pub same_identities : List Identity → List Identity → Bool
same_identities [] [] = true
same_identities [] (_ ∷ _) = false
same_identities (_ ∷ _) [] = false
same_identities (i ∷ is) (j ∷ js) = same_identity i j && same_identities is js

-- `set(is) == set(js)`
unfoldable pub same_set : List Identity → List Identity → Bool
unfolding has_identity
same_set is js = all (λ i. has_identity i js) is && all (λ j. has_identity j is) js

-- `s <= t` of strings
unfoldable pub text_before : Text → Text → Bool
text_before [] t = true
text_before (x ∷ s) [] = false
text_before (x ∷ s) (y ∷ t) =
    let rest = text_before s t in if ltb x y then true else eqb x y && rest

-- `i <= j` of pairs
unfoldable pub identity_before : Identity → Identity → Bool
unfolding text_before
identity_before (kind, name) (k, n) = if kind == k then text_before name n else text_before kind k

-- `sorted`, by a key: it keeps the order of what has equal keys.
module _ {A : Type 0} (key : A → Identity) where
  unfoldable pub insert_by : A → List A → List A
  unfolding identity_before
  insert_by a [] = a ∷ []
  insert_by a (b ∷ bs) =
      let rest = insert_by a bs in if identity_before (key a) (key b) then a ∷ b ∷ bs else b ∷ rest

  unfoldable pub sorted_by : List A → List A
  unfolding insert_by
  sorted_by [] = []
  sorted_by (a ∷ more) = insert_by a (sorted_by more)

unfoldable pub sorted : List Identity → List Identity
unfolding sorted_by
sorted is = sorted_by (λ i. i) is

abbrev service : String → Identity
service name = (str "service", str name)

abbrev route : String → Identity
route name = (str "route", str name)

abbrev plugin : String → Identity
plugin name = (str "plugin", str name)

-- WP5_EXPECTED_CREATE_IDENTITIES
abbrev pub wp5_created : List Identity
wp5_created =
    service "third-party-route-a-api"
    ∷ service "third-party-route-b-api"
    ∷ route "third-party-route-a"
    ∷ route "third-party-route-b"
    ∷ plugin "cors for service third-party-route-a-api"
    ∷ plugin "openid-connect for service third-party-route-a-api"
    ∷ plugin "request-transformer for service third-party-route-a-api"
    ∷ plugin "cors for service third-party-route-b-api"
    ∷ plugin "fapi-client-auth-bridge for service third-party-route-b-api"
    ∷ plugin "openid-connect for service third-party-route-b-api"
    ∷ plugin "request-transformer for service third-party-route-b-api"
    ∷ []

-- BACKEND_RECOVERY_CREATE_IDENTITIES
abbrev pub recovery_created : List Identity
recovery_created =
    route "third-party-static-ui"
    ∷ plugin "request-transformer for service third-party-static-ui"
    ∷ []

-- BACKEND_NEW_IDENTITIES
abbrev pub backend_created : List Identity
backend_created =
    (str "certificate", str "742c3d79-850f-5761-9544-63864bab5cad")
    ∷ service "third-party-static-ui"
    ∷ recovery_created

-- BACKEND_RECOVERY_UPDATE_IDENTITIES
abbrev pub recovery_updated : List Identity
recovery_updated =
    plugin "openid-connect for service third-party-route-a-api"
    ∷ plugin "openid-connect for service third-party-route-b-api"
    ∷ plugin "cors for service third-party-route-a-api"
    ∷ plugin "cors for service third-party-route-b-api"
    ∷ []

-- BACKEND_UPDATED_IDENTITIES
abbrev pub backend_updated : List Identity
backend_updated =
    service "third-party-route-a-api" ∷ service "third-party-route-b-api" ∷ recovery_updated

-- A plan: what is created, updated and deleted. Each list stands for a set, with no repetition.
pub record Plan : Type 0 where
  pub creating : List Identity
  pub updating : List Identity
  pub deleting : List Identity

-- BACKEND_PLANS, by the type of the plan
unfoldable pub plan_of : Text → Option Plan
plan_of name =
    if name == str "migration"
    then some (record { creating = backend_created; updating = backend_updated; deleting = [] })
    else if name == str "bootstrap"
    then some (record { creating = wp5_created ++ backend_created; updating = []; deleting = [] })
    else if name == str "noop"
    then some (record { creating = []; updating = []; deleting = [] })
    else if name == str "migration-recovery"
    then some (record { creating = recovery_created; updating = recovery_updated; deleting = [] })
    else none
