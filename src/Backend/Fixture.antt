-- ===== src/Backend/Fixture.antt =====
-- An upstream, evidence and a request for the tests: route A through the pinned gateway.
use konnect_oidc_fapi2_keycl.Common.{◌≡◌, refl, true, some, [], ◌∷◌, ◌++◌, arith, ok}
use konnect_oidc_fapi2_keycl.Python.Text.{Text, Bytes, str, ◌==◌, lower, partition, strip}
use konnect_oidc_fapi2_keycl.Python.Json.{
  Fields, text, obj, dict, get, has_key, passes_hook, unique_object,
}
use konnect_oidc_fapi2_keycl.Python.Headers.{get_all}
use konnect_oidc_fapi2_keycl.Backend.Config.{route_a}
use konnect_oidc_fapi2_keycl.Backend.Bearer.{is_token, is_token_char, is_token_tail}
use konnect_oidc_fapi2_keycl.Backend.Allowlist.{
  Evidence, evidence_items, HasItems, IsSafeText, IsThumbprint, IsMatching,
}
use konnect_oidc_fapi2_keycl.Backend.Allowlist.Exact.{Holds}
use konnect_oidc_fapi2_keycl.Python.Json.Unique.{NoRepeats, passes_hook_iff}
use konnect_oidc_fapi2_keycl.Backend.Outcomes.{IsDocument, IsGood}
use konnect_oidc_fapi2_keycl.Backend.Fetch.{
  Upstream, UpstreamResponse, is_json, is_valid_length, is_valid_size, decimal,
}
use konnect_oidc_fapi2_keycl.Backend.Server.{Request}

abbrev pub thumbprint : Text
thumbprint = str "AwcHBwcHBwcHBwcHBwcHBwcHBwcHBwcHBwcHBwcHBwc"

abbrev pub evidence : Evidence
evidence = record {
  department = some (str "risk");
  logical_route = some (str "route-a");
  department_header = some (str "risk");
  logical_route_header = some (str "route-a");
  thumbprint = thumbprint;
  peer_thumbprint = thumbprint;
  header_claims_match = true;
}

-- The evidence and one more field, which is not let through.
abbrev pub source : Fields
source = dict (evidence_items route_a evidence ++ (str "sub", text (str "alice")) ∷ [])

abbrev pub body : Bytes
body = str "{}"

abbrev pub response : UpstreamResponse
response = record {
  status = 200;
  headers =
      (str "content-type", str "Application/JSON; charset=utf-8")
      ∷ (str "Content-Length", str "2")
      ∷ [];
  read = λ n. ok body;
}

abbrev pub upstream : Upstream
upstream = record { exchange = λ request. ok response; parse = λ bytes. some (obj source) }

abbrev pub token : Text
token = str "abc.def=="

abbrev pub pin : Bytes
pin = 48 ∷ 1 ∷ []

abbrev pub request : Request
request = record {
  peer = some pin;
  path = str "/evidence/route-a";
  headers = (str "authorization", str "BEARER abc.def==") ∷ [];
}

pub present : HasItems source (evidence_items route_a evidence)
unfolding dict get str ◌==◌
present = (
  refl,
  (
    refl,
    (refl, (refl, (refl, (refl, (refl, (refl, (refl, (refl, (refl, (refl, (refl, tt))))))))))),
  ),
)

risk-IsSafeText : IsSafeText (some (str "risk"))
unfolding str
risk-IsSafeText = (omega arith, refl)

route-IsSafeText : IsSafeText (some (str "route-a"))
unfolding str
route-IsSafeText = (omega arith, refl)

thumbprint-IsThumbprint : IsThumbprint thumbprint
unfolding str
thumbprint-IsThumbprint = (refl, refl)

risk-IsMatching : IsMatching true (some (str "risk")) (some (str "risk"))
unfolding str
risk-IsMatching = (str "risk", λ e. cc, refl, refl)

route-IsMatching : IsMatching true (some (str "route-a")) (some (str "route-a"))
unfolding str
route-IsMatching = (str "route-a", λ e. cc, refl, refl)

pub holds : Holds source route_a evidence
holds = record {
  present = present;
  well_formed = record {
    department = risk-IsSafeText;
    logical_route = route-IsSafeText;
    department_header = risk-IsSafeText;
    logical_route_header = route-IsSafeText;
    thumbprint = thumbprint-IsThumbprint;
    peer_thumbprint = thumbprint-IsThumbprint;
    department_match = risk-IsMatching;
    route_match = route-IsMatching;
  };
}

passes : passes_hook (obj source) ≡ true
unfolding passes_hook unique_object has_key dict str ◌==◌
passes = refl

no_repeats : NoRepeats (obj source)
no_repeats = (passes_hook_iff (obj source)).0 passes

pub document : IsDocument upstream.parse body route_a evidence
document = record { source = source; parsed = refl; no_repeats = no_repeats; holds = holds }

content_type : is_json (get_all (str "Content-Type") response.headers) ≡ true
unfolding is_json get_all lower partition strip str ◌==◌
content_type = refl

announced : is_valid_length (get_all (str "Content-Length") response.headers) ≡ true
unfolding is_valid_length get_all lower decimal str ◌==◌
announced = refl

size : is_valid_size (get_all (str "Content-Length") response.headers) body ≡ true
unfolding is_valid_size get_all lower decimal str ◌==◌
size = refl

pub good : IsGood upstream token route_a evidence
good = record {
  response = response;
  answered = refl;
  status = refl;
  content_type = content_type;
  announced = announced;
  body = body;
  read = refl;
  size = size;
  document = document;
}

pub is_token_token : is_token token ≡ true
unfolding is_token is_token_char is_token_tail str
is_token_token = refl
