-- ===== src/Backend/RoundTrip.antt =====
-- The readiness server's status passes the check of it.
use konnect_oidc_fapi2_keycl.Common.{
  ◌≡◌, inl, inr, sym, ap, ◌∙◌, true, Option, some, [], ◌∷◌, arith, ok, Bool-cases, Option-cases,
}
use konnect_oidc_fapi2_keycl.Python.Int.{pos, is_positive}
use konnect_oidc_fapi2_keycl.Python.Text.{Text, Bytes, str, ◌==◌}
use konnect_oidc_fapi2_keycl.Python.Text.Laws.{==_iff}
use konnect_oidc_fapi2_keycl.Python.Json.{Fields, bool, int, text, obj, get, keys, dict}
use konnect_oidc_fapi2_keycl.Backend.Ready.{
  ReadyServer, handle, validate_ready_status, is_hex_of, same_set, is_member, ready_request,
}

-- The state that a ReadyServer is made with: the hash of SHA-256 in hex, 16 random bytes in hex,
-- and a process number.
pub record IsStarted (server : ReadyServer) : Type 0 where
  pub config_hash : is_hex_of 64 server.config_hash ≡ true
  pub generation : is_hex_of 32 server.generation ≡ true
  pub pid : is_positive server.pid ≡ true

abbrev status_of : ReadyServer → Fields
status_of server = dict (
    (str "schema_version", int (pos 1))
    ∷ (str "ready", bool true)
    ∷ (str "generation", text server.generation)
    ∷ (str "config_sha256", text server.config_hash)
    ∷ (str "pid", int server.pid)
    ∷ [])

status_of-valid :
    (server : ReadyServer)
    → IsStarted server
    → validate_ready_status (obj (status_of server)) ≡ ok (status_of server)
unfolding validate_ready_status same_set is_member keys get dict str ◌==◌
status_of-valid server s = simp (s.config_hash, s.generation, s.pid)

some-injective : {a b : Fields} → ◌≡◌ {A = Option Fields} (some a) (some b) → a ≡ b
some-injective h = cc

answered :
    (server : ReadyServer) (received : Bytes) (hash : Text) (current : Option Text)
    {fields : Fields}
    → handle server received current ≡ some fields
    → (received == ready_request) ≡ true
    → current ≡ some hash
    → (hash == server.config_hash) ≡ true
    → some (status_of server) ≡ some fields
unfolding handle
answered server received hash current h asked now same = ground (arith, asked, now, same, h)

handle-eq-some :
    (server : ReadyServer) (received : Bytes) (current : Option Text) (fields : Fields)
    → handle server received current ≡ some fields
    → (received ≡ ready_request) × (current ≡ some server.config_hash) × (fields ≡ status_of server)
unfolding handle
handle-eq-some server received current fields h = elim (Bool-cases (received == ready_request)) [
  | inr other ↦ ground (arith, other, h)
  | inl asked ↦ elim (Option-cases current) [
    | inl absent ↦ ground (arith, asked, absent, h)
    | inr (hash, now) ↦ elim (Bool-cases (hash == server.config_hash)) [
      | inr changed ↦ ground (arith, asked, now, changed, h)
      | inl same ↦ (
        (==_iff received ready_request).0 asked,
        now ∙ ap some ((==_iff hash server.config_hash).0 same),
        sym (some-injective (answered _ _ _ _ h asked now same)),
      )
    ]
  ]
]

-- Where a readiness server was started with a hash of 64 and a generation of 32 hexadecimal digits
-- and a positive process number, a status that it answers is accepted by the check as it is, was
-- asked for by the ready request, and is given only while the configuration has the hash of the
-- start.
pub handle-validate_ready_status :
    (server : ReadyServer) (received : Bytes) (current : Option Text) (fields : Fields)
    → IsStarted server
    → handle server received current ≡ some fields
    → (validate_ready_status (obj fields) ≡ ok fields)
      × (received ≡ ready_request)
      × (current ≡ some server.config_hash)
handle-validate_ready_status server received current fields s h =
    let (asked, now, answer) = handle-eq-some server received current fields h in
    (rw answer (status_of-valid server s), asked, now)
