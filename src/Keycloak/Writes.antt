-- ===== src/Keycloak/Writes.antt =====
-- How many writes a run makes for its plans.
use konnect_oidc_fapi2_keycl.Common.{
  ◌≡◌, refl, sym, ap, ◌∙◌, ℕ, ◌+◌, Bool, false, not, List, [], ◌∷◌, ◌++◌, length, ok, err, Option,
  none, some, arith,
}
use konnect_oidc_fapi2_keycl.Python.Text.{Text, str, ◌==◌}
use konnect_oidc_fapi2_keycl.Python.Url.{quote}
use konnect_oidc_fapi2_keycl.Python.Json.{Json, Fields}
use konnect_oidc_fapi2_keycl.Program.{AllCalls, run, trace, count, from, ◌>>=◌, ◌>>◌}
use konnect_oidc_fapi2_keycl.Program.Laws.{
  count->>=, count-none, count_after, run-done, AllCalls->>=, AllCalls->>, AllCalls-check,
  AllCalls-from,
}
use konnect_oidc_fapi2_keycl.Keycloak.Mappers
use konnect_oidc_fapi2_keycl.Keycloak.Clients
use konnect_oidc_fapi2_keycl.Keycloak.Request.{
  Call, Reply, Admin, answer, get_method, post, put_method, request_get, request_body, mappers_path,
  client_path, clients_query, realm_path, other,
}
use konnect_oidc_fapi2_keycl.Keycloak.Prepare.{ClientAction}
use konnect_oidc_fapi2_keycl.Keycloak.Apply.{
  apply_mapper, apply_mappers, apply_all_mappers, apply_client, apply_clients, apply_client_sync,
  changed_clients, created_uuid, uuid_of, Uuids, with_id, update_body, client_id_of, is_change,
}
use konnect_oidc_fapi2_keycl.Keycloak.ReadOnly.{
  answer-AllCalls, mappers_path-AllCalls, client_path-AllCalls, clients_query-AllCalls,
}

abbrev pub is_write : Call → Bool
is_write c = not (c.method == get_method)

-- The actions of all mapper plans.
unfoldable pub mapper_actions : List ClientAction → ℕ
mapper_actions [] = 0
mapper_actions ((_, mapper_plan) ∷ plan) = length mapper_plan + mapper_actions plan

abbrev IsQuiet : Call → Type 0
IsQuiet c = is_write c ≡ false

not_get :
    (path : Text) (t : Option Json) (body : Option Json) (form : List (Text × Text))
    → is_write (record { method = get_method; path = path; token = t; body = body; form = form })
      ≡ false
unfolding ◌==◌ str
not_get path t body form = refl

get-IsQuiet : (token : Json) (path : Text) → AllCalls IsQuiet (request_get token path)
get-IsQuiet token path = (not_get path (some token) none [], answer-AllCalls IsQuiet)

ruleset quiet_steps = (
  AllCalls->>=, AllCalls->>, AllCalls-from, AllCalls-check, get-IsQuiet, client_path-AllCalls,
  mappers_path-AllCalls, clients_query-AllCalls,
)

created_uuid-IsQuiet : (id : Text) (created : Json) → AllCalls IsQuiet (created_uuid id created)
unfolding created_uuid
created_uuid-IsQuiet id created = search quiet_steps

-- What comes after the POST of a new client.
abbrev look_up : Json → Text → Admin Text
look_up token id = do
  path ← clients_query id
  created ← request_get token path
  created_uuid id created

look_up-IsQuiet : (token : Json) (id : Text) → AllCalls IsQuiet (look_up token id)
look_up-IsQuiet token id = search (quiet_steps, created_uuid-IsQuiet)

module _ {S : Type 0} (serve : Call → S → Reply × S) (token : Json) where
  answer-none : (r : Reply) (s : S) → count is_write (trace serve (answer r) s) ≡ 0
  unfolding trace count
  answer-none (ok _) s = refl
  answer-none (err _) s = refl

  -- A request with a body is one write.
  post-one :
      (path : Text) (body : Fields) (s : S)
      → count is_write (trace serve (request_body post token path body) s) ≡ 1
  unfolding trace count str ◌==◌
  post-one path body s = ap (λ (n : ℕ). 1 + n) (answer-none _ _)

  put-one :
      (path : Text) (body : Fields) (s : S)
      → count is_write (trace serve (request_body put_method token path body) s) ≡ 1
  unfolding trace count str ◌==◌
  put-one path body s = ap (λ (n : ℕ). 1 + n) (answer-none _ _)

  apply_mapper-one :
      (uuid : Text) (action : Mappers.Action) (s : S) {j : Json}
      → (run serve (apply_mapper token uuid action) s).0 ≡ ok j
      → count is_write (trace serve (apply_mapper token uuid action) s) ≡ 1
  unfolding apply_mapper
  apply_mapper-one uuid (Mappers.create payload) s h =
      let (path, _, _, n) =
        count_after serve is_write (mappers_path uuid) _ s (mappers_path-AllCalls IsQuiet uuid) h in
      n ∙ post-one path payload _
  apply_mapper-one uuid (Mappers.update id payload) s h =
      let (path, _, h₁, n) =
        count_after serve is_write (mappers_path uuid) _ s (mappers_path-AllCalls IsQuiet uuid) h in
      let (quoted, _, _, n₁) =
        count_after serve is_write (from (quote id) other) _ _
          (AllCalls-from (λ _. Reply) IsQuiet (quote id) other) h₁ in
      n ∙ n₁ ∙ put-one (path ++ str "/" ++ quoted) (with_id id payload) _

  apply_mappers-length :
      (uuid : Text) (plan : List Mappers.Action) (s : S) {n : ℕ}
      → (run serve (apply_mappers token uuid plan) s).0 ≡ ok n
      → (n ≡ length plan)
        × (count is_write (trace serve (apply_mappers token uuid plan) s) ≡ length plan)
  unfolding apply_mappers ◌>>◌ trace count
  apply_mappers-length uuid [] s h = (sym (run-done serve _ _ h), refl)
  apply_mappers-length uuid (action ∷ plan) s h =
      let (_, h₀, h₁, n) = count->>= serve is_write (apply_mapper token uuid action) _ s h in
      let (rest, h₂, h₃, n₁) = count->>= serve is_write (apply_mappers token uuid plan) _ _ h₁ in
      let (same, more) = apply_mappers-length uuid plan _ h₂ in
      let one = apply_mapper-one uuid action s h₀ in
      let e = run-done serve _ _ h₃ in (omega (arith, e, same), omega (arith, n, n₁, more, one))

  apply_all_mappers-actions :
      (uuids : Uuids) (plan : List ClientAction) (s : S) {n : ℕ}
      → (run serve (apply_all_mappers token uuids plan) s).0 ≡ ok n
      → (n ≡ mapper_actions plan)
        × (count is_write (trace serve (apply_all_mappers token uuids plan) s)
            ≡ mapper_actions plan)
  unfolding apply_all_mappers mapper_actions trace count ◌>>◌
  apply_all_mappers-actions uuids [] s h = (sym (run-done serve _ _ h), refl)
  apply_all_mappers-actions uuids ((action, mapper_plan) ∷ plan) s h =
      let (uuid, _, h₁, n) =
        count_after serve is_write (from (uuid_of (client_id_of action) uuids) other) _ s
          (AllCalls-from (λ _. Reply) IsQuiet (uuid_of (client_id_of action) uuids) other) h in
      let (_, _, h₂, n₁) =
        count_after serve is_write (mappers_path uuid) _ _ (mappers_path-AllCalls IsQuiet uuid)
          h₁ in
      let (_, h₃, h₄, n₂) =
        count->>= serve is_write (apply_mappers token uuid mapper_plan) _ _ h₂ in
      let (_, h₅, h₆, n₃) = count->>= serve is_write (apply_all_mappers token uuids plan) _ _ h₄ in
      let (same, made) = apply_mappers-length uuid mapper_plan _ h₃ in
      let (same₁, made₁) = apply_all_mappers-actions uuids plan _ h₅ in
      let e = run-done serve _ _ h₆ in
      (omega (arith, e, same, same₁), omega (arith, n, n₁, n₂, n₃, made, made₁))

  apply_client-change :
      (action : Clients.Action) (s : S) {uuid : Text}
      → (run serve (apply_client token action) s).0 ≡ ok uuid
      → count is_write (trace serve (apply_client token action) s) ≡ is_change action
  unfolding apply_client trace count ◌>>◌
  apply_client-change (Clients.noop _ _ _ _) s h = refl
  apply_client-change (Clients.create id payload) s h =
      let (_, _, h₁, n) =
        count->>= serve is_write (request_body post token (realm_path ++ str "/clients") payload) _
          s h in
      let one = post-one (realm_path ++ str "/clients") payload s in
      let quiet =
        count-none serve is_write (look_up token id)
          (run serve (request_body post token (realm_path ++ str "/clients") payload) s).1
          (look_up-IsQuiet token id) in
      omega (arith, n, one, quiet)
  apply_client-change (Clients.update id uuid payload current) s h =
      let (body, _, h₁, n) =
        count_after serve is_write (from (update_body uuid payload current) other) _ s
          (AllCalls-from (λ _. Reply) IsQuiet (update_body uuid payload current) other) h in
      let (path, _, h₂, n₁) =
        count_after serve is_write (client_path uuid) _ _ (client_path-AllCalls IsQuiet uuid) h₁ in
      let (_, _, h₃, n₂) =
        count->>= serve is_write (request_body put_method token path body) _ _ h₂ in
      let one = put-one path body _ in n ∙ n₁ ∙ n₂ ∙ ap (λ (k : ℕ). k + 0) one

  apply_clients-changed :
      (uuids : Uuids) (plan : List ClientAction) (s : S) {result : Uuids}
      → (run serve (apply_clients token uuids plan) s).0 ≡ ok result
      → count is_write (trace serve (apply_clients token uuids plan) s) ≡ changed_clients plan
  unfolding apply_clients changed_clients trace count
  apply_clients-changed uuids [] s h = refl
  apply_clients-changed uuids ((action, _) ∷ plan) s h =
      let (uuid, h₁, h₂, n) = count->>= serve is_write (apply_client token action) _ s h in
      let one = apply_client-change action s h₁ in
      let more = apply_clients-changed ((client_id_of action, uuid) ∷ uuids) plan _ h₂ in
      omega (arith, n, one, more)

  -- Where a plan for the clients is carried out without an exception, the two numbers returned are
  -- the clients to create or update in it and the actions of its mapper plans, and as many POST and
  -- PUT requests as both together were made.
  pub apply_client_sync-writes :
      (plan : List ClientAction) (s : S) (clients mappers : ℕ)
      → (run serve (apply_client_sync plan token) s).0 ≡ ok (clients, mappers)
      → (clients ≡ changed_clients plan)
        × (mappers ≡ mapper_actions plan)
        × (count is_write (trace serve (apply_client_sync plan token) s) ≡ clients + mappers)
  unfolding apply_client_sync trace count
  apply_client_sync-writes plan s clients mappers h =
      let (uuids, h₁, h₂, n) = count->>= serve is_write (apply_clients token [] plan) _ s h in
      let (k, h₃, h₄, n₁) = count->>= serve is_write (apply_all_mappers token uuids plan) _ _ h₂ in
      let made = apply_clients-changed [] plan s h₁ in
      let (same, made₁) = apply_all_mappers-actions uuids plan _ h₃ in
      let e = run-done serve _ _ h₄ in
      let left : changed_clients plan ≡ clients = ap (λ (p : ℕ × ℕ). p.0) e in
      let right : k ≡ mappers = ap (λ (p : ℕ × ℕ). p.1) e in
      (sym left, omega (arith, right, same), omega (arith, n, n₁, made, made₁, left, right, same))
