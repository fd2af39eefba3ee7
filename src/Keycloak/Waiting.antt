-- ===== src/Keycloak/Waiting.antt =====
-- The wait for Keycloak ends: wait_for_keycloak.
use konnect_oidc_fapi2_keycl.Common.{
  ◌≡◌, refl, sym, subst, ap, ℕ, zero, suc, ◌+◌, ◌≤◌, some, length, ok, err, arith,
}
use konnect_oidc_fapi2_keycl.Python.Text.{Text, str}
use konnect_oidc_fapi2_keycl.Python.Json.{Json, as_object, get}
use konnect_oidc_fapi2_keycl.Program.{◌>>=◌, catch, run, trace}
use konnect_oidc_fapi2_keycl.Program.Bounded.{
  AtMost, AtMost-mono, AtMost-from, AtMost->>=, AtMost-catch, length-trace,
}
use konnect_oidc_fapi2_keycl.Keycloak.Request.{
  Call, Reply, Error, runtime, url_error, other, Admin, answer,
}
use konnect_oidc_fapi2_keycl.Keycloak.Main.{
  Secrets, admin_token, attempt, retry, wait_for_keycloak, token_call, read_token,
}

answer-AtMost : (r : Reply) → AtMost 0 (answer r)
answer-AtMost (ok _) = tt
answer-AtMost (err _) = tt

admin_token-AtMost : (secrets : Secrets) → AtMost 1 (admin_token secrets)
unfolding admin_token
admin_token-AtMost secrets =
    AtMost->>= 0 1 _ _ (AtMost-from Call (λ _. Reply) secrets.username other) λ username.
      AtMost->>= 0 1 _ _ (AtMost-from Call (λ _. Reply) secrets.password other) λ password.
        AtMost->>= 1 0 _ _ (0, refl, answer-AtMost)
          λ reply.
            AtMost->>= 0 0 _ _ (AtMost-from Call (λ _. Reply) (as_object reply) other)
              λ fields. AtMost-from Call (λ _. Reply) (get (str "access_token") fields) other

retry-AtMost : (n : ℕ) (e : Error) (again : Admin Json) → AtMost n again → AtMost n (retry e again)
retry-AtMost n (runtime _) again h = h
retry-AtMost n url_error again h = h
retry-AtMost n other again h = tt

attempt-AtMost : (n : ℕ) (secrets : Secrets) → AtMost n (attempt n secrets)
unfolding attempt
attempt-AtMost zero secrets = tt
attempt-AtMost (suc n) secrets = AtMost-mono (1 + n) (suc n) _ (omega arith) (
    AtMost-catch 1 n (admin_token secrets) _ (admin_token-AtMost secrets)
      λ e. retry-AtMost n e (attempt n secrets) (attempt-AtMost n secrets))

-- However Keycloak answers, the wait for it ends, after 30 requests at most.
pub wait_for_keycloak-bound :
    {S : Type 0} (serve : Call → S → Reply × S) (secrets : Secrets) (s : S)
    → length (trace serve (wait_for_keycloak secrets) s) ≤ 30
unfolding wait_for_keycloak
wait_for_keycloak-bound serve secrets s =
    length-trace serve 30 (attempt 30 secrets) s (attempt-AtMost 30 secrets)

-- What makes the loop go on.
abbrev pub IsRetried : Reply → Type 0
IsRetried (ok _) = ⊥
IsRetried (err (runtime _)) = Unit
IsRetried (err url_error) = Unit
IsRetried (err other) = ⊥

retried-catch :
    (r : Reply) (f : Json → Admin Json) (again : Admin Json)
    → IsRetried r
    → catch (answer r >>= f) (λ e. retry e again) ≡ again
unfolding catch ◌>>=◌
retried-catch (ok _) f again h = absurd h
retried-catch (err (runtime _)) f again h = refl
retried-catch (err url_error) f again h = refl
retried-catch (err other) f again h = absurd h

abbrev pub not_ready : Error
not_ready = runtime (str "Keycloak did not become ready within 60 seconds")

module _ {S : Type 0} (serve : Call → S → Reply × S) (username password : Text)
    (always : (c : Call) (s : S) → IsRetried (serve c s).0) where
  abbrev pub given : Secrets
  given = record { username = some username; password = some password }

  abbrev IsAsked : ℕ → S → Type 0
  IsAsked n s =
      ((run serve (attempt n given) s).0 ≡ err not_ready)
      × (length (trace serve (attempt n given) s) ≡ n)

  attempt-IsAsked : (n : ℕ) (s : S) → IsAsked n s
  unfolding attempt admin_token run trace ◌>>=◌ catch
  attempt-IsAsked zero s = (refl, refl)
  attempt-IsAsked (suc n) s =
      let c : Call = token_call username password in
      let (raised, asked) = attempt-IsAsked n (serve c s).1 in
      subst
        (λ p.
          ((run serve p (serve c s).1).0 ≡ err not_ready)
          × (suc (length (trace serve p (serve c s).1)) ≡ suc n))
        (sym (retried-catch (serve c s).0 read_token (attempt n given) (always c s)))
        (raised, ap suc asked)

  -- Where every answer is an exception that the loop goes on after, the wait makes exactly 30
  -- requests and ends with its own exception.
  pub wait_for_keycloak-exhausted :
      (s : S)
      → ((run serve (wait_for_keycloak given) s).0 ≡ err not_ready)
        × (length (trace serve (wait_for_keycloak given) s) ≡ 30)
  unfolding wait_for_keycloak
  wait_for_keycloak-exhausted s = attempt-IsAsked 30 s
