-- ===== src/Program.antt =====
-- A program that calls on something outside it: a tree of its calls, with a branch for each reply.
-- `O` are the calls, `R o` the replies to `o` and `E` the exceptions.
pub mod Laws
pub mod Bounded
use konnect_oidc_fapi2_keycl.Common.{
  ℕ, ◌+◌, Option, none, some, Bool, if◌then◌else◌, Result, ok, err, List, [], ◌∷◌,
}

pub data Program (O : Type 0) (R : O → Type 0) (E A : Type 0) : Type 0 where
  done : A → Program O R E A
  fail : E → Program O R E A
  call : (o : O) → (R o → Program O R E A) → Program O R E A

module _ {O : Type 0} {R : O → Type 0} {E : Type 0} where
  infixl 5 ◌>>=◌
  unfoldable pub ◌>>=◌ : {A B : Type 0} → Program O R E A → (A → Program O R E B) → Program O R E B
  done a >>= f = f a
  fail e >>= f = fail e
  call o k >>= f = call o (λ r. k r >>= f)

  infixl 5 ◌>>◌
  unfoldable pub ◌>>◌ : {A B : Type 0} → Program O R E A → Program O R E B → Program O R E B
  unfolding ◌>>=◌
  m >> n = m >>= λ _. n

  -- `try: m`, with a handler for every exception.
  unfoldable pub catch : {A : Type 0} → Program O R E A → (E → Program O R E A) → Program O R E A
  catch (done a) handler = done a
  catch (fail e) handler = handler e
  catch (call o k) handler = call o (λ r. catch (k r) handler)

  -- `try: m`, with a last call whether `m` raises or not.
  unfoldable pub finally :
      {A : Type 0} → Program O R E A → Program O R E (Unit {0}) → Program O R E A
  unfolding ◌>>=◌ ◌>>◌
  finally (done a) last = last >> done a
  finally (fail e) last = last >> fail e
  finally (call o k) last = call o (λ r. finally (k r) last)

  -- A computation with no calls, as a step of the program.
  abbrev pub lift : {F A : Type 0} → (F → E) → Result F A → Program O R E A
  lift raise (ok a) = done a
  lift raise (err e) = fail (raise e)

  abbrev pub from : {A : Type 0} → Option A → E → Program O R E A
  from none e = fail e
  from (some a) e = done a

  abbrev pub check : Bool → E → Program O R E (Unit {0})
  check test e = if test then done tt else fail e

  -- `if test: m`
  abbrev pub when : Bool → Program O R E (Unit {0}) → Program O R E (Unit {0})
  when test m = if test then m else done tt

  -- Every call that may be made, whatever the replies, is one of `P`.
  abbrev pub AllCalls : {A : Type 0} → (O → Type 0) → Program O R E A → Type 0
  AllCalls P (done a) = Unit
  AllCalls P (fail e) = Unit
  AllCalls P (call o k) = P o × ((r : R o) → AllCalls P (k r))

  -- The run of a program against something with a state.
  unfoldable pub run :
      {S A : Type 0} → ((o : O) → S → R o × S) → Program O R E A → S → Result E A × S
  run serve (done a) s = (ok a, s)
  run serve (fail e) s = (err e, s)
  run serve (call o k) s = let (r, next) = serve o s in run serve (k r) next

  -- The state that a run leaves.
  abbrev pub after : {S A : Type 0} → ((o : O) → S → R o × S) → Program O R E A → S → S
  after serve m s = (run serve m s).1

  -- The calls that a run makes, in their order.
  unfoldable pub trace : {S A : Type 0} → ((o : O) → S → R o × S) → Program O R E A → S → List O
  trace serve (done a) s = []
  trace serve (fail e) s = []
  trace serve (call o k) s = let (r, next) = serve o s in o ∷ trace serve (k r) next

-- How many of the calls pass a test.
unfoldable pub count : {O : Type 0} → (O → Bool) → List O → ℕ
count p [] = 0
count p (o ∷ os) = if p o then 1 + count p os else count p os
