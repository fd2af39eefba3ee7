-- ===== src/Program/Bounded.antt =====
-- A bound on the number of calls of a chain of programs.
use konnect_oidc_fapi2_keycl.Common.{◌≡◌, ℕ, suc, ◌+◌, ◌-◌, ◌≤◌, Option, none, some, length, arith}
use konnect_oidc_fapi2_keycl.Program.{Program, done, fail, call, ◌>>=◌, catch, from, trace}

module _ {O : Type 0} {R : O → Type 0} {E : Type 0} where
  -- At most so many calls are made, whatever the replies.
  abbrev pub AtMost : {A : Type 0} → ℕ → Program O R E A → Type 0
  AtMost n (done a) = Unit
  AtMost n (fail e) = Unit
  AtMost n (call o k) = (m : ℕ) × (n ≡ suc m) × ((r : R o) → AtMost m (k r))

  pub AtMost-mono : {A : Type 0} (m n : ℕ) (p : Program O R E A) → m ≤ n → AtMost m p → AtMost n p
  AtMost-mono m n (done a) le h = tt
  AtMost-mono m n (fail e) le h = tt
  AtMost-mono m n (call o k) le (l, e, h) =
      (n - 1, omega (arith, le, e), λ r. AtMost-mono l (n - 1) (k r) (omega (arith, le, e)) (h r))

  pub AtMost->>= :
      {A B : Type 0} (m n : ℕ) (p : Program O R E A) (f : A → Program O R E B)
      → AtMost m p
      → ((a : A) → AtMost n (f a))
      → AtMost (m + n) (p >>= f)
  unfolding ◌>>=◌
  AtMost->>= m n (done a) f h q = AtMost-mono n (m + n) (f a) (omega arith) (q a)
  AtMost->>= m n (fail e) f h q = tt
  AtMost->>= m n (call o k) f (l, e, h) q =
      (l + n, omega (arith, e), λ r. AtMost->>= l n (k r) f (h r) q)

  pub AtMost-catch :
      {A : Type 0} (m n : ℕ) (p : Program O R E A) (handler : E → Program O R E A)
      → AtMost m p
      → ((e : E) → AtMost n (handler e))
      → AtMost (m + n) (catch p handler)
  unfolding catch
  AtMost-catch m n (done a) handler h q = tt
  AtMost-catch m n (fail e) handler h q = AtMost-mono n (m + n) (handler e) (omega arith) (q e)
  AtMost-catch m n (call o k) handler (l, e, h) q =
      (l + n, omega (arith, e), λ r. AtMost-catch l n (k r) handler (h r) q)

  pub length-trace :
      {A S : Type 0} (serve : (o : O) → S → R o × S) (n : ℕ) (p : Program O R E A) (s : S)
      → AtMost n p
      → length (trace serve p s) ≤ n
  unfolding trace
  length-trace serve n (done a) s h = omega arith
  length-trace serve n (fail e) s h = omega arith
  length-trace serve n (call o k) s (l, e, h) =
      let (r, next) = serve o s in
      let later : length (trace serve (k r) next) ≤ l = length-trace serve l (k r) next (h r) in
      omega (arith, e, later)

pub AtMost-from :
    {E A : Type 0} (O : Type 0) (R : O → Type 0) (o : Option A) (e : E)
    → AtMost 0 (from {O = O} {R = R} {E = E} o e)
AtMost-from O R none e = tt
AtMost-from O R (some a) e = tt
