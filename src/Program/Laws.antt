-- ===== src/Program/Laws.antt =====
-- What a chain of programs calls and returns.
use konnect_oidc_fapi2_keycl.Common.{
  if◌then◌else◌, ◌≡◌, refl, subst, ◌+◌, arith, ap, Bool, true, false, Option, none, some, Result,
  ok, err, List, [], ◌∷◌, ◌++◌, All, ok-injective,
}
use konnect_oidc_fapi2_keycl.Program.{
  Program, done, fail, call, ◌>>=◌, ◌>>◌, catch, finally, when, lift, from, check, AllCalls, run,
  after, trace, count,
}

pub AllCalls-lift :
    {O E F A : Type 0} (R : O → Type 0) (P : O → Type 0) (raise : F → E) (r : Result F A)
    → AllCalls P (lift {O = O} {R = R} {E = E} raise r)
AllCalls-lift R P raise (ok a) = tt
AllCalls-lift R P raise (err e) = tt

pub AllCalls-from :
    {O E A : Type 0} (R : O → Type 0) (P : O → Type 0) (o : Option A) (e : E)
    → AllCalls P (from {O = O} {R = R} {E = E} o e)
AllCalls-from R P none e = tt
AllCalls-from R P (some a) e = tt

pub AllCalls-check :
    {O E : Type 0} (R : O → Type 0) (P : O → Type 0) (b : Bool) (e : E)
    → AllCalls P (check {O = O} {R = R} {E = E} b e)
AllCalls-check R P true e = tt
AllCalls-check R P false e = tt

module _ {O : Type 0} {R : O → Type 0} {E : Type 0} where
  pub AllCalls->>= :
      {A B : Type 0} (P : O → Type 0) (m : Program O R E A) (f : A → Program O R E B)
      → AllCalls P m
      → ((a : A) → AllCalls P (f a))
      → AllCalls P (m >>= f)
  unfolding ◌>>=◌
  AllCalls->>= P (done a) f p q = q a
  AllCalls->>= P (fail e) f p q = tt
  AllCalls->>= P (call o k) f (p, ps) q = (p, λ r. AllCalls->>= P (k r) f (ps r) q)

  pub AllCalls->> :
      {A B : Type 0} (P : O → Type 0) (m : Program O R E A) (n : Program O R E B)
      → AllCalls P m
      → AllCalls P n
      → AllCalls P (m >> n)
  unfolding ◌>>◌
  AllCalls->> P m n p q = AllCalls->>= P m (λ _. n) p (λ _. q)

  pub AllCalls-catch :
      {A : Type 0} (P : O → Type 0) (m : Program O R E A) (handler : E → Program O R E A)
      → AllCalls P m
      → ((e : E) → AllCalls P (handler e))
      → AllCalls P (catch m handler)
  unfolding catch
  AllCalls-catch P (done a) handler p q = tt
  AllCalls-catch P (fail e) handler p q = q e
  AllCalls-catch P (call o k) handler (p, ps) q = (p, λ r. AllCalls-catch P (k r) handler (ps r) q)

  pub AllCalls-finally :
      {A : Type 0} (P : O → Type 0) (m : Program O R E A) (last : Program O R E (Unit {0}))
      → AllCalls P m
      → AllCalls P last
      → AllCalls P (finally m last)
  unfolding finally
  AllCalls-finally P (done a) last p q = AllCalls->> P last (done a) q tt
  AllCalls-finally P (fail e) last p q = AllCalls->> P last (fail e) q tt
  AllCalls-finally P (call o k) last (p, ps) q = (p, λ r. AllCalls-finally P (k r) last (ps r) q)

  -- A weaker predicate holds too.
  pub AllCalls-mono :
      {A : Type 0} (P Q : O → Type 0) (m : Program O R E A)
      → ((o : O) → P o → Q o)
      → AllCalls P m
      → AllCalls Q m
  AllCalls-mono P Q (done a) w p = tt
  AllCalls-mono P Q (fail e) w p = tt
  AllCalls-mono P Q (call o k) w (p, ps) = (w o p, λ r. AllCalls-mono P Q (k r) w (ps r))

  module _ {S : Type 0} (serve : (o : O) → S → R o × S) where
    -- What a program may call is what its runs call.
    pub All-trace :
        {A : Type 0} (P : O → Type 0) (m : Program O R E A) (s : S)
        → AllCalls P m
        → All P (trace serve m s)
    unfolding trace
    All-trace P (done a) s p = tt
    All-trace P (fail e) s p = tt
    All-trace P (call o k) s (p, ps) =
        let (r, next) = serve o s in (p, All-trace P (k r) next (ps r))

    -- The calls of a run of a chain, where its second part is run only on the result of the first.
    pub All-trace->>= :
        {A B : Type 0} (P : O → Type 0) (m : Program O R E A) (f : A → Program O R E B) (s : S)
        → All P (trace serve m s)
        → ((a : A) → (run serve m s).0 ≡ ok a → All P (trace serve (f a) (after serve m s)))
        → All P (trace serve (m >>= f) s)
    unfolding run trace ◌>>=◌
    All-trace->>= P (done a) f s p q = q a refl
    All-trace->>= P (fail e) f s p q = tt
    All-trace->>= P (call o k) f s (p, ps) q =
        let (r, next) = serve o s in (p, All-trace->>= P (k r) f next ps q)

    pub run->>= :
        {A B : Type 0} (m : Program O R E A) (f : A → Program O R E B) (s : S) {b : B}
        → (run serve (m >>= f) s).0 ≡ ok b
        → (a : A) × ((run serve m s).0 ≡ ok a) × ((run serve (f a) (run serve m s).1).0 ≡ ok b)
    unfolding run ◌>>=◌
    run->>= (done a) f s h = (a, refl, h)
    run->>= (fail e) f s h = cc
    run->>= (call o k) f s h = let (r, next) = serve o s in run->>= (k r) f next h

    pub run->> :
        {A B : Type 0} (m : Program O R E A) (n : Program O R E B) (s : S) {b : B}
        → (run serve (m >> n) s).0 ≡ ok b
        → (a : A) × ((run serve m s).0 ≡ ok a) × ((run serve n (run serve m s).1).0 ≡ ok b)
    unfolding ◌>>◌
    run->> m n s h = run->>= m (λ _. n) s h

    pub run-done :
        {A : Type 0} (a : A) (s : S) {b : A} → (run {E = E} serve (done a) s).0 ≡ ok b → a ≡ b
    unfolding run
    run-done a s h = ok-injective h

    pub run-lift :
        {F A : Type 0} (raise : F → E) (r : Result F A) (s : S) {a : A}
        → (run serve (lift raise r) s).0 ≡ ok a
        → r ≡ ok a
    unfolding run
    run-lift raise (ok x) s h = ap ok (ok-injective h)
    run-lift raise (err e) s h = cc

    pub state-lift :
        {F A : Type 0} (raise : F → E) (r : Result F A) (s : S) → (run serve (lift raise r) s).1 ≡ s
    unfolding run
    state-lift raise (ok x) s = refl
    state-lift raise (err e) s = refl

    pub state-from : {A : Type 0} (o : Option A) (e : E) (s : S) → (run serve (from o e) s).1 ≡ s
    unfolding run
    state-from (some x) e s = refl
    state-from none e s = refl

    -- A program without a call leaves the state as it was.
    pub after_lem :
        {A : Type 0} (m : Program O R E A) (s : S) → AllCalls (λ _. ⊥) m → after serve m s ≡ s
    unfolding run
    after_lem (done a) s h = refl
    after_lem (fail e) s h = refl
    after_lem (call o k) s (h, _) = absurd h

    pub run_at :
        {A : Type 0} (m : Program O R E A) {s t : S} {a : A}
        → s ≡ t
        → (run serve m s).0 ≡ ok a
        → (run serve m t).0 ≡ ok a
    run_at m {a = a} e h = subst (λ x. (run serve m x).0 ≡ ok a) e h

    -- What comes after a step without a call runs from the same state.
    pub run-lift_then :
        {F A B : Type 0} (raise : F → E) (r : Result F A) (f : A → Program O R E B) (s : S) {b : B}
        → (run serve (lift raise r >>= f) s).0 ≡ ok b
        → (a : A) × (r ≡ ok a) × ((run serve (f a) s).0 ≡ ok b)
    unfolding run ◌>>=◌
    run-lift_then raise (ok a) f s h = (a, refl, h)
    run-lift_then raise (err e) f s h = cc

    pub run-from_then :
        {A B : Type 0} (o : Option A) (e : E) (f : A → Program O R E B) (s : S) {b : B}
        → (run serve (from o e >>= f) s).0 ≡ ok b
        → (a : A) × (o ≡ some a) × ((run serve (f a) s).0 ≡ ok b)
    unfolding run ◌>>=◌
    run-from_then (some a) e f s h = (a, refl, h)
    run-from_then none e f s h = cc

    pub run-check_then :
        {B : Type 0} (b : Bool) (e : E) (n : Program O R E B) (s : S) {x : B}
        → (run serve (check b e >> n) s).0 ≡ ok x
        → (b ≡ true) × ((run serve n s).0 ≡ ok x)
    unfolding run ◌>>=◌ ◌>>◌
    run-check_then true e n s h = (refl, h)
    run-check_then false e n s h = cc

    pub run-call_then :
        {B : Type 0} (o : O) (f : R o → Program O R E B) (s : S) {b : B}
        → (run serve (call o done >>= f) s).0 ≡ ok b
        → (run serve (f (serve o s).0) (serve o s).1).0 ≡ ok b
    unfolding run ◌>>=◌
    run-call_then o f s h = h

    pub run-from :
        {A : Type 0} (o : Option A) (e : E) (s : S) {a : A}
        → (run serve (from o e) s).0 ≡ ok a
        → o ≡ some a
    unfolding run
    run-from (some x) e s h = ap some (ok-injective h)
    run-from none e s h = cc

    pub run-check :
        (b : Bool) (e : E) (s : S) {u : Unit {0}} → (run serve (check b e) s).0 ≡ ok u → b ≡ true
    unfolding run
    run-check true e s h = refl
    run-check false e s h = cc

    pub run-then :
        {A : Type 0} (b : Bool) (m n : Program O R E A) (s : S) {a : A}
        → (run serve (if b then m else n) s).0 ≡ ok a
        → b ≡ true
        → (run serve m s).0 ≡ ok a
    run-then true m n s h e = h
    run-then false m n s h e = cc

    pub run-else :
        {A : Type 0} (b : Bool) (m n : Program O R E A) (s : S) {a : A}
        → (run serve (if b then m else n) s).0 ≡ ok a
        → b ≡ false
        → (run serve n s).0 ≡ ok a
    run-else true m n s h e = cc
    run-else false m n s h e = h

    pub run-when :
        (b : Bool) (m : Program O R E (Unit {0})) (s : S) {u : Unit {0}}
        → (run serve (when b m) s).0 ≡ ok u
        → b ≡ true
        → (run serve m s).0 ≡ ok u
    run-when true m s h e = h
    run-when false m s h e = cc

    -- The calls of a chain are those of its first part, and then those of the second, if it comes to
    -- it.
    pub trace->>= :
        {A B : Type 0} (m : Program O R E A) (f : A → Program O R E B) (s : S)
        → (rest : List O) × (trace serve (m >>= f) s ≡ trace serve m s ++ rest)
          × ((e : E) → (run serve m s).0 ≡ err e → rest ≡ [])
    unfolding run trace ◌>>=◌
    trace->>= (done a) f s = (trace serve (f a) s, refl, λ e h. cc)
    trace->>= (fail e) f s = ([], refl, λ _ _. refl)
    trace->>= (call o k) f s =
        let (r, next) = serve o s in
        let (rest, split, stop) = trace->>= (k r) f next in
        (rest, ap (λ (x : List O). o ∷ x) split, stop)

    pub trace-ok :
        {A B : Type 0} (m : Program O R E A) (f : A → Program O R E B) (s : S) (a : A)
        → (run serve m s).0 ≡ ok a
        → trace serve (m >>= f) s ≡ trace serve m s ++ trace serve (f a) (run serve m s).1
    unfolding run trace ◌>>=◌
    trace-ok (done x) f s a h = ap (λ y. trace serve (f y) s) (ok-injective h)
    trace-ok (fail e) f s a h = cc
    trace-ok (call o k) f s a h =
        let (r, next) = serve o s in ap (λ (x : List O). o ∷ x) (trace-ok (k r) f next a h)

    -- In a run of a chain that ends with a result, the calls of both parts count.
    pub count->>= :
        {A B : Type 0} (p : O → Bool) (m : Program O R E A) (f : A → Program O R E B) (s : S)
        {b : B}
        → (run serve (m >>= f) s).0 ≡ ok b
        → (a : A) × ((run serve m s).0 ≡ ok a)
          × ((run serve (f a) (run serve m s).1).0 ≡ ok b)
          × (count p (trace serve (m >>= f) s)
              ≡ count p (trace serve m s) + count p (trace serve (f a) (run serve m s).1))
    unfolding run trace ◌>>=◌ count
    count->>= p (done a) f s h = (a, refl, h, omega arith)
    count->>= p (fail e) f s h = cc
    count->>= p (call o k) f s h =
        let (r, next) = serve o s in
        let (a, first, second, counted) = count->>= p (k r) f next h in
        (a, first, second, ground (arith, counted))

    -- Calls of which none passes the test.
    pub count-none :
        {A : Type 0} (p : O → Bool) (m : Program O R E A) (s : S)
        → AllCalls (λ o. p o ≡ false) m
        → count p (trace serve m s) ≡ 0
    unfolding trace count
    count-none p (done a) s h = refl
    count-none p (fail e) s h = refl
    count-none p (call o k) s (h, hs) =
        let (r, next) = serve o s in
        let later : count p (trace serve (k r) next) ≡ 0 = count-none p (k r) next (hs r) in
        ground (arith, h, later)

    pub count_after :
        {A B : Type 0} (p : O → Bool) (m : Program O R E A) (f : A → Program O R E B) (s : S)
        {b : B}
        → AllCalls (λ o. p o ≡ false) m
        → (run serve (m >>= f) s).0 ≡ ok b
        → (a : A) × ((run serve m s).0 ≡ ok a)
          × ((run serve (f a) (run serve m s).1).0 ≡ ok b)
          × (count p (trace serve (m >>= f) s) ≡ count p (trace serve (f a) (run serve m s).1))
    count_after p m f s quiet h =
        let (a, first, second, counted) = count->>= p m f s h in
        let none_counted : count p (trace serve m s) ≡ 0 = count-none p m s quiet in
        (a, first, second, omega (arith, counted, none_counted))
