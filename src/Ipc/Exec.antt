-- ===== src/Ipc/Exec.antt =====
-- Python methods that mutate an object and may raise. What was written before a raise stays
-- written, so the state comes back beside the exception too.
use fcpp_bridge.Prelude.{ℕ, Bool, true, false, List, [], ◌∷◌, ◌++◌, ◌≡◌, refl, ◌⊎◌, inl, inr, arith}

-- The classes that the package raises or catches. Messages are left out.
pub data Exc : Type 0 where
  value_error key_error index_error type_error attribute_error runtime_error assertion_error : Exc
  compilation_error validation_error parser_error zero_division_error recursion_error : Exc
  import_error os_error syntax_error file_not_found : Exc
  connection_error connection_refused timeout_error timeout_expired : Exc
  other : ℕ → Exc

-- `ConnectionError` with its subclass `ConnectionRefusedError`, `FileNotFoundError` and `TimeoutError`
-- are subclasses of `OSError`; `connection_error` stands for the other subclasses too.
abbrev pub is_os_error : Exc → Bool
is_os_error os_error = true
is_os_error file_not_found = true
is_os_error connection_error = true
is_os_error connection_refused = true
is_os_error timeout_error = true
is_os_error _ = false

pub data Result {ℓ} (A : Type ℓ) : Type ℓ where
  ok : A → Result A
  err : Exc → Result A

pub Result-cases {ℓ} :
    {A : Type ℓ} (r : Result A) → ((a : A) × (r ≡ ok a)) ⊎ ((e : Exc) × (r ≡ err e))
Result-cases (ok a) = inl (a, refl)
Result-cases (err e) = inr (e, refl)

abbrev pub Exec {ℓ} : Type ℓ → Type ℓ → Type ℓ
Exec S A = S → Result A × S

module _ {ℓ} {S A : Type ℓ} where
  abbrev pub pure : A → Exec S A
  pure a s = (ok a, s)

  -- raise e
  abbrev pub raise : Exc → Exec S A
  raise e s = (err e, s)

  abbrev pub lift : Result A → Exec S A
  lift r s = (r, s)

  abbrev pub gets : (S → A) → Exec S A
  gets f s = (ok (f s), s)

abbrev pub modify : {S : Type 0} → (S → S) → Exec S (Unit {0})
modify f s = (ok tt, f s)

module _ {ℓ} {S A B : Type ℓ} where
  abbrev pub continue : Result A → (A → Exec S B) → Exec S B
  continue (ok a) f s = f a s
  continue (err e) f s = (err e, s)

  infixl 10 ◌>>=◌ ◌>>◌
  abbrev pub ◌>>=◌ : Exec S A → (A → Exec S B) → Exec S B
  ◌>>=◌ m f s = let (r, s') = m s in continue r f s'

  abbrev pub ◌>>◌ : Exec S A → Exec S B → Exec S B
  m >> n = m >>= λ _. n

module _ {ℓ} {S A : Type ℓ} where
  abbrev pub handle : (Exc → Exec S A) → Result A → Exec S A
  handle h (ok a) s = (ok a, s)
  handle h (err e) s = h e s

  -- try: m except Exception as e: h(e)
  infix 1 try◌except◌
  abbrev pub try◌except◌ : Exec S A → (Exc → Exec S A) → Exec S A
  try◌except◌ m h s = let (r, s') = m s in handle h r s'

  handle-pure : (r : Result A) (a : A) (s : S) → (x : A) × ((handle (λ e. pure a) r s).0 ≡ ok x)
  handle-pure (ok x) a s = (x, refl)
  handle-pure (err e) a s = (a, refl)

  -- A handler that catches everything and returns a value leaves nothing to raise.
  pub try-pure_total :
      (m : Exec S A) (a : A) (s : S) → (x : A) × (((try m except λ e. pure a) s).0 ≡ ok x)
  try-pure_total m a s = let (r, s') = m s in handle-pure r a s'

-- A method call on a part of the state, such as a field that holds an object.
module _ {S T A : Type 0} where
  abbrev pub zoom : (S → T) → (T → S → S) → Exec T A → Exec S A
  zoom get put m s = let (r, t) = m (get s) in (r, put t s)

-- for x in xs: body(x)
module _ {S A : Type 0} where
  unfoldable pub for_each : List A → (A → Exec S (Unit {0})) → Exec S (Unit {0})
  for_each [] body s = (ok tt, s)
  for_each (x ∷ xs) body s = let (r, s') = body x s in continue r (λ _. for_each xs body) s'

  -- A property that every round keeps holds after the loop, also when a round raises.
  pub for_each_inv {κ} :
      (P : S → Type κ) (xs : List A) (body : A → Exec S (Unit {0}))
      → ((x : A) (s : S) → P s → P (body x s).1)
      → (s : S) → P s
      → P (for_each xs body s).1
  unfolding for_each
  for_each_inv P [] body keep s h = h
  for_each_inv P (x ∷ xs) body keep s h =
      rest (body x s).0 (body x s).1 (keep x s h) (λ t. for_each_inv P xs body keep t)
    where
      rest :
          (r : Result (Unit {0})) (t : S)
          → P t
          → ((t : S) → P t → P (for_each xs body t).1)
          → P (continue r (λ _. for_each xs body) t).1
      rest (ok a) t h ih = ih t h
      rest (err e) t h ih = h

  -- A loop whose rounds never raise does not raise.
  pub for_each_total :
      (xs : List A) (body : A → Exec S (Unit {0}))
      → ((x : A) (s : S) → (body x s).0 ≡ ok tt)
      → (s : S) → (for_each xs body s).0 ≡ ok tt
  unfolding for_each
  for_each_total [] body h s = refl
  for_each_total (x ∷ xs) body h s = ground (arith, h x s, for_each_total xs body h (body x s).1)

  pub for_each-append :
      (xs ys : List A) (body : A → Exec S (Unit {0})) (s : S)
      → for_each (xs ++ ys) body s ≡ (for_each xs body >>= λ _. for_each ys body) s
  unfolding for_each
  for_each-append [] ys body s = refl
  for_each-append (x ∷ xs) ys body s = ground (arith, for_each-append xs ys body (body x s).1)

-- A property of the state that a method keeps, whether it returns or raises.
abbrev pub Keeps : {S A : Type 0} → (S → Type 0) → Exec S A → Type 0
Keeps {S} P m = (s : S) → P s → P (m s).1

module _ {S A B : Type 0} (P : S → Type 0) where
  continue-Keeps :
      (r : Result A) (f : A → Exec S B)
      → ((a : A) → Keeps P (f a))
      → (s : S) → P s
      → P (continue r f s).1
  continue-Keeps (ok a) f kf s h = kf a s h
  continue-Keeps (err e) f kf s h = h

  pub >>=-Keeps :
      (m : Exec S A) (f : A → Exec S B) → Keeps P m → ((a : A) → Keeps P (f a)) → Keeps P (m >>= f)
  >>=-Keeps m f km kf s h = continue-Keeps (m s).0 f kf (m s).1 (km s h)

module _ {S A : Type 0} (P : S → Type 0) where
  handle-Keeps :
      (h : Exc → Exec S A) (r : Result A) (s : S)
      → ((e : Exc) → Keeps P (h e))
      → P s
      → P (handle h r s).1
  handle-Keeps h (ok a) s kh p = p
  handle-Keeps h (err e) s kh p = kh e s p

  pub try-Keeps :
      (m : Exec S A) (h : Exc → Exec S A)
      → Keeps P m
      → ((e : Exc) → Keeps P (h e))
      → Keeps P (try m except h)
  try-Keeps m h km kh s p = handle-Keeps h (m s).0 (m s).1 kh (km s p)
