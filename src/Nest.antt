-- ===== src/Nest.antt =====
-- What a request handler is: it reads the request, works on the database, and returns or throws one
-- of the exceptions of NestJS. What it wrote before it threw stays written, since each repository
-- call is a transaction of its own.
use vellora_backend.Prelude.{
  ◌≡◌, ap, ◌⊎◌, inl, inr, Bool, Option, none, some, String, if◌then◌else◌,
}

pub data Exception : Type 0 where
  bad_request unauthorized forbidden not_found conflict too_many_requests : String → Exception
  -- The database refuses a statement.
  database_error : Exception
  -- A `TypeError` or a `RangeError` that nothing catches.
  internal_error : Exception

pub data Result {ℓ} (A : Type ℓ) : Type ℓ where
  ok : A → Result A
  err : Exception → Result A

abbrev pub Action {ℓ κ} : Type ℓ → Type κ → Type (ℓ ⊔ κ)
Action S A = S → Result A × S

abbrev pub Done : Type 0
Done = Unit

module _ {ℓ κ} {S : Type ℓ} {A : Type κ} where
  abbrev pub pure : A → Action S A
  pure a s = (ok a, s)

  abbrev pub throw : Exception → Action S A
  throw e s = (err e, s)

  abbrev pub gets : (S → A) → Action S A
  gets f s = (ok (f s), s)

  -- `if (!x) throw e`, and the value of `x` after it.
  abbrev pub or_throw : Option A → Exception → Action S A
  or_throw none e s = (err e, s)
  or_throw (some a) e s = (ok a, s)

module _ {ℓ} {S : Type ℓ} where
  -- `if (c) throw e`
  abbrev pub throw_if : Bool → Exception → Action S Done
  throw_if c e s = (if c then err e else ok tt, s)

  abbrev pub modify : (S → S) → Action S Done
  modify f s = (ok tt, f s)

  -- `if (c) await m`
  abbrev pub when : Bool → Action S Done → Action S Done
  when c m s = if c then m s else (ok tt, s)

infixl 5 ◌>>=◌ ◌>>◌
abbrev pub ◌>>=◌ {ℓ κ λ'} :
    {S : Type ℓ} {A : Type κ} {B : Type λ'} → Action S A → (A → Action S B) → Action S B
◌>>=◌ m f s = let (r, s') = m s in elim r [ ok a ↦ f a s' | err e ↦ (err e, s') ]

abbrev pub ◌>>◌ {ℓ κ λ'} :
    {S : Type ℓ} {A : Type κ} {B : Type λ'} → Action S A → Action S B → Action S B
m >> k = m >>= λ _. k

module _ {ℓ κ μ} {S : Type ℓ} {A : Type κ} {B : Type μ} where
  -- A call that returns, and a call that throws, at the head of a block.
  pub >>=-ok :
      (m : Action S A) (f : A → Action S B) (s : S) (a : A) (s' : S)
      → m s ≡ (ok a, s')
      → (m >>= f) s ≡ f a s'
  >>=-ok m f s a s' e =
      ap (λ (x : Result A × S). elim x.0 [ ok b ↦ f b x.1 | err e ↦ (err e, x.1) ]) e

  pub >>=-err :
      (m : Action S A) (f : A → Action S B) (s : S) (e : Exception) (s' : S)
      → m s ≡ (err e, s')
      → (m >>= f) s ≡ (err e, s')
  >>=-err m f s e s' h =
      ap (λ (x : Result A × S). elim x.0 [ ok b ↦ f b x.1 | err e ↦ (err e, x.1) ]) h

-- What a call that only reads may come to.
pub outcomes {ℓ κ} :
    {S : Type ℓ} {A : Type κ} (x : Result A × S) (s : S)
    → x.1 ≡ s
    → ((a : A) × (x ≡ (ok a, s))) ⊎ ((e : Exception) × (x ≡ (err e, s)))
outcomes (ok a, s') s same = inl (a, ap (λ v. (ok a, v)) same)
outcomes (err e, s') s same = inr (e, ap (λ v. (err e, v)) same)
