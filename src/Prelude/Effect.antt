-- ===== src/Prelude/Effect.antt =====
-- A service call under `transaction.atomic()`: it returns a value and the new database, or it
-- raises, and then the database is the one before the call.
use mathlib.Core.Path.{◌≡◌, refl, sym, ap}
use mathlib.Core.Logic.{◌⊎◌, inl, inr}
use native.Mathlib.Omega.{arith}
use zuvi_web.Prelude.Tests.{if◌then◌else◌}
use mathlib.Core.Bool.{Bool, true, false}
use mathlib.Core.Option.{Option, none, some}
use mathlib.Core.List.{List, [], ◌∷◌}

-- The keys of the dictionaries that a `ValidationError` is raised with.
pub data Field : Type 0 where
  quantity reason unit_cost product purchase_entry reference direction expiry_date : Field
  manufacturing_date status store_order actor store action lines payment_status : Field
  correction_note stock_quantity store_price profit_margin_type profit_margin : Field
  selling_price discount_type discount_value final_price customer cart : Field
  checkout_token fulfillment_type payment_method delivery_address_id pickup_location_id : Field
  items_subtotal delivery_address line_total pickup_location non_field_errors : Field

-- A `ValidationError` has one key, or several that a check has collected. The `full_clean` of a model
-- collects too; here it raises with the first of its keys.
pub data Error : Type 0 where
  validation : Field → Error
  validations : List Field → Error
  permission_denied does_not_exist integrity data_error key_error runtime invalid_operation : Error

pub data Result {ℓ} (A : Type ℓ) : Type ℓ where
  ok : A → Result A
  err : Error → Result A

abbrev pub is_ok {ℓ} : {A : Type ℓ} → Result A → Bool
is_ok (ok _) = true
is_ok (err _) = false

-- A step that reads no database.
unfoldable pub bind {ℓ κ} : {A : Type ℓ} {B : Type κ} → Result A → (A → Result B) → Result B
bind (ok a) f = f a
bind (err e) f = err e

-- `if errors: raise ValidationError(errors)`.
abbrev pub raise_fields : List Field → Result (Unit {0})
raise_fields [] = ok tt
raise_fields (f ∷ []) = err (validation f)
raise_fields (f ∷ g ∷ fs) = err (validations (f ∷ g ∷ fs))

-- `if c: raise e`, and then `r`.
unfoldable pub raise_when {ℓ} : {A : Type ℓ} → Bool → Error → Result A → Result A
raise_when true e r = err e
raise_when false e r = r

pub bind-eq-ok {ℓ κ} :
    {A : Type ℓ} {B : Type κ} (r : Result A) (f : A → Result B) {b : B}
    → bind r f ≡ ok b
    → (a : A) × (r ≡ ok a) × (f a ≡ ok b)
unfolding bind
bind-eq-ok (ok a) f h = (a, refl, h)
bind-eq-ok (err e) f h = cc

pub raise_when-eq-ok {ℓ} :
    {A : Type ℓ} (c : Bool) (e : Error) (r : Result A) {a : A}
    → raise_when c e r ≡ ok a
    → (c ≡ false) × (r ≡ ok a)
unfolding raise_when
raise_when-eq-ok true e r h = cc
raise_when-eq-ok false e r h = (refl, h)

abbrev pub Action : Type 0 → Type 0 → Type 0
Action S A = S → Result (A × S)

unfoldable pub and_then : {S A B : Type 0} → Result (A × S) → (A → Action S B) → Result (B × S)
and_then (ok (a, s)) f = f a s
and_then (err e) f = err e

infixl 5 ◌>>=◌ ◌>>◌
abbrev pub ◌>>=◌ : {S A B : Type 0} → Action S A → (A → Action S B) → Action S B
◌>>=◌ m f s = and_then (m s) f

abbrev pub ◌>>◌ : {S A B : Type 0} → Action S A → Action S B → Action S B
m >> k = m >>= λ _. k

module _ {S A : Type 0} where
  abbrev pub pure : A → Action S A
  pure a s = ok (a, s)

  abbrev pub raise : Error → Action S A
  raise e s = err e

  unfoldable pub or_raise : Error → Option A → Action S A
  or_raise e none s = err e
  or_raise e (some a) s = ok (a, s)

  unfoldable pub lift : Result A → Action S A
  lift (ok a) s = ok (a, s)
  lift (err e) s = err e

  -- `try: body` / `except IntegrityError: handler`, where `body` is an atomic block of its own.
  unfoldable pub except_integrity : Action S A → Action S A → Action S A
  except_integrity body handler s = elim (body s) [
    | ok r ↦ ok r
    | err e ↦ elim e [ integrity ↦ handler s | other ↦ err other ]
  ]

abbrev pub get : {S : Type 0} → Action S S
get s = ok (s, s)

abbrev pub modify : {S : Type 0} → (S → S) → Action S (Unit {0})
modify f s = ok (tt, f s)

unfoldable pub raise_if : {S : Type 0} → Bool → Error → Action S (Unit {0})
raise_if true e s = err e
raise_if false e s = ok (tt, s)

-- Opens the whole vocabulary in a proof that runs a call.
unfoldable pub running : Unit {0}
unfolding bind raise_when and_then or_raise lift except_integrity raise_if
running = tt

-- The steps of a call that has returned.
module _ {S A B : Type 0} where
  pub and_then-eq-ok :
      (r : Result (A × S)) (f : A → Action S B) {b : B × S}
      → and_then r f ≡ ok b
      → (a : A) × (s : S) × (r ≡ ok (a, s)) × (f a s ≡ ok b)
  unfolding and_then
  and_then-eq-ok (ok (a, s)) f h = (a, s, refl, h)
  and_then-eq-ok (err e) f h = cc

  pub ran :
      (a : A) (s : S) (f : A → Action S B) {r : Result (B × S)}
      → and_then (ok (a, s)) f ≡ r
      → f a s ≡ r
  unfolding and_then
  ran a s f h = h

  pub lift-eq-ok :
      (r : Result A) (f : A → Action S B) (s : S) {b : B × S}
      → and_then (lift r s) f ≡ ok b
      → (a : A) × (r ≡ ok a) × (f a s ≡ ok b)
  unfolding and_then lift
  lift-eq-ok (ok a) f s h = (a, refl, h)
  lift-eq-ok (err e) f s h = cc

  pub or_raise-eq-ok :
      (e : Error) (o : Option A) (f : A → Action S B) (s : S) {b : B × S}
      → and_then (or_raise e o s) f ≡ ok b
      → (a : A) × (o ≡ some a) × (f a s ≡ ok b)
  unfolding and_then or_raise
  or_raise-eq-ok e (some a) f s h = (a, refl, h)
  or_raise-eq-ok e none f s h = cc

-- A check that passed.
pub check-eq-ok :
    {S B : Type 0} (r : Result (Unit {0})) (f : Unit {0} → Action S B) (s : S) {b : B × S}
    → and_then (lift r s) f ≡ ok b
    → (r ≡ ok tt) × (f tt s ≡ ok b)
unfolding and_then lift
check-eq-ok (ok tt) f s h = (refl, h)
check-eq-ok (err e) f s h = cc

pub raise_if-eq-ok :
    {S B : Type 0} (c : Bool) (e : Error) (f : Unit {0} → Action S B) (s : S) {b : B × S}
    → and_then (raise_if c e s) f ≡ ok b
    → (c ≡ false) × (f tt s ≡ ok b)
unfolding and_then raise_if
raise_if-eq-ok true e f s h = cc
raise_if-eq-ok false e f s h = (refl, h)

-- A `try` that returned: its body did, or the handler did.
pub except-eq-ok :
    {S A : Type 0} (body handler : Action S A) (s : S) {b : A × S}
    → except_integrity body handler s ≡ ok b
    → (body s ≡ ok b) ⊎ (handler s ≡ ok b)
unfolding except_integrity
except-eq-ok body handler s h = ground arith

-- A last `modify`.
pub modified : {S : Type 0} (f : S → S) (s : S) {r : Unit {0} × S} → modify f s ≡ ok r → r.1 ≡ f s
modified {S} f s {r} h = let same : r ≡ (tt, f s) = cc in ap (λ (q : Unit {0} × S). q.1) same

-- `if b: return`, and then `m`.
pub unless-eq-ok :
    {S : Type 0} (b : Bool) (m : Action S (Unit {0})) (s : S) {r : Unit {0} × S}
    → (if b then pure tt else m) s ≡ ok r
    → (r.1 ≡ s) ⊎ (m s ≡ ok r)
unless-eq-ok true m s h = inl (modified (λ k. k) s h)
unless-eq-ok false m s h = inr h

-- A last `lift`.
pub lifted :
    {S A : Type 0} (r : Result A) (s : S) {b : A × S} → lift r s ≡ ok b → (r ≡ ok b.0) × (b.1 ≡ s)
unfolding lift
lifted {S} {A} (ok a) s {b} h =
    let same : b ≡ (a, s) = cc in
    (ap (λ (q : A × S). ok q.0) (sym same), ap (λ (q : A × S). q.1) same)
lifted (err e) s h = cc
