-- ===== src/Prelude/Keeps.antt =====
-- Calls that keep a property of the database and return values with another.
use mathlib.Core.Path.{◌≡◌, refl, sym, ap, subst}
use mathlib.Core.Option.{Option, none, some}
use zuvi_web.Prelude.Effect.{
  Error, Result, ok, Action, pure, get, modify, lift, or_raise, except_integrity, ◌>>=◌, ◌>>◌,
  and_then-eq-ok, lifted, modified, except-eq-ok,
}
use mathlib.Core.Logic.{inl, inr}

-- Whenever the call returns, and the property held before.
abbrev pub Keeps : {S A : Type 0} → (S → Type 0) → Action S A → (A → Type 0) → Type 0
Keeps {S} {A} P m Q = (s : S) (r : A × S) → P s → m s ≡ ok r → P r.1 × Q r.0

abbrev pub Anything : {A : Type 0} → A → Type 0
Anything _ = Unit

pub returned : {S A : Type 0} (a : A) (s : S) {r : A × S} → ok (a, s) ≡ ok r → (a ≡ r.0) × (s ≡ r.1)
returned {S} {A} a s {r} h =
    let same : (a, s) ≡ r = cc in (ap (λ (q : A × S). q.0) same, ap (λ (q : A × S). q.1) same)

module _ {S : Type 0} (P : S → Type 0) where
  pub bind-Keeps :
      {A B : Type 0} (Q : A → Type 0) (R : B → Type 0) (m : Action S A) (f : A → Action S B)
      → Keeps P m Q
      → ((a : A) → Q a → Keeps P (f a) R)
      → Keeps P (m >>= f) R
  bind-Keeps Q R m f h k s r v run =
      let (a, t, ran, rest) = and_then-eq-ok (m s) f run in
      let (w, q) = h s (a, t) v ran in k a q t r w rest

  pub then-Keeps :
      {A B : Type 0} (Q : A → Type 0) (R : B → Type 0) (m : Action S A) (k : Action S B)
      → Keeps P m Q
      → Keeps P k R
      → Keeps P (m >> k) R
  then-Keeps Q R m k h g = bind-Keeps Q R m (λ _. k) h (λ _ _. g)

  pub modify-Keeps : (f : S → S) → ((s : S) → P s → P (f s)) → Keeps P (modify f) Anything
  modify-Keeps f h s r v run = (subst P (sym (modified f s run)) (h s v), tt)

  pub lift-Keeps :
      {A : Type 0} (Q : A → Type 0) (x : Result A) → ((a : A) → x ≡ ok a → Q a) → Keeps P (lift x) Q
  lift-Keeps Q x h s r v run =
      let (came, same) = lifted x s run in (subst P (sym same) v, h (r.0) came)

  pub or_raise-Keeps :
      {A : Type 0} (Q : A → Type 0) (e : Error) (o : Option A)
      → ((a : A) → o ≡ some a → Q a)
      → Keeps P (or_raise e o) Q
  unfolding or_raise
  or_raise-Keeps Q e none h s r v run = cc
  or_raise-Keeps Q e (some a) h s r v run =
      let (given, same) = returned a s run in (subst P same v, subst Q given (h a refl))

  pub get-Keeps : Keeps P get P
  get-Keeps s r v run = let (given, same) = returned s s run in (subst P same v, subst P given v)

  pub pure-Keeps : {A : Type 0} (Q : A → Type 0) (a : A) → Q a → Keeps P (pure a) Q
  pure-Keeps Q a q s r v run =
      let (given, same) = returned a s run in (subst P same v, subst Q given q)

  pub except-Keeps :
      {A : Type 0} (Q : A → Type 0) (m k : Action S A)
      → Keeps P m Q
      → Keeps P k Q
      → Keeps P (except_integrity m k) Q
  except-Keeps Q m k h g s r v run = elim (except-eq-ok m k s run) [
    | inl a ↦ h s r v a
    | inr a ↦ g s r v a
  ]
