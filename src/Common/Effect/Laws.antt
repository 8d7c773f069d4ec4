-- ===== src/Common/Effect/Laws.antt =====
-- Relations between the state before and after, which a chain keeps if its parts do, whether they
-- end well or not.
use mathlib.Core.Path.{◌≡◌, refl, ap}
use gardener_extension_shoot.Common.Outcome.{Outcome, ok, err, panic}
use gardener_extension_shoot.Common.Effect.{Effect, proceed, ◌>>=◌, ◌>>◌}

-- A relation that holds of no change, and of one change behind another.
pub record IsPreorder {S : Type 0} (R : S → S → Type 0) : Type 0 where
  pub same : (s : S) → R s s
  pub after : (s t u : S) → R s t → R t u → R s u

abbrev pub Keeps : {E S A : Type 0} → (S → S → Type 0) → Effect E S A → Type 0
Keeps {S = S} R m = (s : S) → R s (m s).1

module _ {E S : Type 0} (R : S → S → Type 0) (order : IsPreorder R) where
  proceed-Keeps :
      {A B : Type 0} (f : A → Effect E S B)
      → ((a : A) → Keeps R (f a))
      → (o : Outcome E A) (s : S) → R s (proceed f o s).1
  proceed-Keeps f h (ok a) s = h a s
  proceed-Keeps f h (err e) s = order.same s
  proceed-Keeps f h panic s = order.same s

  pub >>=-Keeps :
      {A B : Type 0} (m : Effect E S A) (f : A → Effect E S B)
      → Keeps R m
      → ((a : A) → Keeps R (f a))
      → Keeps R (m >>= f)
  >>=-Keeps m f hm hf s = order.after s (m s).1 _ (hm s) (proceed-Keeps f hf (m s).0 (m s).1)

  pub >>-Keeps :
      {B : Type 0} (m : Effect E S (Unit {0})) (k : Effect E S B)
      → Keeps R m
      → Keeps R k
      → Keeps R (m >> k)
  >>-Keeps m k hm hk = >>=-Keeps m (λ _. k) hm (λ _. hk)

proceed-ok :
    {E S A B : Type 0} {b : B} (f : A → Effect E S B) (o : Outcome E A) (s : S)
    → (proceed f o s).0 ≡ ok b
    → (a : A) × (o ≡ ok a) × ((f a s).0 ≡ ok b) × ((proceed f o s).1 ≡ (f a s).1)
proceed-ok f (ok a) s h = (a, refl, h, refl)
proceed-ok f (err e) s h = cc
proceed-ok f panic s h = cc

-- Both parts of a chain that ends well end well, and it ends in the state of the second.
pub >>=-ok :
    {E S A B : Type 0} {b : B} (m : Effect E S A) (f : A → Effect E S B) (s : S)
    → ((m >>= f) s).0 ≡ ok b
    → (a : A) × ((m s).0 ≡ ok a) × ((f a (m s).1).0 ≡ ok b) × (((m >>= f) s).1 ≡ (f a (m s).1).1)
>>=-ok m f s h = proceed-ok f (m s).0 (m s).1 h

pub >>-ok :
    {E S : Type 0} (m k : Effect E S (Unit {0})) (s : S)
    → ((m >> k) s).0 ≡ ok tt
    → ((m s).0 ≡ ok tt) × ((k (m s).1).0 ≡ ok tt) × (((m >> k) s).1 ≡ (k (m s).1).1)
>>-ok m k s h =
    let (a, first, second, end) = proceed-ok (λ _. k) (m s).0 (m s).1 h in (first, second, end)

-- The code returns no error and does not panic, and leaves a state that is as it should be.
abbrev pub EndsWell : {E S A : Type 0} → (S → Type 0) → Outcome E A → S → Type 0
EndsWell P (ok a) s = P s
EndsWell P (err e) s = ⊥
EndsWell P panic s = ⊥

module _ {E S : Type 0} (P Q : S → Type 0) where
  proceed-EndsWell :
      {A B : Type 0} (f : A → Effect E S B)
      → ((a : A) (s : S) → P s → EndsWell Q (f a s).0 (f a s).1)
      → (o : Outcome E A) (s : S) → EndsWell P o s
      → EndsWell Q (proceed f o s).0 (proceed f o s).1
  proceed-EndsWell f then_well (ok a) s well = then_well a s well
  proceed-EndsWell f then_well (err e) s well = elim well [ ]
  proceed-EndsWell f then_well panic s well = elim well [ ]

  pub >>=-EndsWell :
      {A B : Type 0} (m : Effect E S A) (f : A → Effect E S B) (s : S)
      → EndsWell P (m s).0 (m s).1
      → ((a : A) (t : S) → P t → EndsWell Q (f a t).0 (f a t).1)
      → EndsWell Q ((m >>= f) s).0 ((m >>= f) s).1
  >>=-EndsWell m f s well then_well = proceed-EndsWell f then_well (m s).0 (m s).1 well

pub EndsWell-eq-ok :
    {E S : Type 0} (P : S → Type 0) (o : Outcome E (Unit {0})) (s : S)
    → EndsWell P o s
    → (◌≡◌ {A = Outcome E (Unit {0}) × S} (o, s) (ok tt, s)) × P s
EndsWell-eq-ok P (ok tt) s well = (refl, well)
EndsWell-eq-ok P (err e) s well = elim well [ ]
EndsWell-eq-ok P panic s well = elim well [ ]

pub EndsWell-and :
    {E S A : Type 0} (P Q : S → Type 0) (o : Outcome E A) (s : S)
    → EndsWell P o s
    → Q s
    → EndsWell (λ t. P t × Q t) o s
EndsWell-and P Q (ok a) s well q = (well, q)
EndsWell-and P Q (err e) s well q = well
EndsWell-and P Q panic s well q = well

pub >>=-eq :
    {E S A B : Type 0} {a : A} {t : S} (m : Effect E S A) (f : A → Effect E S B) (s : S)
    → m s ≡ (ok a, t)
    → (m >>= f) s ≡ f a t
>>=-eq m f s e = ap (λ r. proceed f r.0 r.1) e

-- The same for a state that the one reached is a part of.
pub EndsWell-map :
    {E S T A : Type 0} (P : S → Type 0) (Q : T → Type 0) (g : S → T) (o : Outcome E A) (s : S)
    → (P s → Q (g s))
    → EndsWell P o s
    → EndsWell Q o (g s)
EndsWell-map P Q g (ok a) s implies well = implies well
EndsWell-map P Q g (err e) s implies well = elim well [ ]
EndsWell-map P Q g panic s implies well = elim well [ ]

pub >>=-err :
    {E S A B : Type 0} {e : E} (m : Effect E S A) (f : A → Effect E S B) (s : S)
    → (m s).0 ≡ err e
    → ((m >>= f) s).0 ≡ err e
>>=-err m f s h = ap (λ o. (proceed f o (m s).1).0) h
