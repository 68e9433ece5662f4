-- ===== src/Database/Transactions.antt =====
-- Relations that every action keeps between the world before it and the world after it, with one
-- rule for each way to build an action.
use agentic_kgis.Prelude.{
  ◌≡◌, refl, Bool, true, false, ◌≡◌, refl, Option, none, some, if◌then◌else◌,
}
use agentic_kgis.Database.{
  Failure, Result, ok, err, World, Env, Action, pure, raise, or_raise, raise_if, ◌>>=◌, continue,
  tick, answer, now, statement,
}

-- a reflexive and transitive relation that the ticks do not matter to
pub record IsPreorder (R : World → World → Type 0) : Type 0 where
  pub stay : (w : World) → R w w
  pub chain : (u v w : World) → R u v → R v w → R u w
  pub ticked : (w : World) → R w (tick w)

-- `m` leads along `R`, whether it returns or raises
pub record Along (R : World → World → Type 0) {A : Type 0} (m : Action A) : Type 0 where
  pub at : (w : World) → R w (m w).1

module _ {R : World → World → Type 0} (pre : IsPreorder R) {A : Type 0} where
  pub Along-pure : (a : A) → Along R (pure a)
  unfolding pure
  Along-pure a = record { at = pre.stay }

  pub Along-raise : (e : Failure) → Along R (raise {A = A} e)
  unfolding raise
  Along-raise e = record { at = pre.stay }

  pub Along-or_raise : (o : Option A) (e : Failure) → Along R (or_raise o e)
  unfolding or_raise
  Along-or_raise none e = record { at = pre.stay }
  Along-or_raise (some a) e = record { at = pre.stay }

  pub Along-if : (b : Bool) (m n : Action A) → Along R m → Along R n → Along R (if b then m else n)
  Along-if true m n km kn = km
  Along-if false m n km kn = kn

  pub Along-statement :
      (env : Env) (f : World → A) (g : World → World)
      → ((w : World) → R w (g w))
      → Along R (statement env f g)
  unfolding statement
  Along-statement env f g h = record { at = λ w. after (env.fault w.ticks) (f w) w }
    where
      after : (b : Bool) (a : A) (w : World) → R w (answer b a (tick w) (g (tick w))).1
      after true a w = pre.ticked w
      after false a w = pre.chain w (tick w) (g (tick w)) (pre.ticked w) (h (tick w))

module _ {R : World → World → Type 0} (pre : IsPreorder R) where
  pub Along-raise_if : (c : Bool) (e : Failure) → Along R (raise_if c e)
  unfolding raise_if
  Along-raise_if c e = record { at = pre.stay }

  pub Along-now : (env : Env) → Along R (now env)
  unfolding now
  Along-now env = record { at = pre.ticked }

module _ {R : World → World → Type 0} (pre : IsPreorder R) {A B : Type 0} where
  pub Along-bind :
      (m : Action A) (f : A → Action B) → Along R m → ((a : A) → Along R (f a)) → Along R (m >>= f)
  unfolding ◌>>=◌
  Along-bind m f km kf = record {
    at = λ w. let (r, w') = m w in pre.chain w w' _ (km.at w) (goes_on r w');
  }
    where
      goes_on : (r : Result A) (v : World) → R v (continue r f v).1
      goes_on (ok a) v = (kf a).at v
      goes_on (err e) v = pre.stay v

pub ok-injective : {A : Type 0} {a b : A} → ok a ≡ ok b → a ≡ b
ok-injective h = cc

-- A bind that returned: what its first part returned, and where the second part ended.
pub >>=-eq-ok :
    {A B : Type 0} (m : Action A) (f : A → Action B) (w : World) {b : B}
    → ((m >>= f) w).0 ≡ ok b
    → (a : A) × ((m w).0 ≡ ok a) × ((f a (m w).1).0 ≡ ok b) × ((m >>= f) w ≡ f a (m w).1)
unfolding ◌>>=◌
>>=-eq-ok {A} {B} m f w {b} h = invert (m w).0 (m w).1 refl h
  where
    invert :
        (r : Result A) (v : World)
        → (m w).0 ≡ r
        → (continue r f v).0 ≡ ok b
        → (a : A) × ((m w).0 ≡ ok a) × ((f a v).0 ≡ ok b) × (continue r f v ≡ f a v)
    invert (ok a) v e g = (a, e, g, refl)
    invert (err x) v e g = cc g

pub ruleset along_rules =
    (Along-pure, Along-raise, Along-or_raise, Along-if, Along-raise_if, Along-now, Along-bind)
