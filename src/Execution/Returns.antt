-- ===== src/Execution/Returns.antt =====
-- What a call that returns tells of the calls that it is made of.
use uads.Common.{Bool, true, false, Option, none, some, ◌≡◌, ap, refl}
use uads.Execution.Store.{
  Action, ExecutionError, Result, Store, ◌>>=◌, ◌>>◌, after, or_raise, raise_if, returned, thrown,
}

pub by_end :
    {A B : Type 0} (f : A → Action B) (o : Result A × Store) (b : B)
    → (after f o).0 ≡ returned b
    → (a : A) × (o.0 ≡ returned a) × ((f a o.1).0 ≡ returned b)
by_end f (returned a, s) b h = (a, refl, h)
by_end f (thrown e, s) b h = cc h

pub let_through :
    (c : Bool) (e : ExecutionError) (a : Unit {0}) (s : Store)
    → (raise_if c e s).0 ≡ returned a
    → c ≡ false
let_through true e a s h = cc h
let_through false e a s h = refl

pub let_on : (c : Bool) (e : ExecutionError) (s : Store) → c ≡ false → (raise_if c e s).1 ≡ s
let_on true e s h = cc
let_on false e s h = refl

-- What a chain of two calls that returns did.
pub returned_by :
    {A B : Type 0} (m : Action A) (f : A → Action B) (s : Store) (b : B)
    → ((m >>= f) s).0 ≡ returned b
    → (a : A) × ((m s).0 ≡ returned a) × ((f a (m s).1).0 ≡ returned b)
unfolding ◌>>=◌
returned_by {A} {B} m f s b h = by_end f (m s) b h

-- A guard that a call got past had a false condition, and changed nothing.
pub passed_guard :
    {B : Type 0} (c : Bool) (e : ExecutionError) (k : Action B) (s : Store) (b : B)
    → ((raise_if c e >> k) s).0 ≡ returned b
    → (c ≡ false) × ((k s).0 ≡ returned b)
unfolding ◌>>=◌
passed_guard true e k s b h = cc h
passed_guard false e k s b h = (refl, h)

-- What is there is what a chain goes on with.
pub passed_option :
    {A B : Type 0} (o : Option A) (e : ExecutionError) (f : A → Action B) (s : Store) (b : B)
    → ((or_raise o e >>= f) s).0 ≡ returned b
    → (a : A) × (o ≡ some a) × ((f a s).0 ≡ returned b)
unfolding ◌>>=◌
passed_option none e f s b h = cc h
passed_option (some a) e f s b h = (a, refl, h)

abbrev result_or : {A : Type 0} → A → Result A → A
result_or other (returned a) = a
result_or other (thrown e) = other

pub returned_inj : {A : Type 0} (a b : A) → returned a ≡ returned b → a ≡ b
returned_inj a b h = ap (result_or a) h
