-- ===== src/Base/Result.antt =====
-- `Result<A, String>`: the chain that `?` makes.
use mathlib.Core.Path.{◌≡◌, refl}
use yrby.Base.Texts.{Str}

pub data Result (A : Type 0) : Type 0 where
  ok : A → Result A
  err : Str → Result A

infixl 1 ◌>>=◌
abbrev pub ◌>>=◌ : {A B : Type 0} → Result A → (A → Result B) → Result B
ok a >>= f = f a
err e >>= f = err e

-- A chain that ends well had every step end well.
pub bind-ok :
    {A B : Type 0} (m : Result A) (f : A → Result B) (b : B)
    → (m >>= f) ≡ ok b
    → (a : A) × (m ≡ ok a) × (f a ≡ ok b)
bind-ok (ok a) f b h = (a, refl, h)
bind-ok (err e) f b h = cc
