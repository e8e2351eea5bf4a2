-- ===== src/Client/Exec.antt =====
-- A method that reads and changes the world `W` and may raise; what was done before a raise stays.
use virtual_automotive_ota_d.Prelude.{Bool, true, false, Result, ok, err, Exception}

abbrev pub Exec : Type 0 → Type 0 → Type 0
Exec W A = W → Result A × W

module _ {W A : Type 0} where
  abbrev pub pure : A → Exec W A
  pure a w = (ok a, w)

  abbrev pub raise : Exception → Exec W A
  raise e w = (err e, w)

  abbrev pub lift : Result A → Exec W A
  lift r w = (r, w)

module _ {W A B : Type 0} where
  abbrev pub resume : Result A → W → (A → Exec W B) → Result B × W
  resume (ok a) w f = f a w
  resume (err e) w f = (err e, w)

  infixl 10 ◌>>=◌ ◌>>◌
  abbrev pub ◌>>=◌ : Exec W A → (A → Exec W B) → Exec W B
  ◌>>=◌ m f w = resume (m w).0 (m w).1 f

  abbrev pub ◌>>◌ : Exec W A → Exec W B → Exec W B
  m >> n = m >>= λ _. n

module _ {W : Type 0} where
  -- if not ...: raise
  abbrev pub unless : Bool → Exception → Exec W (Unit {0})
  unless true e = pure tt
  unless false e = raise e
