-- ===== src/Machine/Steps.antt =====
-- Steps of a command: a call behind which a pointer is tested, a call, and tests.
use fusioncore.Base.{ℕ, ◌≡◌, ◌≢◌, refl, Bool, false, ◌==◌, ==_ne, if◌then◌else◌}
use fusioncore.Machine.{Cmd, Machine, done, ◌>>=◌, ◌>>◌}

module _ {A : Type 0} where
  pub after_pointer :
      (c : Cmd ℕ) (fails : Cmd A) (k : ℕ → Cmd A) (a : ℕ) (m m' : Machine)
      → c m ≡ done a m'
      → a ≢ 0
      → (c >>= λ b. if b == 0 then fails else k b) m ≡ k a m'
  after_pointer c fails k a m m' ran ne = rw (ran, ==_ne a 0 ne) refl

  pub after_call :
      (c : Cmd (Unit {0})) (d : Cmd A) (m m' : Machine) → c m ≡ done tt m' → (c >> d) m ≡ d m'
  after_call c d m m' ran = rw ran refl

  pub after_test :
      (a : ℕ) (fails d : Cmd A) (m : Machine) → a ≢ 0 → (if a == 0 then fails else d) m ≡ d m
  after_test a fails d m ne = rw (==_ne a 0 ne) refl

  pub after_check :
      (b : Bool) (fails d : Cmd A) (m : Machine) → b ≡ false → (if b then fails else d) m ≡ d m
  after_check b fails d m holds = rw holds refl
