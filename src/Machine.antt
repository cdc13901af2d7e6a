-- ===== src/Machine.antt =====
-- What the kernel's functions run on: the memory and the state of the page allocator, and a
-- run's outcome. Memory is physical, which the kernel maps at its own addresses; every address
-- is taken as mapped.
pub mod Bytes
pub mod Laws
pub mod Steps
use fusioncore.Base.{ℕ, Option, none, some}
use fusioncore.Machine.Bytes.{Memory, load, store}
use fusioncore.Mm.Phys.{Pmm}

pub record Machine : Type 0 where
  pub mem : Memory
  pub pmm : Pmm

-- `halted` is `log(PANIC, ...)`, which stops the processor; `fault` an access that C leaves
-- undefined; `spinning` a loop that was not at its end when the fuel ran out.
pub data Run (A : Type 0) : Type 0 where
  done : A → Machine → Run A
  halted fault spinning : Run A

abbrev pub Cmd : Type 0 → Type 0
Cmd A = Machine → Run A

abbrev pub pure : {A : Type 0} → A → Cmd A
pure a m = done a m

-- `log(PANIC, ...)`
abbrev pub panic : {A : Type 0} → Cmd A
panic m = halted

module _ {A B : Type 0} where
  abbrev pub and_then : Run A → (A → Cmd B) → Run B
  and_then (done a m) k = k a m
  and_then halted k = halted
  and_then fault k = fault
  and_then spinning k = spinning

  infixl 5 ◌>>=◌ ◌>>◌
  abbrev pub ◌>>=◌ : Cmd A → (A → Cmd B) → Cmd B
  c >>= k = λ m. and_then (c m) k

  abbrev pub ◌>>◌ : Cmd A → Cmd B → Cmd B
  c >> d = c >>= λ _. d

-- A 64-bit load and store.
unfoldable pub read64 : ℕ → Cmd ℕ
read64 a m = done (load 8 m.mem a) m

unfoldable pub write64 : ℕ → ℕ → Cmd (Unit {0})
write64 a v m = done tt (record m { mem = store 8 m.mem a v })

-- A call of the page allocator, from what it answers.
abbrev pub from_pmm : {A : Type 0} → Option (A × Pmm) → Cmd A
from_pmm none m = fault
from_pmm (some (a, p)) m = done a (record m { pmm = p })

abbrev pub with_pmm : {A : Type 0} → (Pmm → Option (A × Pmm)) → Cmd A
with_pmm f m = from_pmm (f m.pmm) m
