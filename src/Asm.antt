-- ===== src/Asm.antt =====
-- fckrnl/asm/utils.h: port I/O. The same type serves the registers that a device has in memory.
-- What a device answers is no code of the kernel: it is a function of the accesses so far.
pub mod Appends
use fusioncore.Base.{ℕ, List, [], ◌∷◌, ◌++◌, u8, u32}

-- A write of a value to a port or register, or a read of one.
pub data Access : Type 0 where
  wrote : ℕ → ℕ → Access
  was_read : ℕ → Access

-- The accesses so far, oldest first.
abbrev pub Trace : Type 0
Trace = List Access

-- What a read answers.
abbrev pub Device : Type 0
Device = Trace → ℕ → ℕ

-- `halted` is a loop of `cli; hlt`, with the accesses before it, `fault` an access outside an array,
-- `spinning` a wait whose fuel ran out.
pub data Out (A : Type 0) : Type 0 where
  done : A → Trace → Out A
  halted : Trace → Out A
  fault spinning : Out A

abbrev pub Io : Type 0 → Type 0
Io A = Trace → Out A

abbrev pub pure : {A : Type 0} → A → Io A
pure a t = done a t

-- `for (;;) asm volatile("cli; hlt")`, and `log(PANIC, ...)` where its text is left out.
abbrev pub halt : {A : Type 0} → Io A
halt t = halted t

module _ {A B : Type 0} where
  abbrev pub and_then : Out A → (A → Io B) → Out B
  and_then (done a t) k = k a t
  and_then (halted t) k = halted t
  and_then fault k = fault
  and_then spinning k = spinning

  infixl 5 ◌>>=◌ ◌>>◌
  abbrev pub ◌>>=◌ : Io A → (A → Io B) → Io B
  c >>= k = λ t. and_then (c t) k

  abbrev pub ◌>>◌ : Io A → Io B → Io B
  c >> d = c >>= λ _. d

-- `io_outb`, whose value is a byte.
abbrev pub io_outb : ℕ → ℕ → Io (Unit {0})
io_outb port val t = done tt (t ++ wrote port (u8 val) ∷ [])

module _ (dev : Device) where
  abbrev pub io_inb : ℕ → Io ℕ
  io_inb port t = done (u8 (dev t port)) (t ++ was_read port ∷ [])

  -- Port 0x80 is read for the delay alone.
  abbrev pub io_wait : Io (Unit {0})
  io_wait = io_inb 0x80 >> pure tt

-- A 32-bit access to a device's register in memory, through a volatile pointer.
abbrev pub write_reg32 : ℕ → ℕ → Io (Unit {0})
write_reg32 addr val t = done tt (t ++ wrote addr (u32 val) ∷ [])

abbrev pub read_reg32 : Device → ℕ → Io ℕ
read_reg32 dev addr t = done (u32 (dev t addr)) (t ++ was_read addr ∷ [])
