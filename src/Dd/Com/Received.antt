-- ===== src/Dd/Com/Received.antt =====
-- What `com_recv` returns.
use fusioncore.Base.{
  ℕ, zero, suc, ◌+◌, ◌<◌, bit_and, ◌≡◌, refl, Bool, true, false, not, [], ◌∷◌, ◌++◌, arith, ◌==◌,
  u8,
}
use fusioncore.Asm.{was_read, Trace, Device, done}
use fusioncore.Dd.Com.{com_is_received, com_recv}
use fusioncore.Dd.Com.Sent.{polled}

module _ (dev : Device) (port : ℕ) where
  -- Bit 0 of the line status register is set.
  abbrev pub is_waiting : Trace → Bool
  is_waiting t = not (bit_and (u8 (dev t (port + 5))) 1 == 0)

  -- The trace after `n` polls.
  abbrev pub polled_times : ℕ → Trace → Trace
  polled_times zero t = t
  polled_times (suc n) t = polled_times n (polled dev port t)

  -- If the first n polls find no byte and the next finds one, and the fuel is more than n, com_recv
  -- returns what the data register holds after those polls, and does nothing else.
  pub com_recv-waits :
      (fuel n : ℕ) (t : Trace)
      → n < fuel
      → ((k : ℕ) → k < n → is_waiting (polled_times k t) ≡ false)
      → is_waiting (polled_times n t) ≡ true
      → com_recv dev fuel port t
        ≡ done
            (u8 (dev (polled_times (suc n) t) port))
            (polled_times (suc n) t ++ was_read port ∷ [])
  unfolding com_recv com_is_received
  com_recv-waits zero n t enough idle here = absurd (omega arith)
  com_recv-waits (suc fuel) zero t enough idle here = rw here refl
  com_recv-waits (suc fuel) (suc n) t enough idle here = rw (idle 0 (omega arith)) (
      com_recv-waits fuel n (polled dev port t) (omega arith) (λ k lt. idle (suc k) (omega arith))
        here)
