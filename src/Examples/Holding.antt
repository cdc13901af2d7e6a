-- ===== src/Examples/Holding.antt =====
-- A memory from a list of the bytes that are not 0, by address.
use fusioncore.Base.{ℕ, List, [], ◌∷◌, ◌==◌, if◌then◌else◌}
use fusioncore.Machine.Bytes.{Memory}

abbrev pub holding : List (ℕ × ℕ) → Memory
holding [] a = 0
holding ((at, value) ∷ rest) a = if a == at then value else holding rest a
