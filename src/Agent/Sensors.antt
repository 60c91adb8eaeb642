-- ===== src/Agent/Sensors.antt =====
-- crates/corpus-agent/src/sensors: the parsers of what Windows reports of its file systems.
-- An i64 is the 64 bits of its two's complement. `String::from_utf16_lossy` is a parameter.
pub mod Notify
pub mod Usn
use corpus.Prelude.{ℕ, zero, suc, ◌+◌, ◌%◌, ◌^◌, Bool, List, [], ◌∷◌, take, drop, leb}
use corpus.Agent.Spool.{Bytes, from_le_bytes}

-- `uN::from_le_bytes(buf[at..at + n])`
unfoldable pub field : ℕ → ℕ → Bytes → ℕ
field at n buf = from_le_bytes (take n (drop at buf))

-- `chunks_exact(2)`, each a u16. An odd last byte is left.
unfoldable pub units : Bytes → List ℕ
units [] = []
units (a ∷ []) = []
units (a ∷ b ∷ rest) = from_le_bytes (a ∷ b ∷ []) ∷ units rest

-- `a <= b` on two i64s.
unfoldable pub i64_leb : ℕ → ℕ → Bool
i64_leb a b = leb ((a + 2 ^ 63) % 2 ^ 64) ((b + 2 ^ 63) % 2 ^ 64)
