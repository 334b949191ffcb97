-- ===== src/Wire/Endian.antt =====
-- endian.h as lifx/wire_proto.c uses it: htole16, htole32, htole64 and the way back, on a host of
-- either byte order, and how such a host keeps an integer of `k` bytes in memory.
pub mod Laws
use mathlib.Core.List.{reverse}
use lightsd.Common.{ℕ, zero, suc, ◌+◌, ◌*◌, ◌/◌, ◌%◌, List, [], ◌∷◌}

pub data Host : Type 0 where
  little big : Host

-- The bytes of a number, the lowest first.
abbrev pub le_bytes : ℕ → ℕ → List ℕ
le_bytes zero n = []
le_bytes (suc k) n = n % 256 ∷ le_bytes k (n / 256)

abbrev pub of_le_bytes : List ℕ → ℕ
of_le_bytes [] = 0
of_le_bytes (b ∷ bs) = b + 256 * of_le_bytes bs

-- bswap_16, bswap_32 and bswap_64, by the number of bytes.
unfoldable pub swap_bytes : ℕ → ℕ → ℕ
swap_bytes k n = of_le_bytes (reverse (le_bytes k n))

unfoldable pub htole : Host → ℕ → ℕ → ℕ
htole Host.little k n = n
htole Host.big k n = swap_bytes k n

unfoldable pub letoh : Host → ℕ → ℕ → ℕ
letoh Host.little k n = n
letoh Host.big k n = swap_bytes k n

-- An integer of `k` bytes as the host keeps it in memory.
unfoldable pub memory : Host → ℕ → ℕ → List ℕ
memory Host.little k n = le_bytes k n
memory Host.big k n = reverse (le_bytes k n)
