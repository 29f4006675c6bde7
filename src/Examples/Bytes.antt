-- ===== src/Examples/Bytes.antt =====
-- Runs of lib/bancho-packets on numbers and arrays.
use peace.Base.{ℕ, ◌^◌, ◌<◌, ◌≡◌, refl, arith, true, false, some, List, [], ◌∷◌, ◌++◌, length}
use peace.Base.{done}
use peace.Packets.Words.{to_le_bytes, from_le_bytes}
use peace.Packets.Words.Laws.{from_le_bytes-to_le_bytes, to_le_bytes-from_le_bytes}
use peace.Packets.Uleb.{uleb128_to_u32}
use peace.Packets.Uleb.Encode.{groups}
use peace.Packets.Uleb.Decode.{uleb128_to_u32-groups}
use peace.Packets.Reader.{PayloadReader, read_number_array}

from_le_bytes-to_le_bytes_example : from_le_bytes (to_le_bytes 4 1009) ≡ 1009
from_le_bytes-to_le_bytes_example = from_le_bytes-to_le_bytes 4 1009 (omega arith)

to_le_bytes-from_le_bytes_example :
    (to_le_bytes 2 (from_le_bytes (241 ∷ 3 ∷ [])) ≡ 241 ∷ 3 ∷ [])
    × (from_le_bytes (241 ∷ 3 ∷ []) < 256 ^ 2)
to_le_bytes-from_le_bytes_example =
    to_le_bytes-from_le_bytes (241 ∷ 3 ∷ []) (omega arith, (omega arith, tt))

uleb128_to_u32-groups_example :
    uleb128_to_u32 true (groups 4 300 ++ (104 ∷ 105 ∷ []))
    ≡ done (some (300, length (groups 4 300)))
uleb128_to_u32-groups_example = uleb128_to_u32-groups true 300 (104 ∷ 105 ∷ []) (omega arith)

abbrev two_bytes : List ℕ
two_bytes = 172 ∷ 2 ∷ []

two_bytes_read : uleb128_to_u32 false two_bytes ≡ done (some (300, 2))
unfolding uleb128_to_u32
two_bytes_read = refl

abbrev six_bytes : List ℕ
six_bytes = 255 ∷ 255 ∷ 255 ∷ 255 ∷ 255 ∷ 1 ∷ []

abbrev negative_count : PayloadReader
negative_count = record { payload = 255 ∷ 255 ∷ []; index = 0 }

abbrev no_bytes : PayloadReader
no_bytes = record { payload = 0 ∷ 0 ∷ []; index = 0 }

no_bytes_read : read_number_array 1 no_bytes ≡ done (some [], record no_bytes { index = 2 })
unfolding read_number_array
no_bytes_read = refl

abbrev no_numbers : List ℕ
no_numbers = []
