-- ===== src/Tools/Keys.antt =====
-- src/tools/stringtools.hpp and src/tools/stringset.hpp: up to eight characters of a string
-- packed into a machine word, most significant first.
pub mod Load
pub mod Order
use bingmann_sample_sort.Prelude.{
  ℕ, zero, suc, ◌+◌, ◌-◌, ◌*◌, ◌/◌, ◌%◌, ◌^◌, ◌<◌, ◌≡◌, refl, List, [], ◌∷◌, arith, ◌==◌,
  if◌then◌else◌, tail, get_or,
}
use bingmann_sample_sort.Tools.Strings.{CString, IsBytes, head_char, get_chars}

-- `__builtin_bswap(*(uintN_t*)s)` on a little-endian machine: the next `k` bytes in memory order,
-- those behind the terminator too.
abbrev pub load_swapped : ℕ → CString → ℕ
load_swapped zero s = 0
load_swapped (suc k) s = head_char s * 256 ^ k + load_swapped k (tail s)

-- `v & (0xFF << 8 * k)`, shifted down
unfoldable pub byte_at : ℕ → ℕ → ℕ
byte_at k v = v / 256 ^ k % 256

-- `v & ~((1 << 8 * k) - 1)`
unfoldable pub keep_above : ℕ → ℕ → ℕ
keep_above k v = v - v % 256 ^ k

-- The byte-by-byte reading: stop at the terminator, whose place and all below stay 0.
unfoldable pub get_char_simple : ℕ → CString → ℕ
get_char_simple zero s = 0
get_char_simple (suc k) s =
    let rest = get_char_simple k (tail s) in
    if head_char s == 0 then 0 else head_char s * 256 ^ k + rest

-- `get_char<uint8_t>`
unfoldable pub get_char_uint8 : CString → ℕ → ℕ
get_char_uint8 str depth = head_char (get_chars str depth)

-- `get_char<uint16_t>`
unfoldable pub get_char_uint16 : CString → ℕ → ℕ
get_char_uint16 str depth =
    let s = get_chars str depth in
    if head_char s == 0 then 0 else head_char s * 256 + head_char (tail s)

-- `get_char<uint32_t>` and `get_char_uint32_bswap32`: one load, then cut at the first zero byte
unfoldable pub get_char_uint32 : CString → ℕ → ℕ
get_char_uint32 str depth =
    let v : ℕ = load_swapped 4 (get_chars str depth) in
    if byte_at 3 v == 0
    then 0
    else if byte_at 2 v == 0
    then keep_above 2 v
    else if byte_at 1 v == 0
    then keep_above 1 v
    else v

-- `get_char<uint64_t>` and `get_char_uint64_bswap64`
unfoldable pub cut_uint64 : ℕ → ℕ
cut_uint64 v =
    if byte_at 7 v == 0
    then 0
    else if byte_at 6 v == 0
    then keep_above 6 v
    else if byte_at 5 v == 0
    then keep_above 5 v
    else if byte_at 4 v == 0
    then keep_above 4 v
    else if byte_at 3 v == 0
    then keep_above 3 v
    else if byte_at 2 v == 0
    then keep_above 2 v
    else if byte_at 1 v == 0
    then keep_above 1 v
    else v

unfoldable pub get_char_uint64 : CString → ℕ → ℕ
unfolding cut_uint64
get_char_uint64 str depth = cut_uint64 (load_swapped 8 (get_chars str depth))

-- `get_char_uint64_simple` behind `get_uint64`
unfoldable pub get_uint64 : CString → ℕ → ℕ
unfolding get_char_simple
get_uint64 s depth = get_char_simple 8 (get_chars s depth)
