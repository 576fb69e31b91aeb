-- ===== src/Bytes.antt =====
-- encoding/binary's BigEndian (a byte is a number below 256, a byte slice a list of them), and
-- slices: what `b[i:]`, `copy` and the writes do in and out of range.
use teltonika.Prelude.{
  ℕ, ◌+◌, ◌-◌, ◌*◌, ◌/◌, ◌%◌, ◌^◌, ◌<◌, List, [], ◌∷◌, ◌++◌, length, take, drop, leb, if◌then◌else◌,
  Result, ok, panic,
}

abbrev pub IsByte : ℕ → Type 0
IsByte b = b < 256

-- Conversions to the unsigned types.
abbrev pub u8 : ℕ → ℕ
u8 n = n % 256

abbrev pub u16 : ℕ → ℕ
u16 n = n % 65536

abbrev pub u32 : ℕ → ℕ
u32 n = n % 4294967296

-- `BigEndian.Uint16(b)` and its fellows read the first bytes of `b`, and panic if it is shorter.
abbrev pub uint16_be : List ℕ → Result ℕ
uint16_be (a ∷ b ∷ _) = ok (a * 256 + b)
uint16_be _ = panic

abbrev pub uint32_be : List ℕ → Result ℕ
uint32_be (a ∷ b ∷ c ∷ d ∷ _) = ok (((a * 256 + b) * 256 + c) * 256 + d)
uint32_be _ = panic

abbrev pub uint64_be : List ℕ → Result ℕ
uint64_be (a ∷ b ∷ c ∷ d ∷ e ∷ f ∷ g ∷ h ∷ _) =
    ok (((((((a * 256 + b) * 256 + c) * 256 + d) * 256 + e) * 256 + f) * 256 + g) * 256 + h)
uint64_be _ = panic

-- The bytes that `PutUint16` and its fellows write.
abbrev pub be16 : ℕ → List ℕ
be16 v = u8 (v / 256) ∷ u8 v ∷ []

abbrev pub be32 : ℕ → List ℕ
be32 v = u8 (v / 2 ^ 24) ∷ u8 (v / 2 ^ 16) ∷ u8 (v / 2 ^ 8) ∷ u8 v ∷ []

abbrev pub be64 : ℕ → List ℕ
be64 v =
    u8 (v / 2 ^ 56)
    ∷ u8 (v / 2 ^ 48)
    ∷ u8 (v / 2 ^ 40)
    ∷ u8 (v / 2 ^ 32)
    ∷ u8 (v / 2 ^ 24)
    ∷ u8 (v / 2 ^ 16)
    ∷ u8 (v / 2 ^ 8)
    ∷ u8 v
    ∷ []

-- `b[i:]`, which panics past the end.
unfoldable pub slice_from : ℕ → List ℕ → Result (List ℕ)
slice_from i b = if leb i (length b) then ok (drop i b) else panic

-- A store of the bytes `bs` at `i`, as `PutUint32(b[i:], v)` and `b[i] = v` do: all of it or a panic.
unfoldable pub store : ℕ → List ℕ → List ℕ → Result (List ℕ)
store i bs b =
    if leb (i + length bs) (length b)
    then ok (take i b ++ (bs ++ drop (i + length bs) b))
    else panic

-- `copy(b[i:], src)` copies as much as fits, and panics only if `i` is past the end.
unfoldable pub copy_at : ℕ → List ℕ → List ℕ → Result (List ℕ)
copy_at i src b =
    if leb i (length b)
    then ok (take i b ++ (take (length b - i) src ++ drop (i + length src) b))
    else panic
