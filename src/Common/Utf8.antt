-- ===== src/Common/Utf8.antt =====
-- `String::from_utf8_lossy`, which `Path::to_string_lossy` and `Path::display` go through: every
-- maximal invalid run becomes one U+FFFD.
use Prim.Native.Nat.{ℕ, ◌+◌, ◌-◌, ◌*◌, ◌≤◌}
use mathlib.Core.Path.{◌≡◌, refl, ap}
use mathlib.Core.Bool.{◌&&◌}
use mathlib.Core.List.{List, [], ◌∷◌, ◌++◌}
use procwarden.Common.Tests.{if◌then◌else◌, leb, ◌==◌, le→leb}
use procwarden.Common.Lists.{All}
use procwarden.Common.Strings.{Text}

-- Between two characters, or inside one: the bytes that are missing, the range of the next byte,
-- and the bits read so far.
pub data Decoder : Type 0 where
  start : Decoder
  inside : ℕ → ℕ → ℕ → ℕ → Decoder

abbrev replacement : ℕ
replacement = 0xfffd

first_byte : ℕ → Text × Decoder
first_byte b =
    if leb b 0x7f
    then (b ∷ [], start)
    else if leb 0xc2 b && leb b 0xdf
    then ([], inside 1 0x80 0xbf (b - 0xc0))
    else if b == 0xe0
    then ([], inside 2 0xa0 0xbf 0)
    else if b == 0xed
    then ([], inside 2 0x80 0x9f 0xd)
    else if leb 0xe1 b && leb b 0xef
    then ([], inside 2 0x80 0xbf (b - 0xe0))
    else if b == 0xf0
    then ([], inside 3 0x90 0xbf 0)
    else if leb 0xf1 b && leb b 0xf3
    then ([], inside 3 0x80 0xbf (b - 0xf0))
    else if b == 0xf4
    then ([], inside 3 0x80 0x8f 4)
    else (replacement ∷ [], start)

next_byte : Decoder → ℕ → Text × Decoder
next_byte start b = first_byte b
next_byte (inside left lo hi bits) b =
    let (out, d) = first_byte b in
    let bits' = bits * 64 + (b - 0x80) in
    if leb lo b && leb b hi
    then (if leb left 1 then (bits' ∷ [], start) else ([], inside (left - 1) 0x80 0xbf bits'))
    else (replacement ∷ out, d)

decode : Decoder → List ℕ → Text
decode start [] = []
decode (inside left lo hi bits) [] = replacement ∷ []
decode start (b ∷ bs) = let (out, d) = next_byte start b in out ++ decode d bs
decode (inside left lo hi bits) (b ∷ bs) =
    let (out, d) = next_byte (inside left lo hi bits) b in out ++ decode d bs

unfoldable pub from_utf8_lossy : List ℕ → Text
unfolding decode next_byte first_byte
from_utf8_lossy = decode start

first_byte-ascii : (b : ℕ) → b ≤ 0x7f → first_byte b ≡ (b ∷ [], start)
unfolding first_byte
first_byte-ascii b h = rw (le→leb b 0x7f h)

decode-ascii : (bs : List ℕ) → All (λ b. b ≤ 0x7f) bs → decode start bs ≡ bs
unfolding decode next_byte
decode-ascii [] h = refl
decode-ascii (b ∷ bs) h = rw (first_byte-ascii b h.0) (ap (λ t. b ∷ t) (decode-ascii bs h.1))

-- ASCII text comes through unchanged.
pub from_utf8_lossy-ascii : (bs : List ℕ) → All (λ b. b ≤ 0x7f) bs → from_utf8_lossy bs ≡ bs
unfolding from_utf8_lossy
from_utf8_lossy-ascii bs h = decode-ascii bs h
