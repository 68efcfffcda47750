-- ===== src/Base/Bytes.antt =====
-- Numbers as big-endian byte strings of a fixed width, as Solidity's `abi` writes them.
use Prim.Native.Nat.{ℕ, zero, suc, ◌+◌, ◌*◌, ◌/◌, ◌%◌, ◌^◌, ◌≤◌, ◌<◌}
use mathlib.Core.Path.{◌≡◌, refl, ap}
use mathlib.Core.List.{List, [], ◌∷◌, ◌++◌, reverse, reverse-reverse, reverse-cons}
use native.Mathlib.Nat.{pow-suc}
use native.Mathlib.Omega.{arith}
use blobstreamx.Base.Lists.{length, length-reverse, take, drop, take-append, drop-append}

-- A byte string; each byte is a number below 256.
abbrev pub Bytes : Type 0
Bytes = List ℕ

unfoldable pub le_bytes : ℕ → ℕ → Bytes
le_bytes zero n = []
le_bytes (suc w) n = (n % 256) ∷ le_bytes w (n / 256)

unfoldable pub of_le_bytes : Bytes → ℕ
of_le_bytes [] = 0
of_le_bytes (b ∷ bs) = b + 256 * of_le_bytes bs

-- The `w` bytes of `n`, the most significant first.
unfoldable pub be_bytes : ℕ → ℕ → Bytes
unfolding le_bytes
be_bytes w n = reverse (le_bytes w n)

unfoldable pub of_be_bytes : Bytes → ℕ
unfolding of_le_bytes
of_be_bytes bs = of_le_bytes (reverse bs)

length-le_bytes : (w n : ℕ) → length (le_bytes w n) ≡ w
unfolding le_bytes
length-le_bytes zero n = refl
length-le_bytes (suc w) n = ap suc (length-le_bytes w (n / 256))

of_le_bytes-le_bytes : (w n : ℕ) → n < 256 ^ w → of_le_bytes (le_bytes w n) ≡ n
unfolding le_bytes of_le_bytes
of_le_bytes-le_bytes zero n h = omega arith
of_le_bytes-le_bytes (suc w) n h =
    let below : n < 256 ^ w * 256 = rw (← pow-suc 256 w) h in
    omega (arith, of_le_bytes-le_bytes w (n / 256) (omega arith))

pub length-be_bytes : (w n : ℕ) → length (be_bytes w n) ≡ w
unfolding be_bytes
length-be_bytes w n = rw (length-reverse (le_bytes w n)) (length-le_bytes w n)

pub of_be_bytes-be_bytes : (w n : ℕ) → n < 256 ^ w → of_be_bytes (be_bytes w n) ≡ n
unfolding be_bytes of_be_bytes
of_be_bytes-be_bytes w n h = rw reverse-reverse (of_le_bytes-le_bytes w n h)

-- The field of width `w` at the front of a string, and what follows it.
pub take-be_bytes : (w n : ℕ) (rest : Bytes) → take w (be_bytes w n ++ rest) ≡ be_bytes w n
take-be_bytes w n rest = take-append w (be_bytes w n) rest (length-be_bytes w n)

pub drop-be_bytes : (w n : ℕ) (rest : Bytes) → drop w (be_bytes w n ++ rest) ≡ rest
drop-be_bytes w n rest = drop-append w (be_bytes w n) rest (length-be_bytes w n)

-- Every number of the string is a byte.
abbrev pub IsBytes : Bytes → Type 0
IsBytes [] = Unit
IsBytes (b ∷ bs) = (b < 256) × IsBytes bs

pub IsBytes-append : (bs cs : Bytes) → IsBytes bs → IsBytes cs → IsBytes (bs ++ cs)
IsBytes-append [] cs h k = k
IsBytes-append (b ∷ bs) cs h k = (h.0, IsBytes-append bs cs h.1 k)

IsBytes-reverse : (bs : Bytes) → IsBytes bs → IsBytes (reverse bs)
IsBytes-reverse [] h = tt
IsBytes-reverse (b ∷ bs) h =
    rw reverse-cons (IsBytes-append (reverse bs) (b ∷ []) (IsBytes-reverse bs h.1) (h.0, tt))

IsBytes-take : (n : ℕ) (bs : Bytes) → IsBytes bs → IsBytes (take n bs)
IsBytes-take zero bs h = tt
IsBytes-take (suc n) [] h = tt
IsBytes-take (suc n) (b ∷ bs) h = (h.0, IsBytes-take n bs h.1)

pub IsBytes-drop : (n : ℕ) (bs : Bytes) → IsBytes bs → IsBytes (drop n bs)
IsBytes-drop zero bs h = h
IsBytes-drop (suc n) [] h = tt
IsBytes-drop (suc n) (b ∷ bs) h = IsBytes-drop n bs h.1

of_le_bytes-lt : (n : ℕ) (bs : Bytes) → IsBytes bs → length bs ≤ n → of_le_bytes bs < 256 ^ n
unfolding of_le_bytes
of_le_bytes-lt zero [] h l = omega arith
of_le_bytes-lt zero (b ∷ bs) h l = absurd (omega arith)
of_le_bytes-lt (suc n) [] h l = rw pow-suc (omega (arith, of_le_bytes-lt n [] tt (omega arith)))
of_le_bytes-lt (suc n) (b ∷ bs) h l =
    rw pow-suc (omega (arith, of_le_bytes-lt n bs h.1 (omega arith)))

length-take_le : (n : ℕ) (bs : Bytes) → length (take n bs) ≤ n
length-take_le zero bs = omega arith
length-take_le (suc n) [] = omega arith
length-take_le (suc n) (b ∷ bs) = omega (arith, length-take_le n bs)

pub of_be_bytes-lt : (w : ℕ) (bs : Bytes) → IsBytes bs → of_be_bytes (take w bs) < 256 ^ w
unfolding of_be_bytes
of_be_bytes-lt w bs h =
    let s = length-reverse (take w bs) in
    let t = length-take_le w bs in
    of_le_bytes-lt w (reverse (take w bs)) (IsBytes-reverse (take w bs) (IsBytes-take w bs h))
      (omega arith)

IsBytes-le_bytes : (w n : ℕ) → IsBytes (le_bytes w n)
unfolding le_bytes
IsBytes-le_bytes zero n = tt
IsBytes-le_bytes (suc w) n = (omega arith, IsBytes-le_bytes w (n / 256))

pub IsBytes-be_bytes : (w n : ℕ) → IsBytes (be_bytes w n)
unfolding be_bytes
IsBytes-be_bytes w n = IsBytes-reverse (le_bytes w n) (IsBytes-le_bytes w n)
