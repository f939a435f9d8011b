-- ===== src/Packstream/Bytes.antt =====
-- encoding/binary as the package uses it: big-endian words as lists of bytes.
use neo4j_go_driver.Base.{
  ℕ, zero, suc, ◌+◌, ◌*◌, ◌/◌, ◌%◌, ◌^◌, ◌≤◌, ◌<◌, ◌≡◌, refl, Option, none, some, List, [], ◌∷◌,
  ◌++◌, arith, length, All,
}

abbrev pub IsByte : ℕ → Type 0
IsByte b = b < 256

-- `binary.BigEndian.PutUintN`: the low `n` bytes of a word, the highest first.
unfoldable pub be_bytes : ℕ → ℕ → List ℕ
be_bytes zero w = []
be_bytes (suc n) w = (w / 256 ^ n % 256) ∷ be_bytes n w

-- `binary.BigEndian.UintN`, which panics on a slice that is too short.
unfoldable pub be_acc : ℕ → ℕ → List ℕ → Option ℕ
be_acc zero acc l = some acc
be_acc (suc n) acc [] = none
be_acc (suc n) acc (b ∷ l) = be_acc n (acc * 256 + b) l

abbrev pub be_uint : ℕ → List ℕ → Option ℕ
be_uint n l = be_acc n 0 l

pub length-be_bytes : (n w : ℕ) → length (be_bytes n w) ≡ n
unfolding be_bytes
length-be_bytes zero w = refl
length-be_bytes (suc n) w = omega (arith, length-be_bytes n w)

pub be_bytes-IsByte : (n w : ℕ) → All IsByte (be_bytes n w)
unfolding be_bytes
be_bytes-IsByte zero w = tt
be_bytes-IsByte (suc n) w = (omega arith, be_bytes-IsByte n w)

-- Words of one, two, four and eight bytes are read back as they were written.
pub be_uint-be_bytes1 :
    (w : ℕ) (rest : List ℕ) → w < 256 → be_uint 1 (be_bytes 1 w ++ rest) ≡ some w
unfolding be_bytes be_acc
be_uint-be_bytes1 w rest h = ground arith

pub be_uint-be_bytes2 :
    (w : ℕ) (rest : List ℕ) → w < 2 ^ 16 → be_uint 2 (be_bytes 2 w ++ rest) ≡ some w
unfolding be_bytes be_acc
be_uint-be_bytes2 w rest h = ground arith

pub be_uint-be_bytes4 :
    (w : ℕ) (rest : List ℕ) → w < 2 ^ 32 → be_uint 4 (be_bytes 4 w ++ rest) ≡ some w
unfolding be_bytes be_acc
be_uint-be_bytes4 w rest h = ground arith

pub be_uint-be_bytes8 :
    (w : ℕ) (rest : List ℕ) → w < 2 ^ 64 → be_uint 8 (be_bytes 8 w ++ rest) ≡ some w
unfolding be_bytes be_acc
be_uint-be_bytes8 w rest h = ground arith

-- Reading succeeds where there are enough bytes.
pub be_acc-some : (n acc : ℕ) (l : List ℕ) → n ≤ length l → (w : ℕ) × (be_acc n acc l ≡ some w)
unfolding be_acc
be_acc-some zero acc l h = (acc, refl)
be_acc-some (suc n) acc [] h = absurd (omega arith)
be_acc-some (suc n) acc (b ∷ l) h = be_acc-some n (acc * 256 + b) l (omega arith)
