-- ===== src/Descriptors/Reading.antt =====
-- Reading back what is written in front of other bytes, in the order of Descriptors.Format.
use firmware_x.Prelude.{
  ℕ, zero, suc, ◌+◌, ◌^◌, ◌≤◌, ◌<◌, ◌≡◌, refl, ap, List, [], ◌∷◌, ◌++◌, append_assoc, some, arith,
  le→leb, length, drop, All, concat, length-append, take-append,
}
use firmware_x.Protocol.{byte_of}
use firmware_x.Descriptors.{le16, le32}
use firmware_x.Descriptors.Format.{
  Reader, read_le16, read_le32, read_chunk, read_descriptor, read_os_descriptor, read_many,
  read_string,
}

pub read_le16-le16 :
    (n : ℕ) (rest : List ℕ) → n < 2 ^ 16 → read_le16 (le16 n ++ rest) ≡ some (n, rest)
unfolding read_le16 le16 byte_of
read_le16-le16 n rest h = ap (λ k. some (k, rest)) (omega arith)

pub read_le32-le32 :
    (n : ℕ) (rest : List ℕ) → n < 2 ^ 32 → read_le32 (le32 n ++ rest) ≡ some (n, rest)
unfolding read_le32 le32 byte_of
read_le32-le32 n rest h = ap (λ k. some (k, rest)) (omega arith)

-- The bytes `x` in front of any others are read as themselves.
abbrev pub IsRead : Reader (List ℕ) → List ℕ → Type 0
IsRead read x = (rest : List ℕ) → read (x ++ rest) ≡ some (x, rest)

drop-append : (xs ys : List ℕ) → drop (length xs) (xs ++ ys) ≡ ys
drop-append [] ys = refl
drop-append (x ∷ xs) ys = drop-append xs ys

chunk-IsRead : (n : ℕ) (x : List ℕ) → length x ≡ n → IsRead (read_chunk n) x
unfolding read_chunk
chunk-IsRead n x h rest =
    let fits : n ≤ length (x ++ rest) = omega (arith, length-append x rest, h) in
    rw (le→leb n (length (x ++ rest)) fits) (rw (← h) (rw (take-append x rest, drop-append x rest)))

pub descriptor-IsRead :
    (n : ℕ) (bs : List ℕ) → 2 ≤ n → suc (length bs) ≡ n → IsRead read_descriptor (n ∷ bs)
unfolding read_descriptor
descriptor-IsRead n bs h k rest = rw (le→leb 2 n h) (chunk-IsRead n (n ∷ bs) k rest)

length-os : (i n : ℕ) (bs : List ℕ) → 5 + length bs ≡ n → length (i ∷ (le32 n ++ bs)) ≡ n
unfolding le32
length-os i n bs h = omega (arith, h)

pub os_descriptor-IsRead :
    (i n : ℕ) (bs : List ℕ)
    → 5 ≤ n
    → n < 2 ^ 32
    → 5 + length bs ≡ n
    → IsRead read_os_descriptor (i ∷ (le32 n ++ bs))
unfolding read_os_descriptor
os_descriptor-IsRead i n bs h k l rest = rw (append_assoc (le32 n) bs rest) (
    rw (read_le32-le32 n (bs ++ rest) k, le→leb 5 n h)
      (rw (← append_assoc (le32 n) bs rest)
        (chunk-IsRead n (i ∷ (le32 n ++ bs)) (length-os i n bs l) rest)))

pub read_many-zero : (read : Reader (List ℕ)) (bs : List ℕ) → read_many read 0 bs ≡ some ([], bs)
unfolding read_many
read_many-zero read bs = refl

pub read_many-one :
    {A : Type 0} (read : Reader A) (x : A) (bs rest : List ℕ)
    → read bs ≡ some (x, rest)
    → read_many read 1 bs ≡ some (x ∷ [], rest)
unfolding read_many
read_many-one read x bs rest h = rw h

pub read_many-concat :
    (read : Reader (List ℕ)) (xs : List (List ℕ)) (rest : List ℕ)
    → All (IsRead read) xs
    → read_many read (length xs) (concat xs ++ rest) ≡ some (xs, rest)
unfolding read_many
read_many-concat read [] rest all = refl
read_many-concat read (x ∷ xs) rest (h, all) =
    rw (append_assoc x (concat xs) rest)
      (rw (h (concat xs ++ rest), read_many-concat read xs rest all))

-- A string without a zero in it, and the zero that ends it.
pub read_string-append :
    (s rest : List ℕ) → All (λ b. 0 < b) s → read_string (s ++ 0 ∷ rest) ≡ some (s, rest)
unfolding read_string
read_string-append [] rest all = refl
read_string-append (zero ∷ s) rest (h, all) = absurd (omega arith)
read_string-append (suc b ∷ s) rest (h, all) = rw (read_string-append s rest all)
