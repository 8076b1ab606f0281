-- ===== src/Descriptors/Format.antt =====
-- The data that the control file of functionfs takes, read as linux/usb/functionfs.h documents them:
-- an independent description of what onekey_usb_functionfs.hpp writes.
use Prim.Native.Nat.{bit_and, bit_or}
use firmware_x.Prelude.{
  ℕ, zero, suc, ◌+◌, ◌*◌, ◌^◌, List, [], ◌∷◌, Bool, true, false, not, ◌&&◌, Option, none, some,
  ◌==◌, leb, length, take, drop, if◌then◌else◌,
}
use firmware_x.System.{Uapi}

infixl 5 ◌>>=◌
abbrev pub ◌>>=◌ : {A B : Type 0} → Option A → (A → Option B) → Option B
none >>= rest = none
some a >>= rest = rest a

-- A part of the data, and what is left.
abbrev pub Reader : Type 0 → Type 0
Reader A = List ℕ → Option (A × List ℕ)

unfoldable pub read_le16 : Reader ℕ
read_le16 (a ∷ b ∷ rest) = some (a + 2 ^ 8 * b, rest)
read_le16 _ = none

unfoldable pub read_le32 : Reader ℕ
read_le32 (a ∷ b ∷ c ∷ d ∷ rest) = some (a + 2 ^ 8 * b + 2 ^ 16 * c + 2 ^ 24 * d, rest)
read_le32 _ = none

unfoldable pub read_chunk : ℕ → Reader (List ℕ)
read_chunk n bs = if leb n (length bs) then some (take n bs, drop n bs) else none

-- A USB descriptor begins with its length, then its type.
unfoldable pub read_descriptor : Reader (List ℕ)
read_descriptor [] = none
read_descriptor (n ∷ bs) = if leb 2 n then read_chunk n (n ∷ bs) else none

-- A descriptor for an operating system has an interface first, then its length.
unfoldable pub read_os_descriptor : Reader (List ℕ)
read_os_descriptor [] = none
read_os_descriptor (i ∷ bs) = do
  (n, _) ← read_le32 bs
  if leb 5 n then read_chunk n (i ∷ bs) else none

unfoldable pub read_many : {A : Type 0} → Reader A → ℕ → Reader (List A)
read_many read zero bs = some ([], bs)
read_many read (suc n) bs = do
  (x, after) ← read bs
  (xs, rest) ← read_many read n after
  some (x ∷ xs, rest)

-- A number that stands there only if its flag is set.
unfoldable pub read_count : Bool → Reader ℕ
read_count true bs = read_le32 bs
read_count false bs = some (0, bs)

pub record Descriptors : Type 0 where
  pub eventfd : ℕ
  pub full_speed : List (List ℕ)
  pub high_speed : List (List ℕ)
  pub super_speed : List (List ℕ)
  pub os : List (List ℕ)

abbrev pub only_if : {A : Type 0} → Bool → Option A → Option A
only_if b a = if b then a else none

abbrev pub at_end : {A : Type 0} → A → List ℕ → Option A
at_end a [] = some a
at_end a (_ ∷ _) = none

-- What stands behind the flags.
unfoldable pub read_parts : Bool → Bool → Bool → Bool → Bool → List ℕ → Option Descriptors
read_parts has_eventfd has_fs has_hs has_ss has_os bs = do
  (eventfd, bs) ← read_count has_eventfd bs
  (fs_count, bs) ← read_count has_fs bs
  (hs_count, bs) ← read_count has_hs bs
  (ss_count, bs) ← read_count has_ss bs
  (os_count, bs) ← read_count has_os bs
  (fs, bs) ← read_many read_descriptor fs_count bs
  (hs, bs) ← read_many read_descriptor hs_count bs
  (ss, bs) ← read_many read_descriptor ss_count bs
  (os, bs) ← read_many read_os_descriptor os_count bs
  at_end (record { eventfd = eventfd; full_speed = fs; high_speed = hs; super_speed = ss; os = os })
      bs

module _ (uapi : Uapi) where
  abbrev pub known_flags : ℕ
  known_flags =
      bit_or
        (bit_or (bit_or (bit_or uapi.has_fs_desc uapi.has_hs_desc) uapi.has_ss_desc)
          uapi.has_ms_os_desc)
        uapi.eventfd_flag

  abbrev pub has : ℕ → ℕ → Bool
  has flags flag = not (bit_and flags flag == 0)

  unfoldable pub read_body : ℕ → List ℕ → Option Descriptors
  read_body flags =
      read_parts (has flags uapi.eventfd_flag) (has flags uapi.has_fs_desc)
        (has flags uapi.has_hs_desc) (has flags uapi.has_ss_desc) (has flags uapi.has_ms_os_desc)

  -- The block is refused if its magic number or its length is wrong, if a flag is not known, or if
  -- anything is left over.
  unfoldable pub read_descriptors : List ℕ → Option Descriptors
  read_descriptors bytes = do
    (magic, bs) ← read_le32 bytes
    (size, bs) ← read_le32 bs
    (flags, bs) ← read_le32 bs
    only_if
        (magic == uapi.descriptors_magic_v2
          && size == length bytes
          && bit_or flags known_flags == known_flags)
        (read_body flags bs)

-- The older format, without flags: the descriptors for full and for high speed.
unfoldable pub read_descriptors_v1 : Uapi → List ℕ → Option (List (List ℕ) × List (List ℕ))
read_descriptors_v1 uapi bytes = do
  (magic, bs) ← read_le32 bytes
  (size, bs) ← read_le32 bs
  (fs_count, bs) ← read_le32 bs
  (hs_count, bs) ← read_le32 bs
  (fs, bs) ← read_many read_descriptor fs_count bs
  (hs, bs) ← read_many read_descriptor hs_count bs
  only_if (magic == uapi.descriptors_magic && size == length bytes) (at_end (fs, hs) bs)

-- A string ends with a zero.
unfoldable pub read_string : Reader (List ℕ)
read_string [] = none
read_string (zero ∷ bs) = some ([], bs)
read_string (suc b ∷ bs) = do (s, rest) ← read_string bs; some (suc b ∷ s, rest)

-- The strings of one language, behind its code.
unfoldable pub read_language : ℕ → Reader (ℕ × List (List ℕ))
read_language str_count bs = do
  (code, bs) ← read_le16 bs
  (strings, bs) ← read_many read_string str_count bs
  some ((code, strings), bs)

unfoldable pub read_strings : Uapi → List ℕ → Option (List (ℕ × List (List ℕ)))
read_strings uapi bytes = do
  (magic, bs) ← read_le32 bytes
  (size, bs) ← read_le32 bs
  (str_count, bs) ← read_le32 bs
  (lang_count, bs) ← read_le32 bs
  (languages, bs) ← read_many (read_language str_count) lang_count bs
  only_if (magic == uapi.strings_magic && size == length bytes) (at_end languages bs)
