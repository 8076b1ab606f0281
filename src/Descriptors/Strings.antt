-- ===== src/Descriptors/Strings.antt =====
-- The strings that `ffs_init` of onekey_usb_functionfs.hpp writes, read as the header documents them.
use firmware_x.Prelude.{
  ℕ, ◌+◌, ◌*◌, ◌^◌, ◌<◌, ◌≡◌, List, [], ◌∷◌, ◌++◌, append-nil, Bool, ◌&&◌, true, some, arith, ltb,
  ◌==◌, ==-self, length, All, length-append,
}
use firmware_x.System.{FfsStrings, Uapi}
use firmware_x.Descriptors.{le16, le32, ffs_strings_bytes}
use firmware_x.Descriptors.Format.{read_many, read_string, read_language, read_strings}
use firmware_x.Descriptors.Reading.{
  read_many-one, read_le16-le16, read_le32-le32, read_string-append,
}

-- One string for one language, with a zero behind it, and a header that says so.
pub record IsOneString (uapi : Uapi) (t : FfsStrings) (name : List ℕ) : Type 0 where
  pub magic : t.header.magic ≡ uapi.strings_magic
  pub length : t.header.length ≡ 4 * 4 + 2 + length t.str1
  pub str_count : t.header.str_count ≡ 1
  pub lang_count : t.header.lang_count ≡ 1
  pub code_fits : t.code < 2 ^ 16
  pub magic_fits : t.header.magic < 2 ^ 32
  pub length_fits : t.header.length < 2 ^ 32
  pub str1 : t.str1 ≡ name ++ 0 ∷ []
  pub no_zero : All (λ b. 0 < b) name

abbrev pub no_zero : List ℕ → Bool
no_zero [] = true
no_zero (b ∷ bs) = ltb 0 b && no_zero bs

pub no_zero-All : (s : List ℕ) → no_zero s ≡ true → All (λ b. 0 < b) s
no_zero-All [] h = tt
no_zero-All (b ∷ bs) h = (ground arith, no_zero-All bs (ground arith))

length-ffs_strings_bytes :
    (t : FfsStrings) → length (ffs_strings_bytes t) ≡ 4 * 4 + 2 + length t.str1
unfolding ffs_strings_bytes le16 le32
length-ffs_strings_bytes t = omega (arith, length-append t.str1 [])

read_language-one :
    (code : ℕ) (name rest : List ℕ)
    → code < 2 ^ 16
    → All (λ b. 0 < b) name
    → read_language 1 (le16 code ++ (name ++ 0 ∷ rest)) ≡ some ((code, name ∷ []), rest)
unfolding read_language
read_language-one code name rest fits h =
    rw (read_le16-le16 code (name ++ 0 ∷ rest) fits)
      (rw (read_many-one read_string name (name ++ 0 ∷ rest) rest (read_string-append name rest h)))

languages-one :
    (t : FfsStrings) (name : List ℕ)
    → t.code < 2 ^ 16
    → All (λ b. 0 < b) name
    → t.str1 ≡ name ++ 0 ∷ []
    → read_many (read_language 1) 1 (le16 t.code ++ (t.str1 ++ []))
      ≡ some ((t.code, name ∷ []) ∷ [], [])
languages-one t name fits h e = rw (append-nil t.str1) (
    rw e (
      read_many-one (read_language 1) (t.code, name ∷ []) (le16 t.code ++ (name ++ 0 ∷ [])) []
        (read_language-one t.code name [] fits h)))

accepted :
    (uapi : Uapi) (t : FfsStrings) (name : List ℕ)
    → IsOneString uapi t name
    → (t.header.magic == uapi.strings_magic && t.header.length == length (ffs_strings_bytes t))
      ≡ true
accepted uapi t name one = rw (
  length-ffs_strings_bytes t,
  one.magic,
  ==-self uapi.strings_magic,
  one.length,
  ==-self (4 * 4 + 2 + length t.str1),
)

-- The strings of a handler, whatever the name: written to the control file and read as the format is
-- documented, they are one string in one language, the name, with nothing left over. The magic number,
-- the length and the counts must be those of one string with a zero behind it, and the name have none.
pub written_strings :
    (uapi : Uapi) (t : FfsStrings) (name : List ℕ)
    → IsOneString uapi t name
    → read_strings uapi (ffs_strings_bytes t) ≡ some ((t.code, name ∷ []) ∷ [])
unfolding read_strings ffs_strings_bytes le32
written_strings uapi t name one = rw (read_le32-le32 t.header.magic _ one.magic_fits) (
    rw (read_le32-le32 t.header.length _ one.length_fits) (
      rw (read_le32-le32 t.header.str_count _ (omega (arith, one.str_count))) (
        rw (read_le32-le32 t.header.lang_count _ (omega (arith, one.lang_count))) (
          rw (one.str_count, one.lang_count)
            (rw (languages-one t name one.code_fits one.no_zero one.str1)
              (rw (accepted uapi t name one)))))))
