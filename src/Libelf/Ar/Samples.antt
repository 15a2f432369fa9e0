-- ===== src/Libelf/Ar/Samples.antt =====
-- Archives for the tests.
use elftoolchain.Base.{ℕ, ◌-◌, [], ◌∷◌, ◌++◌, Bytes, length, replicate}

-- A field of `n` bytes, padded with blanks.
abbrev pub field : ℕ → Bytes → Bytes
field n s = s ++ replicate (n - length s) b' '

-- A header whose date, uid, gid and mode are blank.
abbrev pub header : Bytes → Bytes → Bytes
header name size = field 16 name ++ (field 32 [] ++ (field 10 size ++ (b'`' ∷ b'\n' ∷ [])))

abbrev pub magic : Bytes
magic = b'!' ∷ b'<' ∷ b'a' ∷ b'r' ∷ b'c' ∷ b'h' ∷ b'>' ∷ b'\n' ∷ []

-- "a" with three bytes and one of padding, "b/" with two.
abbrev pub two_members : Bytes
two_members =
    magic
    ++ (header (b'a' ∷ []) (b'3' ∷ [])
        ++ ((b'x' ∷ b'y' ∷ b'z' ∷ b'\n' ∷ [])
            ++ (header (b'b' ∷ b'/' ∷ []) (b'2' ∷ []) ++ (b'h' ∷ b'i' ∷ []))))

-- A symbol table and a string table of the SVR4 format, then a member with its name in the latter.
abbrev pub long_names : Bytes
long_names =
    magic
    ++ (header (b'/' ∷ []) (b'4' ∷ [])
        ++ ((0 ∷ 0 ∷ 0 ∷ 0 ∷ [])
            ++ (header (b'/' ∷ b'/' ∷ []) (b'6' ∷ [])
                ++ ((b'l' ∷ b'o' ∷ b'n' ∷ b'g' ∷ b'/' ∷ b'\n' ∷ [])
                    ++ header (b'/' ∷ b'0' ∷ []) (b'0' ∷ [])))))

-- A member of two bytes, which says that its name takes the first `n`.
abbrev pub bsd_member : ℕ → Bytes
bsd_member n = magic ++ (header (b'#' ∷ b'1' ∷ b'/' ∷ n ∷ []) (b'2' ∷ []) ++ (b'n' ∷ b'o' ∷ []))
