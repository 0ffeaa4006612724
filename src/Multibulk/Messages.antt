-- ===== src/Multibulk/Messages.antt =====
-- The replies to input that is not of the protocol, of src/proto/multibulk.c.
use redis_pool.Base.{ℕ, List, [], ◌∷◌}

-- -the protocol error, must be start with *
abbrev pub start_star : List ℕ
start_star =
    b'-' ∷ b't' ∷ b'h' ∷ b'e' ∷ b' ' ∷ b'p' ∷ b'r' ∷ b'o' ∷ b't' ∷ b'o' ∷ b'c' ∷ b'o' ∷ b'l' ∷ b' '
    ∷ b'e' ∷ b'r' ∷ b'r' ∷ b'o' ∷ b'r' ∷ b',' ∷ b' ' ∷ b'm' ∷ b'u' ∷ b's' ∷ b't' ∷ b' ' ∷ b'b'
    ∷ b'e' ∷ b' ' ∷ b's' ∷ b't' ∷ b'a' ∷ b'r' ∷ b't' ∷ b' ' ∷ b'w' ∷ b'i' ∷ b't' ∷ b'h' ∷ b' '
    ∷ b'*' ∷ []

-- -the protocol error, body must be start with $
abbrev pub start_dollar : List ℕ
start_dollar =
    b'-' ∷ b't' ∷ b'h' ∷ b'e' ∷ b' ' ∷ b'p' ∷ b'r' ∷ b'o' ∷ b't' ∷ b'o' ∷ b'c' ∷ b'o' ∷ b'l' ∷ b' '
    ∷ b'e' ∷ b'r' ∷ b'r' ∷ b'o' ∷ b'r' ∷ b',' ∷ b' ' ∷ b'b' ∷ b'o' ∷ b'd' ∷ b'y' ∷ b' ' ∷ b'm'
    ∷ b'u' ∷ b's' ∷ b't' ∷ b' ' ∷ b'b' ∷ b'e' ∷ b' ' ∷ b's' ∷ b't' ∷ b'a' ∷ b'r' ∷ b't' ∷ b' '
    ∷ b'w' ∷ b'i' ∷ b't' ∷ b'h' ∷ b' ' ∷ b'$' ∷ []

-- -the protocol error, invalid bulk len
abbrev pub invalid_bulk_len : List ℕ
invalid_bulk_len =
    b'-' ∷ b't' ∷ b'h' ∷ b'e' ∷ b' ' ∷ b'p' ∷ b'r' ∷ b'o' ∷ b't' ∷ b'o' ∷ b'c' ∷ b'o' ∷ b'l' ∷ b' '
    ∷ b'e' ∷ b'r' ∷ b'r' ∷ b'o' ∷ b'r' ∷ b',' ∷ b' ' ∷ b'i' ∷ b'n' ∷ b'v' ∷ b'a' ∷ b'l' ∷ b'i'
    ∷ b'd' ∷ b' ' ∷ b'b' ∷ b'u' ∷ b'l' ∷ b'k' ∷ b' ' ∷ b'l' ∷ b'e' ∷ b'n' ∷ []

-- -the protocol error, must be end with \r\n
abbrev pub end_rn : List ℕ
end_rn =
    b'-' ∷ b't' ∷ b'h' ∷ b'e' ∷ b' ' ∷ b'p' ∷ b'r' ∷ b'o' ∷ b't' ∷ b'o' ∷ b'c' ∷ b'o' ∷ b'l' ∷ b' '
    ∷ b'e' ∷ b'r' ∷ b'r' ∷ b'o' ∷ b'r' ∷ b',' ∷ b' ' ∷ b'm' ∷ b'u' ∷ b's' ∷ b't' ∷ b' ' ∷ b'b'
    ∷ b'e' ∷ b' ' ∷ b'e' ∷ b'n' ∷ b'd' ∷ b' ' ∷ b'w' ∷ b'i' ∷ b't' ∷ b'h' ∷ b' ' ∷ b'\\' ∷ b'r'
    ∷ b'\\' ∷ b'n' ∷ []

-- -too big mbulk count string
abbrev pub too_big : List ℕ
too_big =
    b'-' ∷ b't' ∷ b'o' ∷ b'o' ∷ b' ' ∷ b'b' ∷ b'i' ∷ b'g' ∷ b' ' ∷ b'm' ∷ b'b' ∷ b'u' ∷ b'l' ∷ b'k'
    ∷ b' ' ∷ b'c' ∷ b'o' ∷ b'u' ∷ b'n' ∷ b't' ∷ b' ' ∷ b's' ∷ b't' ∷ b'r' ∷ b'i' ∷ b'n' ∷ b'g' ∷ []

-- -the protocol error, after * or $ must be numeric
abbrev pub must_be_numeric : List ℕ
must_be_numeric =
    b'-' ∷ b't' ∷ b'h' ∷ b'e' ∷ b' ' ∷ b'p' ∷ b'r' ∷ b'o' ∷ b't' ∷ b'o' ∷ b'c' ∷ b'o' ∷ b'l' ∷ b' '
    ∷ b'e' ∷ b'r' ∷ b'r' ∷ b'o' ∷ b'r' ∷ b',' ∷ b' ' ∷ b'a' ∷ b'f' ∷ b't' ∷ b'e' ∷ b'r' ∷ b' '
    ∷ b'*' ∷ b' ' ∷ b'o' ∷ b'r' ∷ b' ' ∷ b'$' ∷ b' ' ∷ b'm' ∷ b'u' ∷ b's' ∷ b't' ∷ b' ' ∷ b'b'
    ∷ b'e' ∷ b' ' ∷ b'n' ∷ b'u' ∷ b'm' ∷ b'e' ∷ b'r' ∷ b'i' ∷ b'c' ∷ []

-- -the protocol error, after : must be numeric
abbrev pub colon_numeric : List ℕ
colon_numeric =
    b'-' ∷ b't' ∷ b'h' ∷ b'e' ∷ b' ' ∷ b'p' ∷ b'r' ∷ b'o' ∷ b't' ∷ b'o' ∷ b'c' ∷ b'o' ∷ b'l' ∷ b' '
    ∷ b'e' ∷ b'r' ∷ b'r' ∷ b'o' ∷ b'r' ∷ b',' ∷ b' ' ∷ b'a' ∷ b'f' ∷ b't' ∷ b'e' ∷ b'r' ∷ b' '
    ∷ b':' ∷ b' ' ∷ b'm' ∷ b'u' ∷ b's' ∷ b't' ∷ b' ' ∷ b'b' ∷ b'e' ∷ b' ' ∷ b'n' ∷ b'u' ∷ b'm'
    ∷ b'e' ∷ b'r' ∷ b'i' ∷ b'c' ∷ []

-- -the protocol error, unexpected line
abbrev pub unexpected_line : List ℕ
unexpected_line =
    b'-' ∷ b't' ∷ b'h' ∷ b'e' ∷ b' ' ∷ b'p' ∷ b'r' ∷ b'o' ∷ b't' ∷ b'o' ∷ b'c' ∷ b'o' ∷ b'l' ∷ b' '
    ∷ b'e' ∷ b'r' ∷ b'r' ∷ b'o' ∷ b'r' ∷ b',' ∷ b' ' ∷ b'u' ∷ b'n' ∷ b'e' ∷ b'x' ∷ b'p' ∷ b'e'
    ∷ b'c' ∷ b't' ∷ b'e' ∷ b'd' ∷ b' ' ∷ b'l' ∷ b'i' ∷ b'n' ∷ b'e' ∷ []
