-- ===== src/Multibulk/Line.antt =====
-- The lines of the protocol that parseInputBuffNum of src/proto/multibulk.c reads.
use redis_pool.Base.{
  ℕ, suc, ◌+◌, ◌%◌, ◌^◌, ◌<◌, ◌≡◌, refl, ap, ◌∙◌, Bool, true, not, ◌&&◌, some, List, [], ◌∷◌, ◌++◌,
  arith, ◌==◌, length, drop, length-append, take-append, drop-append,
}
use redis_pool.Base.Int.{ℤ}
use redis_pool.Types.Memory.{drop-more}
use redis_pool.Types.Number.{parse_int}
use redis_pool.Types.Number.Laws.{integer_of, parse_int-integer_of}
use redis_pool.Types.Buffer.{sub64}
use redis_pool.Client.{Client, go, nl}
use redis_pool.Client.Steps.{byte_at-drop}
use redis_pool.Multibulk.{Env, found, find_cr, parse_input_buff_num}

-- A text without the bytes that end a line or a string.
unfoldable pub is_plain : List ℕ → Bool
is_plain [] = true
is_plain (x ∷ xs) = not (x == b'\r') && (not (x == 0) && is_plain xs)

pub find_cr-plain :
    (xs rest : List ℕ) → is_plain xs ≡ true → find_cr (xs ++ b'\r' ∷ rest) ≡ found (length xs)
unfolding find_cr is_plain
find_cr-plain [] rest h = refl
find_cr-plain (x ∷ xs) rest h = ground (arith, find_cr-plain xs rest)

-- The bytes of `cmd` from the place of the next read on.
abbrev pub unread : Client → List ℕ
unread c = drop c.cmd.rpos c.cmd.buf

abbrev pub advanced : Client → ℕ → Client
advanced c n = record c { cmd = record c.cmd { rpos = c.cmd.rpos + n } }

pub unread-advanced :
    (c : Client) (xs rest : List ℕ) → unread c ≡ xs ++ rest → unread (advanced c (length xs)) ≡ rest
unread-advanced c xs rest e =
    drop-more (c.cmd.rpos + length xs) c.cmd.rpos (length xs) c.cmd.buf refl
    ∙ ap (drop (length xs)) e
    ∙ drop-append xs rest

module _ (env : Env) (c : Client) (first : ℕ) (ds rest : List ℕ) (n : ℤ)
    (here : unread c ≡ (first ∷ ds) ++ (nl ++ rest)) (plain : is_plain (first ∷ ds) ≡ true)
    (number : integer_of ds ≡ some n) (small : c.cmd.rpos + length ds + 3 < 2 ^ 64) where
  cr_here : find_cr (unread c) ≡ found (suc (length ds))
  cr_here = ap find_cr here ∙ find_cr-plain (first ∷ ds) (b'\n' ∷ rest) plain

  after_cr : drop (c.cmd.rpos + suc (length ds) + 1) c.cmd.buf ≡ b'\n' ∷ rest
  after_cr =
      drop-more (c.cmd.rpos + suc (length ds) + 1) (c.cmd.rpos + suc (length ds)) 1 c.cmd.buf refl
      ∙ ap (drop 1) (unread-advanced c (first ∷ ds) (nl ++ rest) here)

  number_here : parse_int (drop (c.cmd.rpos + 1) c.cmd.buf) (length ds) ≡ some n
  number_here =
      ap (λ p. parse_int p (length ds)) (unread-advanced c (first ∷ []) (ds ++ (nl ++ rest)) here)
      ∙ parse_int-integer_of (ds ++ (nl ++ rest)) (length ds)
          (omega (arith, length-append ds (nl ++ rest)))
      ∙ ap integer_of (take-append ds (nl ++ rest))
      ∙ number

  -- parseInputBuffNum gives the number of a complete line and the length of its text, and goes to
  -- the next line.
  pub parse_input_buff_num-line :
      parse_input_buff_num env c ≡ go (n, length ds) (advanced c (length ds + 3))
  unfolding parse_input_buff_num
  parse_input_buff_num-line =
      let one : sub64 (suc (length ds)) 1 ≡ length ds = omega arith in
      let place : (c.cmd.rpos + suc (length ds) + 2) % 2 ^ 64 ≡ c.cmd.rpos + (length ds + 3) =
        omega arith in
      rw
        (
          cr_here,
          byte_at-drop c (c.cmd.rpos + suc (length ds) + 1) b'\n' rest after_cr,
          one,
          number_here,
          place,
        )
        refl
