-- ===== src/Multibulk/Name.antt =====
-- The name of a command, which processCmds of src/proto/multibulk.c looks up.
use redis_pool.Base.{
  ℕ, ◌+◌, ◌≤◌, ◌<◌, ◌≡◌, refl, Bool, true, false, not, ◌&&◌, Option, none, some, List, [], ◌∷◌,
  arith, ltb, leb, length,
}
use redis_pool.Map.Hash.{Hash, is_exist_key}
use redis_pool.Client.{Client, go, when}
use redis_pool.Multibulk.{Env, check_command, c_string, is_listed, set_block}

-- The name of a command can be looked up in a table.
pub data Answered : Option Hash → (name : List ℕ) → Type 0 where
  no_table : {name : List ℕ} → Answered none name
  searched :
      {table : Hash} {name : List ℕ} (b : Bool)
      → is_exist_key (table.max + 1) table (record { h = 0; str = some name }) ≡ some b
      → Answered (some table) name

length-c_string : (xs : List ℕ) → length (c_string xs) ≤ length xs
unfolding c_string
length-c_string [] = omega arith
length-c_string (x ∷ xs) = ground (arith, length-c_string xs)

is_listed-Answered :
    (t : Option Hash) (name : List ℕ)
    → length name < 60
    → Answered t name
    → (b : Bool) × ((c : Client) → is_listed t name c ≡ go b c)
is_listed-Answered none name h no_table = (false, λ c. refl)
is_listed-Answered (some table) name h (searched b e) =
    let room : leb 60 (length name) ≡ false = ground arith in (b, λ c. rw (room, e) refl)

-- The name of a command fits in tmpCmd, and its search in the tables of the pool ends.
pub record IsCommand (env : Env) (arg : List ℕ) : Type 0 where
  pub short : length arg < 60
  pub blocks : Answered env.block_cmds (c_string arg)
  pub releases : Answered env.release_cmds (c_string arg)

module _ (env : Env) (arg : List ℕ) (ok : IsCommand env arg) where
  set_block-go :
      (old : Bool) (c : Client)
      → (b : Bool) × (set_block env old (c_string arg) c ≡ go tt (record c { is_block = b }))
  set_block-go true c =
      let (b, e) =
        is_listed-Answered env.release_cmds (c_string arg)
          (omega (arith, length-c_string arg, ok.short)) ok.releases in
      (not b, rw (e c) refl)
  set_block-go false c =
      let (b, e) =
        is_listed-Answered env.block_cmds (c_string arg)
          (omega (arith, length-c_string arg, ok.short)) ok.blocks in
      (b, rw (e c) refl)

  check_command-go :
      (c : Client) → (b : Bool) × (check_command env arg c ≡ go tt (record c { is_block = b }))
  unfolding check_command
  check_command-go c =
      let (b, e) = set_block-go c.is_block c in
      let room : ltb 60 (length arg) ≡ false = ground (arith, ok.short) in
      (b, rw (check_command, room) e)

-- Only the first argument is looked at.
pub check_first :
    (env : Env) (arg : List ℕ) (c : Client) (is_first : Bool)
    → (is_first ≡ true → IsCommand env arg)
    → (b : Bool) × (when (is_first && true) (check_command env arg) c
        ≡ go tt (record c { is_block = b }))
check_first env arg c true ok = check_command-go env arg (ok refl) c
check_first env arg c false ok = (c.is_block, refl)
