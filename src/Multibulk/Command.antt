-- ===== src/Multibulk/Command.antt =====
-- processCmds of src/proto/multibulk.c on the arguments of a command.
use redis_pool.Base.{
  ℕ, suc, ◌+◌, ◌%◌, ◌^◌, ◌≤◌, ◌<◌, ◌≡◌, refl, sym, ap, ◌∙◌, true, some, List, [], ◌∷◌, ◌++◌, arith,
  ltb, ◌==◌, length, length-append, append_assoc, append_nil, subst,
}
use redis_pool.Base.Int.{pos}
use redis_pool.Types.Number.Laws.{integer_of}
use redis_pool.Types.Buffer.{sub64}
use redis_pool.Types.Array.Append.{capacity, Added}
use redis_pool.Client.{Client, go, nl}
use redis_pool.Client.Steps.{>>=-go}
use redis_pool.Client.Reply.{AlwaysGives, Added-twice}
use redis_pool.Multibulk.{Env, process_bulk, cmds_loop}
use redis_pool.Multibulk.Line.{is_plain, advanced}
use redis_pool.Multibulk.Name.{IsCommand}
use redis_pool.Multibulk.Copy.{At, At-copied, bulk_header-copies, bulk_body-copies}

-- An argument with the digits of its length.
pub record Bulk : Type 0 where
  pub digits : List ℕ
  pub arg : List ℕ

-- An argument that processCmds accepts: it is not empty, and parseInt reads its length, which holds only
-- for a length that is written in the digits 1 to 9, without a 0; no argument of 10 or of 100 bytes is
-- one.
pub record IsBulk (b : Bulk) : Type 0 where
  pub plain : is_plain b.digits ≡ true
  pub number : integer_of b.digits ≡ some (pos (length b.arg))
  pub nonempty : 0 < length b.arg

abbrev pub header_text : Bulk → List ℕ
header_text b = (b'$' ∷ b.digits) ++ nl

unfoldable pub bulk_text : Bulk → List ℕ
bulk_text b = header_text b ++ (b.arg ++ nl)

-- A turn of the loop has added `text`.
pub record Turn (c c' : Client) (text rest tail : List ℕ) : Type 0 where
  pub at : At c' text rest tail
  pub added : Added c.cmd_num text c.cmds c'.cmds
  pub same_num : c'.cmd_num ≡ c.cmd_num
  pub same_stray : c'.stray ≡ c.stray
  pub no_bulk : c'.bulk_len ≡ 0

module _ (env : Env) (gives : AlwaysGives env.os) (b : Bulk) (valid : IsBulk b) (c : Client)
    (text rest tail : List ℕ) (start : c.bulk_len ≡ 0) (here : At c text (bulk_text b ++ rest) tail)
    (command : (c.argc == 0) ≡ true → IsCommand env b.arg) (few : c.argc + 1 < 2 ^ 32)
    (fits : length text + length (bulk_text b) ≤ capacity) where
  pub process_bulk-copies :
      (c' : Client) × (process_bulk env true c ≡ go tt c')
      × Turn c c' (text ++ bulk_text b) rest tail
      × (c'.argc ≡ c.argc + 1)
  unfolding process_bulk bulk_text
  process_bulk-copies =
      let size = length-append (header_text b) (b.arg ++ nl) in
      let small : length b.arg < 2 ^ 64 = omega (arith, size, length-append b.arg nl) in
      let rest1 = b.arg ++ (nl ++ rest) in
      let nested : bulk_text b ++ rest ≡ header_text b ++ rest1 =
        append_assoc (header_text b) (b.arg ++ nl) rest
        ∙ ap (λ t. header_text b ++ t) (append_assoc b.arg nl rest) in
      let line : (header_text b) ++ rest1 ≡ (b'$' ∷ b.digits) ++ (nl ++ rest1) =
        append_assoc (b'$' ∷ b.digits) nl rest1 in
      let here1 = subst (λ t. At c text t tail) nested here in
      let (a, e, added) =
        bulk_header-copies env gives c text b.digits rest1 tail (length b.arg)
          (subst (λ t. At c text t tail) line here1) valid.plain valid.number valid.nonempty small
          (omega (arith, size)) in
      let text1 = text ++ header_text b in
      let at1 =
        At-copied c a (length b.digits + 3) text text1 (header_text b) rest1 tail here1 added
          (omega (arith, length-append b.digits nl)) in
      let d : Client = record (advanced c (length b.digits + 3)) {
        bulk_len = length b.arg;
        cmds = a;
        calls = c.calls + 1 + 1;
      } in
      let (a', blk, e', added') =
        bulk_body-copies env gives d text1 b.arg rest tail at1 refl command
          (omega (arith, size, length-append text (header_text b))) in
      let text2 = text1 ++ (b.arg ++ nl) in
      let at2 =
        At-copied d a' (length b.arg + 2) text1 text2 (b.arg ++ nl) rest tail
          (subst (λ t. At d text1 t tail) (sym (append_assoc b.arg nl rest)) at1) added'
          (omega (arith, length-append b.arg nl)) in
      let whole : text2 ≡ text ++ bulk_text b = append_assoc text (header_text b) (b.arg ++ nl) in
      let d2 : Client = record (advanced d (length b.arg + 2)) {
        is_block = blk;
        cmds = a';
        calls = d.calls + 1 + 1;
        bulk_len = 0;
        multi_bulk_len = sub64 c.multi_bulk_len 1;
        argc = (c.argc + 1) % 2 ^ 32;
      } in
      let zero_len : (c.bulk_len == 0) ≡ true = ground (arith, start) in
      let some_len : ltb 0 (length b.arg) ≡ true = ground (arith, valid.nonempty) in
      (
        d2,
        rw (zero_len, e, some_len, e') refl,
        record {
          at = subst (λ t. At d2 t rest tail) whole at2;
          added =
              subst (λ t. Added c.cmd_num t c.cmds a') whole
                (Added-twice c.cmd_num text1 text2 c.cmds a a' added added');
          same_num = refl;
          same_stray = refl;
          no_bulk = refl;
        },
        omega (arith, few),
      )

unfoldable pub bulks_text : List Bulk → List ℕ
bulks_text [] = []
bulks_text (b ∷ bs) = bulk_text b ++ bulks_text bs

pub data AreBulks : List Bulk → Type 0 where
  no_bulks : AreBulks []
  and_bulk : {b : Bulk} {bs : List Bulk} → IsBulk b → AreBulks bs → AreBulks (b ∷ bs)

pub le-bulks_text : (bs : List Bulk) → length bs ≤ length (bulks_text bs)
unfolding bulks_text bulk_text
le-bulks_text [] = omega arith
le-bulks_text (b ∷ bs) = omega (
  arith,
  le-bulks_text bs,
  length-append (bulk_text b) (bulks_text bs),
  length-append (header_text b) (b.arg ++ nl),
)

Turn-none :
    (c : Client) (text text' rest tail : List ℕ)
    → c.bulk_len ≡ 0
    → text ≡ text'
    → At c text rest tail
    → Turn c c text' rest tail
Turn-none c text text' rest tail start same here =
    let here' = subst (λ t. At c t rest tail) same here in
    record {
      at = here';
      added = record {
        filling = here'.filling;
        max_kept = refl;
        size_kept = refl;
        others = λ j h. refl;
        in_bounds = refl;
      };
      same_num = refl;
      same_stray = refl;
      no_bulk = start;
    }

Turn-twice :
    (c d e : Client) (text text' rest rest' tail : List ℕ)
    → Turn c d text rest tail
    → Turn d e text' rest' tail
    → Turn c e text' rest' tail
Turn-twice c d e text text' rest rest' tail p q = record {
  at = q.at;
  added =
      Added-twice c.cmd_num text text' c.cmds d.cmds e.cmds p.added
        (subst (λ k. Added k text' d.cmds e.cmds) p.same_num q.added);
  same_num = q.same_num ∙ p.same_num;
  same_stray = q.same_stray ∙ p.same_stray;
  no_bulk = q.no_bulk;
}

module _ (env : Env) (gives : AlwaysGives env.os) where
  -- Behind the first argument.
  cmds_loop-later :
      (bs : List Bulk) (c : Client) (text tail : List ℕ)
      → AreBulks bs
      → c.bulk_len ≡ 0
      → At c text (bulks_text bs) tail
      → 0 < c.argc
      → c.argc + length bs < 2 ^ 32
      → length text + length (bulks_text bs) ≤ capacity
      → (c' : Client) × (cmds_loop env true (length bs) c ≡ go tt c')
        × Turn c c' (text ++ bulks_text bs) [] tail
  unfolding cmds_loop bulks_text
  cmds_loop-later [] c text tail no_bulks start here later few fits =
      (c, refl, Turn-none c text (text ++ []) [] tail start (sym (append_nil text)) here)
  cmds_loop-later (b ∷ bs) c text tail (and_bulk v vs) start here later few fits =
      let size = length-append (bulk_text b) (bulks_text bs) in
      let not_first : (c.argc == 0) ≡ true → IsCommand env b.arg =
        λ e. absurd (ground (arith, later)) in
      let (d, e, turn, argc) =
        process_bulk-copies env gives b v c text (bulks_text bs) tail start here not_first
          (omega (arith, few)) (omega (arith, size)) in
      let (c', e', turns) =
        cmds_loop-later bs d (text ++ bulk_text b) tail vs turn.no_bulk turn.at
          (omega (arith, argc)) (omega (arith, argc))
          (omega (arith, size, length-append text (bulk_text b))) in
      let whole = append_assoc text (bulk_text b) (bulks_text bs) in
      (
        c',
        >>=-go (process_bulk env true) (λ _. cmds_loop env true (length bs)) e ∙ e',
        subst (λ t. Turn c c' t [] tail) whole
            (Turn-twice c d c' (text ++ bulk_text b) ((text ++ bulk_text b) ++ bulks_text bs)
              (bulks_text bs) [] tail turn turns),
      )

  -- The loop of processCmds copies all arguments of a command.
  pub cmds_loop-copies :
      (b : Bulk) (bs : List Bulk) (c : Client) (text tail : List ℕ)
      → AreBulks (b ∷ bs)
      → IsCommand env b.arg
      → c.bulk_len ≡ 0
      → At c text (bulks_text (b ∷ bs)) tail
      → c.argc ≡ 0
      → length text + length (bulks_text (b ∷ bs)) ≤ capacity
      → (c' : Client) × (cmds_loop env true (suc (length bs)) c ≡ go tt c')
        × Turn c c' (text ++ bulks_text (b ∷ bs)) [] tail
  unfolding cmds_loop bulks_text
  cmds_loop-copies b bs c text tail (and_bulk v vs) command start here first fits =
      let size = length-append (bulk_text b) (bulks_text bs) in
      let (d, e, turn, argc) =
        process_bulk-copies env gives b v c text (bulks_text bs) tail start here (λ _. command)
          (omega (arith, first)) (omega (arith, size)) in
      let (c', e', turns) =
        cmds_loop-later bs d (text ++ bulk_text b) tail vs turn.no_bulk turn.at
          (omega (arith, argc)) (omega (arith, argc, first, size, le-bulks_text bs))
          (omega (arith, size, length-append text (bulk_text b))) in
      let whole = append_assoc text (bulk_text b) (bulks_text bs) in
      (
        c',
        >>=-go (process_bulk env true) (λ _. cmds_loop env true (length bs)) e ∙ e',
        subst (λ t. Turn c c' t [] tail) whole
            (Turn-twice c d c' (text ++ bulk_text b) ((text ++ bulk_text b) ++ bulks_text bs)
              (bulks_text bs) [] tail turn turns),
      )
