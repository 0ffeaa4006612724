-- ===== src/Client/Reply.antt =====
-- addReplyBySize of src/net/client.c where the allocator gives memory.
use redis_pool.Base.{
  ℕ, ◌+◌, ◌≤◌, ◌<◌, ◌≡◌, sym, ◌∙◌, refl, true, List, ◌++◌, arith, length, length-append,
  append_assoc,
}
use redis_pool.Types.Array.{BufferArray, Alloc}
use redis_pool.Types.Array.Append.{capacity, Filling, Added, add_buffer-Filling}
use redis_pool.Client.Steps.{>>=-go}
use redis_pool.Client.{Client, go, add_part, add_reply_by_size, nl}

pub record AlwaysGives (os : ℕ → Alloc) : Type 0 where
  pub buffer_ok : (n : ℕ) → (os n).buffer_ok ≡ true
  pub block_ok : (n : ℕ) → (os n).block_ok ≡ true

pub Added-twice :
    (k : ℕ) (text text' : List ℕ) (a b c : BufferArray)
    → Added k text a b
    → Added k text' b c
    → Added k text' a c
Added-twice k text text' a b c p q = record {
  filling = q.filling;
  max_kept = q.max_kept ∙ p.max_kept;
  size_kept = q.size_kept ∙ p.size_kept;
  others = λ j h. q.others j h ∙ p.others j h;
  in_bounds = q.in_bounds ∙ p.in_bounds;
}

-- The place of a command lies in the block.
pub record HasPlace (a : BufferArray) (k : ℕ) : Type 0 where
  pub inside : k < a.size
  pub below : k < a.max

module _ (os : ℕ → Alloc) (gives : AlwaysGives os) where
  add_part-Filling :
      (c : Client) (text add : List ℕ)
      → HasPlace c.cmds c.cmd_num
      → Filling c.cmds c.cmd_num text
      → length text + length add ≤ capacity
      → (a : BufferArray) × (add_part os add c ≡ go tt (record c { cmds = a; calls = c.calls + 1 }))
        × Added c.cmd_num (text ++ add) c.cmds a
  unfolding add_part
  add_part-Filling c text add p f fits =
      let (a, e, added) =
        add_buffer-Filling (os c.calls) (gives.buffer_ok c.calls) (gives.block_ok c.calls) c.cmds
          c.cmd_num text add f p.inside p.below fits in
      (a, rw (add_part, e) refl, added)

  pub add_reply_by_size-Filling :
      (c : Client) (text add : List ℕ)
      → HasPlace c.cmds c.cmd_num
      → Filling c.cmds c.cmd_num text
      → length text + length (add ++ nl) ≤ capacity
      → (a : BufferArray) × (add_reply_by_size os add c
          ≡ go tt (record c { cmds = a; calls = c.calls + 1 + 1 }))
        × Added c.cmd_num (text ++ (add ++ nl)) c.cmds a
  unfolding add_reply_by_size
  add_reply_by_size-Filling c text add p f fits =
      let n = length-append add nl in
      let (a, e, added) = add_part-Filling c text add p f (omega (arith, n)) in
      let d : Client = record c { cmds = a; calls = c.calls + 1 } in
      let (b, e', added') =
        add_part-Filling d (text ++ add) nl
          (record {
            inside = omega (arith, added.size_kept, p.inside);
            below = omega (arith, added.max_kept, p.below);
          })
          added.filling (omega (arith, n, length-append text add)) in
      (
        b,
        >>=-go (add_part os add) (λ _. add_part os nl) e ∙ e',
        Added-twice c.cmd_num (text ++ add) (text ++ (add ++ nl)) c.cmds a b added
            (rw (sym (append_assoc text add nl)) added'),
      )
