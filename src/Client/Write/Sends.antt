-- ===== src/Client/Write/Sends.antt =====
-- What baseWrite of src/net/client.c sends, and what is left to send.
use Prim.Native.Nat.{min}
use redis_pool.Base.{
  ℕ, zero, suc, ◌+◌, ◌-◌, ◌%◌, ◌^◌, ◌≤◌, ◌<◌, ◌≡◌, inl, inr, refl, ap, ◌∙◌, sym, Bool, true, false,
  List, [], ◌∷◌, ◌++◌, arith, ltb, leb, ◌==◌, if◌then◌else◌, length, take, drop, append_assoc,
  Bool-cases, subst,
}
use native.Mathlib.Decide.{dec_lt}
use redis_pool.Types.Memory.{Realloc, drop-more}
use redis_pool.Types.Buffer.{Buffer, per_iobuf_size}
use redis_pool.Types.Buffer.Content.{IsBuffer}
use redis_pool.Types.Array.{Status, s_ok, held, BufferArray}
use redis_pool.Client.Write.{
  Send, again, error, sent, WriteRun, wrote, unanswered, is_sent, write_len, length_bits, taken,
  with_buffer, cleared, is_over, next_buffer, after_send, go_on, write_loop, base_write,
  per_min_size,
}
use redis_pool.Client.Write.Pending.{
  unsent, slot_text, pending_from, pending, IsSendable, sendable, IsQueue, pending_from-same,
  pending-cons, take-split,
}

-- The run ends and has sent a first part of the bytes, and the rest is what it leaves to send; or
-- there are fewer answers than buffers.
pub data Conserves (answers : List Send) (out : List ℕ) (a : BufferArray) : WriteRun → Type 0 where
  kept :
      {s : Status} {a' : BufferArray} {out' : List ℕ}
      → out' ++ pending a' ≡ out ++ pending a
      → Conserves answers out a (wrote s a' out')
  too_few : length answers < a.wpos - a.rpos → Conserves answers out a unanswered

-- The tests of baseWrite at a buffer with bytes to send.
module _ (a : BufferArray) (queue : IsQueue a) (b : Buffer) (slot : a.buff a.rpos ≡ held b)
    (v : IsBuffer b) (more : b.rpos < b.wpos) (once : b.wpos ≤ per_iobuf_size + b.rpos)
    (left : a.rpos < a.wpos) where
  length_bits-sendable : length_bits b ≡ b.wpos - b.rpos
  length_bits-sendable = omega (arith, v.size, v.write_le)

  write_len-sendable : write_len b ≡ b.wpos - b.rpos
  write_len-sendable = omega (arith, length_bits-sendable)

  is_sent-sendable : is_sent b ≡ false
  is_sent-sendable = ground (arith, length_bits-sendable, v.used_ge)

  next_buffer-sendable : (out : List ℕ) (f : Buffer → WriteRun) → next_buffer a out f ≡ f b
  next_buffer-sendable out f =
      let open_queue : is_over a ≡ false = ground (arith, queue.counted) in
      let inside : ltb a.rpos a.size ≡ true = ground (arith, queue.inside) in
      let block : leb (b.rpos + write_len b) (length b.buf) ≡ true =
        ground (arith, write_len-sendable, v.block, v.write_le) in
      rw (open_queue, inside, slot, is_sent-sendable, block) refl

  -- All bytes of the buffer were taken.
  abbrev next_queue : BufferArray
  next_queue = record (with_buffer a (cleared b)) { rpos = a.rpos + 1 }

  later : (j : ℕ) → a.rpos + 1 ≤ j → next_queue.buff j ≡ a.buff j
  later j h = ground arith

  pending-next_queue : unsent b ++ pending next_queue ≡ pending a
  unfolding pending
  pending-next_queue =
      ap (λ t. unsent b ++ t)
        (pending_from-same (a.wpos - (a.rpos + 1)) (a.rpos + 1) next_queue.buff a.buff later)
      ∙ ap (λ s. slot_text s ++ pending_from (a.wpos - (a.rpos + 1)) (a.rpos + 1) a.buff) (sym slot)
      ∙ sym (pending-cons a left)

  next_queue-IsQueue : IsQueue next_queue
  next_queue-IsQueue = record {
    inside = queue.inside;
    counted = queue.counted;
    buffers = λ j h k. subst IsSendable (sym (later j h)) (queue.buffers j (omega (arith, h)) k);
  }

  -- The first `n` bytes of the buffer were taken.
  abbrev rest_queue : ℕ → BufferArray
  rest_queue n = with_buffer a (record b { rpos = (b.rpos + n) % 2 ^ 64 })

  abbrev rest_buffer : ℕ → Buffer
  rest_buffer n = record b { rpos = (b.rpos + n) % 2 ^ 64 }

  unsent-rest_buffer :
      (n : ℕ) → n < b.wpos - b.rpos → taken b n ++ unsent (rest_buffer n) ≡ unsent b
  unsent-rest_buffer n h =
      let place : (b.rpos + n) % 2 ^ 64 ≡ b.rpos + n = omega (arith, h, v.write_le, v.size) in
      rw (place, drop-more (b.rpos + n) b.rpos n b.buf refl)
        (take-split n (b.wpos - (b.rpos + n)) (b.wpos - b.rpos) (drop b.rpos b.buf)
          (omega (arith, h)))

  pending-rest_queue :
      (n : ℕ) → n < b.wpos - b.rpos → taken b n ++ pending (rest_queue n) ≡ pending a
  pending-rest_queue n h =
      let q = rest_queue n in
      let others = pending_from (a.wpos - (a.rpos + 1)) (a.rpos + 1) in
      let same : (j : ℕ) → a.rpos + 1 ≤ j → q.buff j ≡ a.buff j = λ j k. ground arith in
      let here : q.buff a.rpos ≡ held (rest_buffer n) = ground arith in
      ap (λ t. taken b n ++ t)
        (pending-cons q left
          ∙ ap (λ t. slot_text (q.buff a.rpos) ++ t)
              (pending_from-same (a.wpos - (a.rpos + 1)) (a.rpos + 1) q.buff a.buff same)
          ∙ ap (λ s. slot_text s ++ others a.buff) here)
      ∙ sym (append_assoc (taken b n) (unsent (rest_buffer n)) (others a.buff))
      ∙ ap (λ t. t ++ others a.buff) (unsent-rest_buffer n h)
      ∙ ap (λ s. slot_text s ++ others a.buff) (sym slot)
      ∙ sym (pending-cons a left)

-- The cases of a send that took `n` bytes.
module _ (r : Realloc) (a : BufferArray) (queue : IsQueue a) (b : Buffer)
    (slot : a.buff a.rpos ≡ held b) (v : IsBuffer b) (more : b.rpos < b.wpos)
    (once : b.wpos ≤ per_iobuf_size + b.rpos) (left : a.rpos < a.wpos) (x : Send)
    (answers : List Send) (out : List ℕ) (next : BufferArray → WriteRun) where
  abbrev after : BufferArray
  after = next_queue a queue b slot v more once left

  Conserves-next :
      (k : ℕ) (w : WriteRun)
      → k ≡ b.wpos - b.rpos
      → Conserves answers (out ++ taken b k) after w
      → Conserves (x ∷ answers) out a w
  Conserves-next k w all (kept e) = kept (
      e
      ∙ append_assoc out (taken b k) (pending after)
      ∙ ap (λ t. out ++ (take t (drop b.rpos b.buf) ++ pending after)) all
      ∙ ap (λ t. out ++ t) (pending-next_queue a queue b slot v more once left))
  Conserves-next k w all (too_few h) = too_few (omega (arith, h, left))

  after_send-Conserves :
      (k : ℕ)
      → (k ≡ b.wpos - b.rpos → Conserves answers (out ++ taken b k) after (next after))
      → k ≤ b.wpos - b.rpos
      → Conserves (x ∷ answers) out a (after_send r k out a next b)
  after_send-Conserves zero rest h = kept refl
  after_send-Conserves (suc n) rest h =
      let size = write_len-sendable a queue b slot v more once left in
      let nonzero : (suc n == 0) ≡ false = ground arith in
      elim (Bool-cases (ltb (suc n) (write_len b))) [
        | inl e ↦
            let part : suc n < b.wpos - b.rpos = ground (arith, e, size) in
            rw (nonzero, e)
              (kept (
                append_assoc out (taken b (suc n))
                  (pending (rest_queue a queue b slot v more once left (suc n)))
                ∙ ap (λ t. out ++ t)
                    (pending-rest_queue a queue b slot v more once left (suc n) part)))
        | inr e ↦
            let all : suc n ≡ b.wpos - b.rpos = ground (arith, e, size, h) in
            let one : leb (suc n) per_iobuf_size ≡ true = ground (arith, all, once) in
            rw (nonzero, e, one) (Conserves-next (suc n) (next after) all (rest all))
      ]

at_end :
    (answers : List Send) (a : BufferArray) (out : List ℕ) (f : Buffer → WriteRun)
    → a.wpos ≤ a.rpos
    → Conserves answers out a (next_buffer a out f)
at_end answers a out f h = let over : is_over a ≡ true = ground arith in rw over (kept refl)

-- What a turn does where there is something to send.
at_buffer :
    (answers : List Send) (a : BufferArray) (out : List ℕ) (f : Buffer → WriteRun)
    → IsQueue a
    → ((b : Buffer)
        → a.buff a.rpos ≡ held b
        → IsBuffer b
        → b.rpos < b.wpos
        → b.wpos ≤ per_iobuf_size + b.rpos
        → a.rpos < a.wpos
        → Conserves answers out a (f b))
    → Conserves answers out a (next_buffer a out f)
at_buffer answers a out f queue h = elim (dec_lt a.rpos a.wpos) [
  | no done ↦ at_end answers a out f (omega arith)
  | yes left ↦ elim (queue.buffers a.rpos (omega arith) left) [
    | sendable b slot v more once ↦
        rw (next_buffer-sendable a queue b slot v more once left out f) (h b slot v more once left)
  ]
]

if-Conserves :
    (c : Bool) (answers : List Send) (a : BufferArray) (out : List ℕ) (w : WriteRun)
    → Conserves answers out a w
    → Conserves answers out a (if c then w else wrote s_ok a out)
if-Conserves true answers a out w h = h
if-Conserves false answers a out w h = kept refl

write_loop-Conserves :
    (r : Realloc) (answers : List Send) (total : ℕ) (out : List ℕ) (a : BufferArray)
    → IsQueue a
    → Conserves answers out a (write_loop r answers total out a)
unfolding write_loop
write_loop-Conserves r [] total out a queue =
    at_buffer [] a out _ queue (λ b slot v more once left. too_few (omega (arith, left)))
write_loop-Conserves r (again ∷ answers) total out a queue =
    at_buffer (again ∷ answers) a out _ queue (λ b slot v more once left. kept refl)
write_loop-Conserves r (error ∷ answers) total out a queue =
    at_buffer (error ∷ answers) a out _ queue (λ b slot v more once left. kept refl)
write_loop-Conserves r (sent k ∷ answers) total out a queue =
    at_buffer (sent k ∷ answers) a out _ queue (λ b slot v more once left.
      let n = min k (write_len b) in
      let out' = out ++ taken b n in
      let rest = next_queue a queue b slot v more once left in
      after_send-Conserves r a queue b slot v more once left (sent k) answers out
        (go_on (total + n) out' (λ q. write_loop r answers (total + n) out' q)) n
        (λ all. if-Conserves (leb (total + n + per_min_size) per_iobuf_size) answers rest out' _ (
          write_loop-Conserves r answers (total + n) out' rest
            (next_queue-IsQueue a queue b slot v more once left)))
        (omega (arith, write_len-sendable a queue b slot v more once left)))

-- For a queue of well-formed buffers with one to 16384 bytes each to send, whatever send answers:
-- baseWrite ends, and the bytes that send took followed by those that the queue is left with are
-- exactly the bytes that the queue had; or the answers are fewer than the buffers, and all are used.
pub base_write-Conserves :
    (r : Realloc) (answers : List Send) (middle : BufferArray)
    → IsQueue middle
    → Conserves answers [] middle (base_write r answers middle)
unfolding base_write
base_write-Conserves r answers middle queue = write_loop-Conserves r answers 0 [] middle queue
