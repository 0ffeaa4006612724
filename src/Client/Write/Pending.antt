-- ===== src/Client/Write/Pending.antt =====
-- The queue of src/net/client.c's baseWrite, and the bytes that it has to send.
use redis_pool.Base.{
  ℕ, zero, suc, ◌+◌, ◌-◌, ◌≤◌, ◌<◌, ◌≡◌, refl, ap, List, [], ◌∷◌, ◌++◌, arith, take, drop,
}
use redis_pool.Types.Buffer.{Buffer, per_iobuf_size}
use redis_pool.Types.Buffer.Content.{IsBuffer}
use redis_pool.Types.Array.{Slot, null, stale, held, BufferArray}

-- The bytes of a buffer that are to be sent.
abbrev pub unsent : Buffer → List ℕ
unsent b = take (b.wpos - b.rpos) (drop b.rpos b.buf)

abbrev pub slot_text : Slot → List ℕ
slot_text null = []
slot_text stale = []
slot_text (held b) = unsent b

unfoldable pub pending_from : (left i : ℕ) → (ℕ → Slot) → List ℕ
pending_from zero i buff = []
pending_from (suc left) i buff = slot_text (buff i) ++ pending_from left (i + 1) buff

-- The bytes of all buffers that are to be sent.
unfoldable pub pending : BufferArray → List ℕ
unfolding pending_from
pending a = pending_from (a.wpos - a.rpos) a.rpos a.buff

-- A buffer with bytes to send, not more than one send takes.
pub data IsSendable (s : Slot) : Type 0 where
  sendable :
      (b : Buffer)
      → s ≡ held b
      → IsBuffer b
      → b.rpos < b.wpos
      → b.wpos ≤ per_iobuf_size + b.rpos
      → IsSendable s

pub record IsQueue (a : BufferArray) : Type 0 where
  pub inside : a.wpos ≤ a.size
  pub counted : a.wpos ≤ a.used
  pub buffers : (i : ℕ) → a.rpos ≤ i → i < a.wpos → IsSendable (a.buff i)

pub pending_from-same :
    (left i : ℕ) (f g : ℕ → Slot)
    → ((j : ℕ) → i ≤ j → f j ≡ g j)
    → pending_from left i f ≡ pending_from left i g
unfolding pending_from
pending_from-same zero i f g h = refl
pending_from-same (suc left) i f g h =
    rw (h i (omega arith), pending_from-same left (i + 1) f g (λ j k. h j (omega arith))) refl

pub pending-cons :
    (a : BufferArray)
    → a.rpos < a.wpos
    → pending a
      ≡ slot_text (a.buff a.rpos) ++ pending_from (a.wpos - (a.rpos + 1)) (a.rpos + 1) a.buff
unfolding pending pending_from
pending-cons a h = let n : a.wpos - a.rpos ≡ suc (a.wpos - (a.rpos + 1)) = omega arith in rw n refl

pub take-split : (m k n : ℕ) (xs : List ℕ) → n ≡ m + k → take m xs ++ take k (drop m xs) ≡ take n xs
take-split zero k n xs e = let same : n ≡ k = omega arith in rw same refl
take-split (suc m) k zero xs e = absurd (omega arith)
take-split (suc m) zero (suc n) [] e = refl
take-split (suc m) (suc k) (suc n) [] e = refl
take-split (suc m) k (suc n) (x ∷ xs) e = ap (◌∷◌ x) (take-split m k n xs (omega arith))
