-- ===== src/Client/Steps.antt =====
-- Actions one after the other.
use redis_pool.Base.{ℕ, ◌+◌, ◌≤◌, ◌≡◌, refl, ap, arith, List, ◌∷◌, leb, true, length, take, drop}
use redis_pool.Types.Array.{Status}
use redis_pool.Client.{
  Client, go, stop, Action, continue, ◌>>=◌, answer, on_return, byte_at, bytes_at,
}

module _ {A B : Type 0} (m : Action A) (f : A → Action B) where
  pub >>=-go : {a : A} {c d : Client} → m c ≡ go a d → (m >>= f) c ≡ f a d
  >>=-go e = ap (λ o. continue o f) e

  pub >>=-stop : {s : Status} {c d : Client} → m c ≡ stop s d → (m >>= f) c ≡ stop s d
  >>=-stop e = ap (λ o. continue o f) e

module _ {A : Type 0} (m : Action A) (handler : Status → Action A) where
  pub on_return-go : {a : A} {c d : Client} → m c ≡ go a d → on_return m handler c ≡ go a d
  on_return-go e = ap (λ o. answer o handler) e

  pub on_return-stop :
      {s : Status} {c d : Client} → m c ≡ stop s d → on_return m handler c ≡ handler s d
  on_return-stop e = ap (λ o. answer o handler) e

pub byte_at-drop :
    (c : Client) (offset x : ℕ) (rest : List ℕ)
    → drop offset c.cmd.buf ≡ x ∷ rest
    → byte_at offset c ≡ go x c
unfolding byte_at
byte_at-drop c offset x rest e = rw (byte_at, e) refl

pub bytes_at-take :
    (c : Client) (offset n : ℕ)
    → offset + n ≤ length c.cmd.buf
    → bytes_at offset n c ≡ go (take n (drop offset c.cmd.buf)) c
unfolding bytes_at
bytes_at-take c offset n h =
    let inside : leb (offset + n) (length c.cmd.buf) ≡ true = ground arith in
    rw (bytes_at, inside) refl
