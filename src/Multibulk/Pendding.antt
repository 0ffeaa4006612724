-- ===== src/Multibulk/Pendding.antt =====
-- The mark `pendding` of src/types.h, which multibulk.c sets while a command is put together.
use redis_pool.Base.{ℕ, Bool, List}
use redis_pool.Types.Array.{BufferArray}
use redis_pool.Types.Array.Append.{Filling, fresh, begun, Added}
use redis_pool.Client.{Client}
use redis_pool.Multibulk.Copy.{At}

pub Filling-pendding :
    (a : BufferArray) (p : Bool) (k : ℕ) (text : List ℕ)
    → Filling a k text
    → Filling (record a { pendding = p }) k text
Filling-pendding a p k text (fresh e n t) = fresh e n t
Filling-pendding a p k text (begun e b n h) = begun e b n h

pub Added-pendding :
    (a b : BufferArray) (p : Bool) (k : ℕ) (text : List ℕ)
    → Added k text a b
    → Added k text a (record b { pendding = p })
Added-pendding a b p k text h = record {
  filling = Filling-pendding b p k text h.filling;
  max_kept = h.max_kept;
  size_kept = h.size_kept;
  others = h.others;
  in_bounds = h.in_bounds;
}

pub At-pendding :
    (c : Client) (p : Bool) (text rest tail : List ℕ)
    → At c text rest tail
    → At (record c { cmds = record c.cmds { pendding = p } }) text rest tail
At-pendding c p text rest tail here = record {
  filling = Filling-pendding c.cmds p c.cmd_num text here.filling;
  place = record { inside = here.place.inside; below = here.place.below };
  unread_is = here.unread_is;
  ends = here.ends;
  valid = here.valid;
}
