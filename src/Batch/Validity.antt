-- ===== src/Batch/Validity.antt =====
-- The representation invariant of `FrameBatch` and the operations on the slab that keep it.
use zcmesh.Base.{
  ℕ, ◌+◌, ◌-◌, ◌*◌, ◌/◌, ◌^◌, ◌≤◌, ◌<◌, ◌≡◌, arith, Bool, List, ◌++◌, length, take, drop,
  length-set, length-append, length-take, length-drop, length-replicate,
}
use zcmesh.Wire.Frame.{Frame, SensorSample}
use zcmesh.Wire.Pack.{pack_frame_into}
use zcmesh.Batch.{
  FrameBatch, new_batch, zero_frame, push, clear, note_sent, discard_fully_sent, adapt,
}

-- The slab has its capacity, `count * 24` does not wrap, the send cursor is within the bytes held,
-- and the flush target is reachable.
pub record IsValid (b : FrameBatch) : Type 0 where
  pub slab : length b.frames ≡ b.capacity
  pub fits : b.capacity * 24 < 2 ^ 64
  pub count_le : b.count ≤ b.capacity
  pub offset_le : b.send_offset ≤ b.count * 24
  pub flush_pos : 1 ≤ b.flush_at
  pub flush_le : b.flush_at ≤ b.capacity

pub new_batch-IsValid : (n : ℕ) → 1 ≤ n → n * 24 < 2 ^ 64 → IsValid (new_batch n)
unfolding new_batch
new_batch-IsValid n p h = ground (arith, length-replicate n zero_frame)

pub push-IsValid : (b : FrameBatch) (s : SensorSample) → IsValid b → IsValid (push b s).1
unfolding push
push-IsValid b s v = ground (arith, length-set b.frames b.count (pack_frame_into s))

pub clear-IsValid : (b : FrameBatch) → IsValid b → IsValid (clear b)
unfolding clear
clear-IsValid b v = ground arith

pub note_sent-IsValid : (b : FrameBatch) (n : ℕ) → IsValid b → IsValid (note_sent b n)
unfolding note_sent
note_sent-IsValid b n v = ground arith

length-memmove :
    (xs : List Frame) (k r : ℕ)
    → k + r ≤ length xs
    → length (take r (drop k xs) ++ drop r xs) ≡ length xs
length-memmove xs k r h = omega (
  arith,
  length-append (take r (drop k xs)) (drop r xs),
  length-take r (drop k xs),
  length-drop k xs,
  length-drop r xs,
)

pub discard_fully_sent-IsValid : (b : FrameBatch) → IsValid b → IsValid (discard_fully_sent b)
unfolding discard_fully_sent
discard_fully_sent-IsValid b v =
    ground (arith, length-memmove b.frames (b.send_offset / 24) (b.count - b.send_offset / 24))

pub adapt-IsValid : (b : FrameBatch) (sent : Bool) (ns : ℕ) → IsValid b → IsValid (adapt b sent ns)
unfolding adapt
adapt-IsValid b sent ns v = ground arith
