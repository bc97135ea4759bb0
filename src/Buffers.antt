-- ===== src/Buffers.antt =====
-- app/src/lib/buffers/ringBuffer.ts: the two bounded buffers of the frontend. The array of a
-- `RingBuffer` is a function of the index; every index the code uses is a remainder by the capacity.
pub mod Ring
pub mod Pushes
pub mod Queue
pub mod Tests
use Prim.Native.Nat.{◌%◌}
use the_last_aibender.Prelude.{
  ℕ, zero, suc, ◌+◌, Bool, Option, none, some, List, [], ◌∷◌, ◌++◌, ltb, ◌==◌, if◌then◌else◌,
  length,
}
use the_last_aibender.AckRing.{Num, whole, other}

pub record RingBuffer {ℓ} (A : Type ℓ) : Type ℓ where
  pub capacity : ℕ
  pub items : ℕ → Option A
  pub head : ℕ
  pub count : ℕ
  pub drops : ℕ

module _ {ℓ} {A : Type ℓ} where
  abbrev pub empty_buffer : ℕ → RingBuffer A
  empty_buffer capacity = record {
    capacity = capacity;
    items = λ i. none;
    head = 0;
    count = 0;
    drops = 0;
  }

  -- The constructor; `none` where it throws.
  pub new_buffer : Num → Option (RingBuffer A)
  new_buffer other = none
  new_buffer (whole capacity) = if capacity == 0 then none else some (empty_buffer capacity)

  abbrev pub set : ℕ → Option A → (ℕ → Option A) → ℕ → Option A
  set i x items = λ j. if j == i then x else items j

  abbrev pub index : RingBuffer A → ℕ → ℕ
  index r i = (r.head + i) % r.capacity

  pub push_item : A → RingBuffer A → RingBuffer A × Option A
  push_item item r =
      if r.count == r.capacity
      then (
        record r {
          items = set r.head (some item) r.items;
          head = (r.head + 1) % r.capacity;
          drops = suc r.drops;
        },
        r.items r.head,
      )
      else (
        record r { items = set (index r r.count) (some item) r.items; count = suc r.count },
        none,
      )

  -- The loop of `toArray`, over `n` positions from the `i`-th on.
  pub read : RingBuffer A → ℕ → ℕ → List (Option A)
  read r i zero = []
  read r i (suc n) = r.items (index r i) ∷ read r (suc i) n

  pub to_array : RingBuffer A → List (Option A)
  unfolding read
  to_array r = read r 0 r.count

  -- The loop of `drain`: it reads each position and sets it to `undefined`.
  pub drain_loop : RingBuffer A → ℕ → ℕ → (ℕ → Option A) × List (Option A)
  drain_loop r i zero = (r.items, [])
  drain_loop r i (suc n) =
      let rest = drain_loop (record r { items = set (index r i) none r.items }) (suc i) n in
      (rest.0, r.items (index r i) ∷ rest.1)

  pub drain : RingBuffer A → RingBuffer A × List (Option A)
  unfolding drain_loop
  drain r =
      let out = drain_loop r 0 r.count in (record r { items = out.0; head = 0; count = 0 }, out.1)

  pub clear : RingBuffer A → RingBuffer A
  clear r = record r { items = λ i. none; head = 0; count = 0 }

pub record ByteQueue : Type 0 where
  pub capacity_bytes : ℕ
  pub chunks : List (List ℕ)
  pub bytes : ℕ

pub new_queue : Num → Option ByteQueue
new_queue other = none
new_queue (whole capacity) =
    if capacity == 0
    then none
    else some (record { capacity_bytes = capacity; chunks = []; bytes = 0 })

-- `none` where the push throws.
pub push_chunk : List ℕ → ByteQueue → Option ByteQueue
push_chunk [] q = some q
push_chunk (b ∷ bs) q =
    if ltb q.capacity_bytes (q.bytes + length (b ∷ bs))
    then none
    else some (record q { chunks = q.chunks ++ (b ∷ bs) ∷ []; bytes = q.bytes + length (b ∷ bs) })

pub drain_queue : ByteQueue → ByteQueue × List (List ℕ)
drain_queue q = (record q { chunks = []; bytes = 0 }, q.chunks)

pub clear_queue : ByteQueue → ByteQueue
clear_queue q = record q { chunks = []; bytes = 0 }
