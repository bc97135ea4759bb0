-- ===== src/AckRing.antt =====
-- core/src/kernel/pty/flowControl.ts: `BoundedAckRing`, the producer side of the ack-watermark
-- flow control. A chunk's bytes are a list of numbers; a method returns the new ring beside its
-- result, and a `throw` is `err`, which leaves the ring as it was.
pub mod Contents
pub mod Stream
pub mod Acks
pub mod Flow
pub mod Errors
pub mod History
pub mod Tests
use the_last_aibender.Prelude.{
  ℕ, suc, ◌+◌, ◌-◌, ◌*◌, ◌^◌, min, Bool, true, false, not, ◌&&◌, ◌||◌, List, [], ◌∷◌, ◌++◌, Option,
  none, some, ltb, leb, ◌==◌, if◌then◌else◌, length, take, drop,
}

-- A JavaScript number that a caller passes: a whole one, or any other (negative, fractional, NaN,
-- infinite).
pub data Num : Type 0 where
  whole : ℕ → Num
  other : Num

pub data RingError : Type 0 where
  invalid_watermarks overflow not_safe_integer beyond_delivered precedes_floor beyond_end :
      RingError

pub data Result {ℓ} (A : Type ℓ) : Type ℓ where
  ok : A → Result A
  err : RingError → Result A

-- `Number.isSafeInteger(n) && n >= 0`
abbrev pub is_safe_integer : ℕ → Bool
is_safe_integer n = ltb n (2 ^ 53)

pub record FlowControlConfig : Type 0 where
  pub cap_bytes : ℕ
  pub high_water_bytes : ℕ
  pub low_water_bytes : ℕ

abbrev pub default_flow_control : FlowControlConfig
default_flow_control = record {
  cap_bytes = 4 * 1024 * 1024;
  high_water_bytes = 2 * 1024 * 1024;
  low_water_bytes = 512 * 1024;
}

pub record OffsetChunk : Type 0 where
  pub offset : ℕ
  pub bytes : List ℕ

pub record Ring : Type 0 where
  pub config : FlowControlConfig
  pub open config use *
  pub chunks : List OffsetChunk
  pub bytes_in : ℕ
  pub bytes_delivered : ℕ
  pub bytes_acked : ℕ
  pub peak_occupancy : ℕ
  pub paused : Bool
  pub pause_signals : ℕ
  pub resume_signals : ℕ

abbrev pub empty_ring : FlowControlConfig → Ring
empty_ring c = record {
  config = c;
  chunks = [];
  bytes_in = 0;
  bytes_delivered = 0;
  bytes_acked = 0;
  peak_occupancy = 0;
  paused = false;
  pause_signals = 0;
  resume_signals = 0;
}

-- The constructor.
unfoldable pub new : FlowControlConfig → Result Ring
new c =
    if not (is_safe_integer c.cap_bytes)
      || not (is_safe_integer c.high_water_bytes)
      || not (is_safe_integer c.low_water_bytes)
      || not (ltb c.low_water_bytes c.high_water_bytes && leb c.high_water_bytes c.cap_bytes)
    then err invalid_watermarks
    else ok (empty_ring c)

abbrev pub occupancy : Ring → ℕ
occupancy r = r.bytes_in - r.bytes_acked

-- The producer must pause from here on; the signal is counted once.
signal_pause : ℕ → Ring → Ring
signal_pause next r =
    if not r.paused && leb r.high_water_bytes next
    then record r { paused = true; pause_signals = suc r.pause_signals }
    else r

pub push : Ring → List ℕ → Result (Ring × Bool)
unfolding signal_pause
push r [] = ok (r, r.paused)
push r (b ∷ bs) =
    let bytes = b ∷ bs in
    let next = occupancy r + length bytes in
    if ltb r.cap_bytes next
    then err overflow
    else let r' = signal_pause next (record r {
      chunks = r.chunks ++ record { offset = r.bytes_in; bytes = bytes } ∷ [];
      bytes_in = r.bytes_in + length bytes;
      peak_occupancy = if ltb r.peak_occupancy next then next else r.peak_occupancy;
    }) in
      ok (r', r'.paused)

-- `bytes.subarray(start, start + n)`
abbrev pub subarray : ℕ → ℕ → List ℕ → List ℕ
subarray start n bytes = take n (drop start bytes)

-- The loop of `deliverNext`: the parts in order, and the cursor behind them.
pub deliver_loop : List OffsetChunk → ℕ → ℕ → List (List ℕ) × ℕ
deliver_loop [] cursor budget = ([], cursor)
deliver_loop (chunk ∷ rest) cursor budget =
    let chunk_end = chunk.offset + length chunk.bytes in
    let start = cursor - chunk.offset in
    let n = min (length chunk.bytes - start) budget in
    let skipped = deliver_loop rest cursor budget in
    let later = deliver_loop rest (cursor + n) (budget - n) in
    let part = subarray start n chunk.bytes in
    if leb chunk_end cursor
    then skipped
    else if n == 0
    then ([], cursor)
    else if budget - n == 0
    then (part ∷ [], cursor + n)
    else (part ∷ later.0, later.1)

unfoldable pub concat : List (List ℕ) → List ℕ
concat [] = []
concat (part ∷ parts) = part ++ concat parts

-- Hands the parts over, if there are any.
hand_over : Ring → List (List ℕ) → ℕ → Ring × Option OffsetChunk
hand_over r [] cursor = (r, none)
hand_over r (part ∷ parts) cursor = (
  record r { bytes_delivered = cursor },
  some (record { offset = r.bytes_delivered; bytes = concat (part ∷ parts) }),
)

pub deliver_next : Ring → ℕ → Ring × Option OffsetChunk
deliver_next r max_bytes =
    if max_bytes == 0 || leb r.bytes_in r.bytes_delivered
    then (r, none)
    else let out = deliver_loop r.chunks r.bytes_delivered max_bytes in hand_over r out.0 out.1

-- How many leading chunks end at or below the watermark.
pub acked_chunks : ℕ → List OffsetChunk → ℕ
acked_chunks watermark [] = 0
acked_chunks watermark (chunk ∷ rest) =
    if leb (chunk.offset + length chunk.bytes) watermark
    then suc (acked_chunks watermark rest)
    else 0

-- Frees what was acknowledged; a paused producer may resume at the low water mark.
pub release : Ring → ℕ → Ring × Bool
unfolding acked_chunks
release r watermark =
    let r' = record r {
      bytes_acked = watermark;
      chunks = drop (acked_chunks watermark r.chunks) r.chunks;
    } in
    if r'.paused && leb (occupancy r') r'.low_water_bytes
    then (record r' { paused = false; resume_signals = suc r'.resume_signals }, true)
    else (r', false)

pub ack : Ring → Num → Result (Ring × Bool)
ack r other = err not_safe_integer
ack r (whole watermark) =
    if not (is_safe_integer watermark)
    then err not_safe_integer
    else if ltb r.bytes_delivered watermark
    then err beyond_delivered
    else if leb watermark r.bytes_acked
    then ok (r, false)
    else ok (release r watermark)

-- The loop of `replayFrom`.
pub retained_from : ℕ → List OffsetChunk → List OffsetChunk
retained_from from [] = []
retained_from from (chunk ∷ rest) =
    let start = from - chunk.offset in
    let later = retained_from from rest in
    if leb (chunk.offset + length chunk.bytes) from
    then later
    else record { offset = chunk.offset + start; bytes = drop start chunk.bytes } ∷ later

pub replay_from : Ring → Num → Result (Ring × List OffsetChunk)
replay_from r other = err not_safe_integer
replay_from r (whole from) =
    if not (is_safe_integer from)
    then err not_safe_integer
    else if ltb from r.bytes_acked
    then err precedes_floor
    else if ltb r.bytes_in from
    then err beyond_end
    else ok (record r { bytes_delivered = r.bytes_in }, retained_from from r.chunks)
