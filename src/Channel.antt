-- ===== src/Channel.antt =====
-- The channel between coroutines: include/coro/channel.hpp. An awaiter is known by a number. Its
-- `resume` and `cancel` run the waiting coroutine on the spot, with the channel's mutex held: here
-- they are wake-ups in the result, in the order in which the code makes them, and the coroutine's
-- next call of the channel comes after the operation that woke it.
pub mod Invariant
pub mod Order
pub mod Close
pub mod Conserve
use mcoro_rpc.Common.{
  ℕ, ◌+◌, List, [], ◌∷◌, ◌++◌, map, Bool, true, false, Option, none, some, ltb, if◌then◌else◌,
  length,
}

-- What a woken coroutine sees: a writer that its value was taken, a reader its value, either that
-- it was cancelled.
pub data Wake {ℓ} (T : Type ℓ) : Type ℓ where
  resumed : (writer : ℕ) → Wake T
  resumed_with : (reader : ℕ) → T → Wake T
  cancelled : (awaiter : ℕ) → Wake T

pub record WriterAwaiter {ℓ} (T : Type ℓ) : Type ℓ where
  pub handle : ℕ
  pub value : T

pub record Channel {ℓ} (T : Type ℓ) : Type ℓ where
  pub capacity : ℕ
  pub buffer : List T
  pub writers : List (WriterAwaiter T)
  pub readers : List ℕ
  pub is_active : Bool

-- How a call ends for its caller.
pub data Answer {ℓ} (T : Type ℓ) : Type ℓ where
  value : T → Answer T
  done : Bool → Answer T
  empty : Answer T
  suspended : Answer T
  channel_closed : Answer T

-- The channel after a call, the coroutines that it woke and its answer.
abbrev pub Outcome {ℓ} : Type ℓ → Type ℓ
Outcome T = Channel T × List (Wake T) × Answer T

module _ {ℓ} {T : Type ℓ} where
  unfoldable pub create : ℕ → Channel T
  create capacity = record {
    capacity = capacity;
    buffer = [];
    writers = [];
    readers = [];
    is_active = true;
  }

  pub waiting_count : Channel T → ℕ
  waiting_count c = length c.writers + length c.readers

  -- `pushWriter`, called as the coroutine suspends.
  push_writer : ℕ → T → Channel T → Outcome T
  push_writer w v c = elim c.readers [
    | reader ∷ rest ↦
        (record c { readers = rest }, resumed_with reader v ∷ resumed w ∷ [], done true)
    | [] ↦
        if ltb (length c.buffer) c.capacity
        then (record c { buffer = c.buffer ++ (v ∷ []) }, resumed w ∷ [], done true)
        else (
          record c { writers = c.writers ++ (record { handle = w; value = v } ∷ []) },
          [],
          suspended,
        )
  ]

  pub send : ℕ → T → Channel T → Outcome T
  unfolding push_writer
  send w v c =
      if c.is_active
      then elim c.readers [
        | reader ∷ rest ↦ (record c { readers = rest }, resumed_with reader v ∷ [], done true)
        | [] ↦
            if ltb (length c.buffer) c.capacity
            then (record c { buffer = c.buffer ++ (v ∷ []) }, [], done true)
            else push_writer w v c
      ]
      else (c, [], done true)

  -- The part of `recv`, `tryRecv` and `pushReader` behind a taken buffer entry: a waiting writer
  -- fills the place.
  refill : Channel T → Channel T × List (Wake T)
  refill c = elim c.writers [
    | [] ↦ (c, [])
    | writer ∷ rest ↦ (
      record c { buffer = c.buffer ++ (writer.value ∷ []); writers = rest },
      resumed writer.handle ∷ [],
    )
  ]

  -- The locked part that `recv` and `tryRecv` share; `none` where neither test holds.
  take_value : Channel T → Option (Channel T × List (Wake T) × T)
  unfolding refill
  take_value c = elim c.writers [
    | writer ∷ rest ↦ some (record c { writers = rest }, resumed writer.handle ∷ [], writer.value)
    | [] ↦ elim c.buffer [
      | val ∷ rest ↦ let (c', wakes) = refill (record c { buffer = rest }) in some (c', wakes, val)
      | [] ↦ none
    ]
  ]

  -- `pushReader`, called as the coroutine suspends.
  push_reader : ℕ → Channel T → Outcome T
  unfolding refill
  push_reader r c = elim c.writers [
    | writer ∷ rest ↦ (
      record c { writers = rest },
      resumed writer.handle ∷ resumed_with r writer.value ∷ [],
      done true,
    )
    | [] ↦ elim c.buffer [
      | val ∷ rest ↦
          let (c', wakes) = refill (record c { buffer = rest }) in
          (c', resumed_with r val ∷ wakes, done true)
      | [] ↦ (record c { readers = c.readers ++ (r ∷ []) }, [], suspended)
    ]
  ]

  pub recv : ℕ → Channel T → Outcome T
  unfolding take_value push_reader
  recv r c = elim (take_value c) [
    | some (c', wakes, val) ↦ (c', wakes, value val)
    | none ↦ if c.is_active then push_reader r c else (c, [], channel_closed)
  ]

  pub try_recv : Channel T → Outcome T
  unfolding take_value
  try_recv c = elim (take_value c) [
    | some (c', wakes, val) ↦ (c', wakes, value val)
    | none ↦ (c, [], empty)
  ]

  -- What `sendSync` does behind a push: a reader, if one waits, gets the oldest entry.
  pub feed_reader : Channel T → Outcome T
  feed_reader c = elim c.readers [
    | [] ↦ (c, [], done true)
    | reader ∷ rest ↦ elim c.buffer [
      | [] ↦ (c, [], done true)
      | val ∷ left ↦
          (record c { buffer = left; readers = rest }, resumed_with reader val ∷ [], done true)
    ]
  ]

  pub send_sync : T → Channel T → Outcome T
  unfolding feed_reader
  send_sync v c =
      if c.is_active
      then elim c.readers [
        | reader ∷ rest ↦ (record c { readers = rest }, resumed_with reader v ∷ [], done true)
        | [] ↦
            if ltb (length c.buffer) c.capacity
            then feed_reader (record c { buffer = c.buffer ++ (v ∷ []) })
            else (c, [], done false)
      ]
      else (c, [], done false)

  -- Every awaiter in turn, the writers first.
  abbrev cancel_wakes : Channel T → List (Wake T)
  cancel_wakes c = map (λ w. cancelled w.handle) c.writers ++ map cancelled c.readers

  pub cancel_all_awaiters : Channel T → Outcome T
  cancel_all_awaiters c = (record c { writers = []; readers = [] }, cancel_wakes c, done true)

  unfoldable pub cleanup : Channel T → Outcome T
  cleanup c = (record c { writers = []; readers = []; buffer = [] }, cancel_wakes c, done true)

  unfoldable pub close : Channel T → Outcome T
  unfolding cleanup
  close c = if c.is_active then cleanup (record c { is_active = false }) else (c, [], done true)

-- The calls that a program makes of a channel. Those that may suspend name their awaiter.
pub data Call {ℓ} (T : Type ℓ) : Type ℓ where
  sends : (writer : ℕ) → T → Call T
  recvs : (reader : ℕ) → Call T
  try_recvs : Call T
  send_syncs : T → Call T
  cancels : Call T
  closes : Call T

module _ {ℓ} {T : Type ℓ} where
  unfoldable pub call : Channel T → Call T → Outcome T
  unfolding send recv try_recv send_sync cancel_all_awaiters close
  call c (sends w v) = send w v c
  call c (recvs r) = recv r c
  call c try_recvs = try_recv c
  call c (send_syncs v) = send_sync v c
  call c cancels = cancel_all_awaiters c
  call c closes = close c

  -- The calls of a program in order.
  unfoldable pub run : Channel T → List (Call T) → Channel T
  run c [] = c
  run c (k ∷ ks) = run (call c k).0 ks
