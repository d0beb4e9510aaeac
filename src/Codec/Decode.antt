-- ===== src/Codec/Decode.antt =====
-- `TinyPBCoder::decode` of src/tinypb_coder.cc: the search for a packet, its fields, and the loop
-- that empties a buffer.
pub mod Fields
pub mod Packet
pub mod RoundTrip
pub mod Stray
pub mod Partial
pub mod Faults
use mcoro_rpc.Common.{
  ◌≡◌, refl, ◌⊎◌, inl, inr, ℕ, zero, suc, ◌+◌, ◌-◌, ◌^◌, List, [], ◌∷◌, ◌++◌, true, ◌&&◌, Option,
  none, some, Bytes, ltb, leb, ◌==◌, if◌then◌else◌, length, get_elem?, replicate, slice, ℤ, pos,
  negsuc, sub_ℕ, ◌+ℤ◌,
}
use mathlib.Core.Option
use mcoro_rpc.Wire.{get_int32_from_net_byte}
use mcoro_rpc.Buffer.{TcpBuffer, move_read_index}
use mcoro_rpc.Codec.{TinyPbProtocol, new_protocol, pb_start, pb_end}

-- The `for` loop's verdict on one index: not a packet's start, a packet of `pk_len` bytes that ends
-- at index `end_index`, or an access outside the copy of the vector.
pub data Probe : Type 0 where
  miss : Probe
  hit : (pk_len : ℤ) (end_index : ℕ) → Probe
  stray : Probe

-- `int j=i+pk_len-1`, then the test of `tmp[j]`. An `int` overflow and a negative index are stray.
probe_end : Bytes → ℕ → ℕ → ℤ → Probe
probe_end tmp w i pk_len = elim (pos i +ℤ pk_len) [
  | negsuc _ ↦ stray
  | pos past ↦
      if past == 0
      then stray
      else if leb (2 ^ 31) past
      then stray
      else if ltb w (past - 1)
      then miss
      else elim (get_elem? tmp (past - 1)) [
        | none ↦ stray
        | some c ↦ if c == pb_end then hit pk_len (past - 1) else miss
      ]
]

pub probe : Bytes → ℕ → ℕ → Probe
unfolding probe_end
probe tmp w i = elim (get_elem? tmp i) [
  | none ↦ stray
  | some c ↦
      if c == pb_start && ltb (i + 1) w
      then elim (get_int32_from_net_byte tmp (i + 1)) [
        | none ↦ stray
        | some pk_len ↦ probe_end tmp w i pk_len
      ]
      else miss
]

pub data Frame : Type 0 where
  no_frame : Frame
  frame : (start_index : ℕ) (pk_len : ℤ) (end_index : ℕ) → Frame
  stray_frame : Frame

-- The loop from index `i` on, with the number of indices below `w` left.
pub find_frame : ℕ → Bytes → ℕ → ℕ → Frame
find_frame zero tmp w i = no_frame
find_frame (suc left) tmp w i = elim (probe tmp w i) [
  | miss ↦ find_frame left tmp w (i + 1)
  | hit pk_len end_index ↦ frame i pk_len end_index
  | stray ↦ stray_frame
]

-- A step of the parse: a value, `continue` without a message, the exception of a negative string
-- length, or an access outside an array.
pub data Step {ℓ} (A : Type ℓ) : Type ℓ where
  ok : A → Step A
  skip throw fault : Step A

infixl 5 ◌>>=◌ ◌>>◌
abbrev pub ◌>>=◌ {ℓ κ} : {A : Type ℓ} {B : Type κ} → Step A → (A → Step B) → Step B
ok a >>= f = f a
skip >>= f = skip
throw >>= f = throw
fault >>= f = fault

abbrev pub ◌>>◌ {ℓ} : {B : Type ℓ} → Step (Unit {0}) → Step B → Step B
m >> k = m >>= λ _. k

-- `if(index>=end_index){ …; continue; }`
abbrev pub before_end : ℕ → ℕ → Step (Unit {0})
before_end index end_index = if leb end_index index then skip else ok tt

abbrev pub or_fault {ℓ} : {A : Type ℓ} → Option A → Step A
or_fault none = fault
or_fault (some a) = ok a

-- The characters of an array up to its first NUL, as `std::string(const char*)` reads them.
pub until_nul : Bytes → Option Bytes
until_nul [] = none
until_nul (c ∷ cs) =
    let rest = Option.map (λ s. c ∷ s) (until_nul cs) in if c == 0 then some [] else rest

-- `char a[cap]={0}; memcpy(&a[0],&tmp[at],len); std::string(a)`, and the length as an index.
pub copy_field : ℕ → Bytes → ℕ → ℤ → Step (ℕ × Bytes)
copy_field cap tmp at (negsuc _) = fault
copy_field cap tmp at (pos n) = if ltb cap n then fault else elim (slice tmp at n) [
  | none ↦ fault
  | some raw ↦ elim (until_nul (raw ++ replicate (cap - n) 0)) [
    | none ↦ fault
    | some text ↦ ok (n, text)
  ]
]

-- `std::string(&tmp[at],len)`
pub copy_data : Bytes → ℕ → ℤ → Step Bytes
copy_data tmp at (negsuc _) = if ltb (length tmp) at then fault else throw
copy_data tmp at (pos n) = or_fault (slice tmp at n)

-- The fields of the packet at `start_index`, in the order in which the code reads them.
pub parse_message : Bytes → ℕ → ℤ → ℕ → Step TinyPbProtocol
parse_message tmp start_index pk_len end_index = do
  let msg_id_len_index = start_index + 5
  before_end msg_id_len_index end_index
  msg_id_len ← or_fault (get_int32_from_net_byte tmp msg_id_len_index)
  let msg_id_index = msg_id_len_index + 4
  (m, msg_id) ← copy_field 100 tmp msg_id_index msg_id_len
  let method_name_len_index = msg_id_index + m
  before_end method_name_len_index end_index
  method_name_len ← or_fault (get_int32_from_net_byte tmp method_name_len_index)
  let method_name_index = method_name_len_index + 4
  (n, method_name) ← copy_field 512 tmp method_name_index method_name_len
  let error_code_index = method_name_index + n
  before_end error_code_index end_index
  err_code ← or_fault (get_int32_from_net_byte tmp error_code_index)
  let err_info_len_index = error_code_index + 4
  before_end err_info_len_index end_index
  err_info_len ← or_fault (get_int32_from_net_byte tmp err_info_len_index)
  let err_info_index = err_info_len_index + 4
  (k, err_info) ← copy_field 512 tmp err_info_index err_info_len
  pb_data ← copy_data tmp (err_info_index + k) (pk_len +ℤ sub_ℕ 0 (k + m + n + 26))
  ok (record new_protocol {
    msg_id = msg_id;
    pk_len = pk_len;
    msg_id_len = msg_id_len;
    method_name_len = method_name_len;
    method_name = method_name;
    err_code = err_code;
    err_info_len = err_info_len;
    err_info = err_info;
    pb_data = pb_data;
    parse_sucess = true;
  })

-- How a call of `decode` ends: it returns, an exception leaves it, an access leaves an array, or
-- the rounds given were not enough. The list is `out_message`.
pub data Decoded : Type 0 where
  returned threw : List TinyPbProtocol → TcpBuffer → Decoded
  faulted : Decoded
  out_of_fuel : Decoded

pub Decoded-cases :
    (d : Decoded)
    → ((msgs : List TinyPbProtocol) × (b : TcpBuffer) × (d ≡ returned msgs b))
      ⊎ (((msgs : List TinyPbProtocol) × (b : TcpBuffer) × (d ≡ threw msgs b))
          ⊎ ((d ≡ faulted) ⊎ (d ≡ out_of_fuel)))
Decoded-cases (returned msgs b) = inl (msgs, b, refl)
Decoded-cases (threw msgs b) = inr (inl (msgs, b, refl))
Decoded-cases faulted = inr (inr (inl refl))
Decoded-cases out_of_fuel = inr (inr (inr refl))

-- `while (true)`. `tmp` is a copy, so the fields are read as they stood before the index moved.
pub decode : ℕ → List TinyPbProtocol → TcpBuffer → Decoded
decode zero out_message buf = out_of_fuel
decode (suc fuel) out_message buf =
    elim (find_frame (buf.write_index - buf.read_index) buf.buffer buf.write_index buf.read_index) [
      | no_frame ↦ returned out_message buf
      | stray_frame ↦ faulted
      | frame start_index pk_len end_index ↦
          elim (move_read_index buf (sub_ℕ (end_index + 1) start_index)) [
            | none ↦ faulted
            | some buf' ↦ elim (parse_message buf.buffer start_index pk_len end_index) [
              | ok message ↦ decode fuel (out_message ++ (message ∷ [])) buf'
              | skip ↦ decode fuel out_message buf'
              | throw ↦ threw out_message buf'
              | fault ↦ faulted
            ]
          ]
    ]
