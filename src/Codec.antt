-- ===== src/Codec.antt =====
-- The TinyPB protocol and its coder: include/coder/tinypb_protocol.hpp, src/tinypb_protocol.cc and
-- src/tinypb_coder.cc. A `std::string` is the list of its bytes, an `int` an integer; where the
-- code would leave an array or overflow an `int`, the model faults.
pub mod Decode
use mcoro_rpc.Common.{
  ℕ, suc, ◌+◌, ◌-◌, ◌%◌, ◌^◌, List, [], ◌∷◌, ◌++◌, Bool, true, false, Option, none, some, Bytes,
  codes, ltb, leb, ◌==◌, if◌then◌else◌, length, get_elem?, take, replicate, slice, ℤ, pos, negsuc,
  sub_ℕ, ◌+ℤ◌, pattern32,
}
use mcoro_rpc.Wire.{net_bytes, get_int32_from_net_byte}
use mcoro_rpc.Buffer.{TcpBuffer, write_to_buffer, move_read_index}

abbrev pub pb_start : ℕ
pb_start = 0x02

abbrev pub pb_end : ℕ
pb_end = 0x03

pub record TinyPbProtocol : Type 0 where
  pub msg_id : Bytes
  pub pk_len : ℤ
  pub msg_id_len : ℤ
  pub method_name_len : ℤ
  pub method_name : Bytes
  pub err_code : ℤ
  pub err_info_len : ℤ
  pub err_info : Bytes
  pub pb_data : Bytes
  pub check_num : ℤ
  pub parse_sucess : Bool

-- The field `m_method_name_len` has no initial value in C++; it is set before it is read.
unfoldable pub new_protocol : TinyPbProtocol
new_protocol = record {
  msg_id = [];
  pk_len = pos 0;
  msg_id_len = pos 0;
  method_name_len = pos 0;
  method_name = [];
  err_code = pos 0;
  err_info_len = pos 0;
  err_info = [];
  pb_data = [];
  check_num = pos 0;
  parse_sucess = false;
}

-- The id that a message without one is sent under.
abbrev pub default_msg_id : Bytes
default_msg_id = codes "123456789"

abbrev pub or_default : Bytes → Bytes
or_default [] = default_msg_id
or_default (c ∷ cs) = c ∷ cs

abbrev pub packet_length : TinyPbProtocol → ℕ
packet_length m = 26 + length m.msg_id + length m.method_name + length m.err_info + length m.pb_data

-- What `encoderTinyPB` writes from the message-id length to the checksum, in its order.
abbrev pub body : TinyPbProtocol → Bytes
body m =
    net_bytes (length m.msg_id)
    ++ (m.msg_id
        ++ (net_bytes (length m.method_name)
            ++ (m.method_name
                ++ (net_bytes (pattern32 m.err_code)
                    ++ (net_bytes (length m.err_info)
                        ++ (m.err_info ++ (m.pb_data ++ net_bytes 1)))))))

-- The whole packet.
abbrev pub packet : TinyPbProtocol → Bytes
packet m = pb_start ∷ (net_bytes (packet_length m) ++ (body m ++ pb_end ∷ []))

-- The message that `encoderTinyPB` leaves behind, and the packet. From 2 ^ 31 bytes on the `int`
-- packet length is negative or wrapped, and the writes leave the block that `malloc` gave.
pub encoder_tiny_pb : TinyPbProtocol → Option (TinyPbProtocol × Bytes)
encoder_tiny_pb message =
    let m = record message { msg_id = or_default message.msg_id } in
    if ltb (packet_length m) (2 ^ 31)
    then some (
      record m {
        pk_len = pos (packet_length m);
        msg_id_len = pos (length m.msg_id);
        method_name_len = pos (length m.method_name);
        err_info_len = pos (length m.err_info);
        parse_sucess = true;
      },
      packet m,
    )
    else none

-- The messages as `encode` leaves them, and the buffer.
pub encode : List TinyPbProtocol → TcpBuffer → Option (List TinyPbProtocol × TcpBuffer)
encode [] out_buf = some ([], out_buf)
encode (i ∷ rest) out_buf = elim (encoder_tiny_pb i) [
  | none ↦ none
  | some (msg, buf) ↦ elim (write_to_buffer out_buf buf) [
    | none ↦ none
    | some out_buf' ↦ elim (encode rest out_buf') [
      | none ↦ none
      | some (msgs, last) ↦ some (msg ∷ msgs, last)
    ]
  ]
]
