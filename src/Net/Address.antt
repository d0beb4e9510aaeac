-- ===== src/Net/Address.antt =====
-- Addresses: `IPNetAddr` of include/net/tcp/net_addr.h and src/net_addr.cc. `inet_addr` and
-- `inet_ntoa` are the system's.
use mcoro_rpc.Common.{
  ℕ, suc, ◌+◌, ◌*◌, ◌-◌, ◌/◌, ◌%◌, ◌^◌, ◌<◌, ◌≡◌, refl, sym, ap, ap₂, ◌∙◌, [], ◌∷◌, ◌++◌, Bool,
  true, false, ◌&&◌, ◌||◌, not, Option, none, some, Bytes, ℤ, pos, negsuc, ◌==◌, if◌then◌else◌, ltb,
  leb, take, drop, length, arith,
}
use mcoro_rpc.Common.Decimal
use mcoro_rpc.Common.Decimal.{atoi, atoi-to_string, to_string-cons}
use mcoro_rpc.Rpc.Client.{find_colon, colon}
use mcoro_rpc.Rpc.Dispatcher.Names.{Lacks}

-- `sockaddr_in`
pub record SockAddr : Type 0 where
  pub sin_family : ℕ
  pub s_addr : ℕ
  pub sin_port : ℕ

pub record IpNetAddr : Type 0 where
  pub ip : Bytes
  pub port : ℕ
  pub addr : SockAddr

abbrev pub af_inet : ℕ
af_inet = 2

abbrev pub inaddr_none : ℕ
inaddr_none = 0xffffffff

-- `htons` and `ntohs`
abbrev pub swap16 : ℕ → ℕ
swap16 n = n % 2 ^ 8 * 2 ^ 8 + n / 2 ^ 8

-- An `int` as a `uint16_t`.
abbrev pub to_uint16 : ℤ → ℕ
to_uint16 (pos n) = n % 2 ^ 16
to_uint16 (negsuc n) = 2 ^ 16 - 1 - n % 2 ^ 16

abbrev pub in_range : ℤ → Bool
in_range (pos n) = ltb 0 n && leb n 65535
in_range (negsuc n) = false

abbrev pub is_empty : Bytes → Bool
is_empty [] = true
is_empty (c ∷ cs) = false

-- The static `isValid`; `none` where `atoi` is undefined.
pub is_valid_text : Bytes → Option Bool
is_valid_text addr = elim (find_colon addr) [
  | none ↦ some false
  | some i ↦
      let ip = take i addr in
      let port = drop (suc i) addr in
      if is_empty ip || is_empty port
      then some false
      else elim (atoi port) [ none ↦ none | some iport ↦ some (in_range iport) ]
]

-- An address that is made by default.
abbrev pub no_addr : IpNetAddr
no_addr = record { ip = []; port = 0; addr = record { sin_family = 0; s_addr = 0; sin_port = 0 } }

module _ (inet_addr : Bytes → ℕ) where
  -- `Create`, and the constructor from an ip and a port.
  unfoldable pub create : Bytes → ℕ → IpNetAddr
  create ip port = record {
    ip = ip;
    port = port;
    addr = record { sin_family = af_inet; s_addr = inet_addr ip; sin_port = swap16 port };
  }

  -- The constructor from a text.
  pub from_text : Bytes → Option IpNetAddr
  from_text addr = elim (find_colon addr) [
    | none ↦ some no_addr
    | some i ↦ elim (atoi (drop (suc i) addr)) [
      | none ↦ none
      | some iport ↦ some (create (take i addr) (to_uint16 iport))
    ]
  ]

  pub is_valid : IpNetAddr → Bool
  is_valid a =
      not (is_empty a.ip)
      && (not (a.port == 0 || ltb 65535 a.port) && not (inet_addr a.ip == inaddr_none))

-- The constructor from a `sockaddr_in`.
pub from_sock_addr : (ℕ → Bytes) → SockAddr → IpNetAddr
from_sock_addr inet_ntoa addr = record {
  ip = inet_ntoa addr.s_addr;
  port = swap16 addr.sin_port;
  addr = addr;
}

-- `TcpStream::peerAddr` of src/tcpstream.cc, with what `getpeername` gives; `none` is a null pointer.
abbrev pub peer_addr : (ℕ → Bytes) → Option ℕ → Option SockAddr → Option IpNetAddr
peer_addr inet_ntoa fd answer = elim fd [
  | none ↦ none
  | some _ ↦ elim answer [ none ↦ none | some addr ↦ some (from_sock_addr inet_ntoa addr) ]
]

unfoldable pub to_string : IpNetAddr → Bytes
to_string a = a.ip ++ (colon ∷ Decimal.to_string a.port)

find_colon_lem :
    (ip rest : Bytes)
    → Lacks colon ip
    → (find_colon (ip ++ (colon ∷ rest)) ≡ some (length ip))
      × (take (length ip) (ip ++ (colon ∷ rest)) ≡ ip)
      × (drop (suc (length ip)) (ip ++ (colon ∷ rest)) ≡ rest)
unfolding find_colon
find_colon_lem [] rest l = (refl, refl, refl)
find_colon_lem (c ∷ cs) rest l =
    let (e, f, g) = find_colon_lem cs rest l.1 in (ground (arith, e, l.0), ap (λ t. c ∷ t) f, g)

swap16_twice : (n : ℕ) → n < 2 ^ 16 → swap16 (swap16 n) ≡ n
swap16_twice n h = omega arith

abbrev pub is_named : Bytes → ℕ → Bool
is_named ip port = not (is_empty ip) && not (port == 0)

text_is_named :
    (ip : Bytes) (port c : ℕ) (cs : Bytes)
    → port < 2 ^ 16
    → (if is_empty ip || is_empty (c ∷ cs) then some false else some (in_range (pos port)))
      ≡ some (is_named ip port)
text_is_named [] port c cs h = refl
text_is_named (i ∷ ip) port c cs h = ground arith

is_valid_text_lem :
    (ip : Bytes) (port : ℕ)
    → Lacks colon ip
    → port < 2 ^ 16
    → is_valid_text (ip ++ (colon ∷ Decimal.to_string port)) ≡ some (is_named ip port)
unfolding is_valid_text
is_valid_text_lem ip port lacks small =
    let text = Decimal.to_string port in
    let (found, before, behind) = find_colon_lem ip text lacks in
    let (c, cs, e) = to_string-cons port in
    let parsed : atoi (c ∷ cs) ≡ some (pos port) =
      ap atoi (sym e) ∙ atoi-to_string port (omega arith) in
    rw (found, before, behind, e, parsed, is_valid_text) (text_is_named ip port c cs small)

from_text_lem :
    (inet_addr : Bytes → ℕ) (ip : Bytes) (port : ℕ)
    → Lacks colon ip
    → port < 2 ^ 16
    → from_text inet_addr (ip ++ (colon ∷ Decimal.to_string port)) ≡ some (create inet_addr ip port)
unfolding from_text
from_text_lem inet_addr ip port lacks small =
    let text = Decimal.to_string port in
    let (found, before, behind) = find_colon_lem ip text lacks in
    let parsed = atoi-to_string port (omega arith) in
    let kept : to_uint16 (pos port) ≡ port = omega arith in
    rw (found, behind, parsed, before, from_text) (ap (λ p. some (create inet_addr ip p)) kept)

module _ (inet_addr : Bytes → ℕ) (inet_ntoa : ℕ → Bytes) where
  -- An address whose ip has no colon is read back from its text, and from its `sockaddr_in` where
  -- the system prints the ip as it was read. Its text is valid just when the ip is not empty and the
  -- port is not 0; the address itself is valid when besides the system can read the ip.
  pub from_text-to_string :
      (ip : Bytes) (port : ℕ)
      → Lacks colon ip
      → port < 2 ^ 16
      → inet_ntoa (inet_addr ip) ≡ ip
      → let a = create inet_addr ip port in
        (from_text inet_addr (to_string a) ≡ some a)
        × (from_sock_addr inet_ntoa a.addr ≡ a)
        × (is_valid_text (to_string a) ≡ some (is_named ip port))
        × (is_valid inet_addr a ≡ (is_named ip port && not (inet_addr ip == inaddr_none)))
  unfolding create from_text from_sock_addr to_string is_valid
  from_text-to_string ip port lacks small reads =
      let a = create inet_addr ip port in
      (
        from_text_lem inet_addr ip port lacks small,
        ap₂ (λ i p. record a { ip = i; port = p }) reads (swap16_twice port small),
        is_valid_text_lem ip port lacks small,
        ground (arith, small),
      )
