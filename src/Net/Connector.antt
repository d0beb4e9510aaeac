-- ===== src/Net/Connector.antt =====
-- The connector: include/net/tcpconnector.hpp.
use mcoro_rpc.Common.{
  ℕ, ◌≡◌, refl, sym, ap, ◌∙◌, append-nil, ◌⊎◌, List, [], ◌∷◌, ◌++◌, Bool, true, false, Option, none,
  some, ◌==◌, if◌then◌else◌, inl, inr,
}
use mcoro_rpc.Net.{SysCall, opens, closes, open_fds, open-close}

-- What `connect` answers: success, an error, or that it goes on; then what `getsockopt` finds when
-- the socket is writable, `none` where it fails.
pub data ConnectAnswer : Type 0 where
  at_once refused : ConnectAnswer
  in_progress : Option ℕ → ConnectAnswer

-- An address that was resolved, with the socket made for it.
pub record Address : Type 0 where
  pub socket : Option ℕ
  pub answer : ConnectAnswer

-- `do_connect`; `none` is an exception.
unfoldable pub do_connect : ConnectAnswer → Option Bool
do_connect at_once = some true
do_connect refused = none
do_connect (in_progress none) = some false
do_connect (in_progress (some so_error)) = some (so_error == 0)

pub data Connected : Type 0 where
  stream : ℕ → Connected
  no_address connect_failed not_resolved : Connected

-- The loop over the addresses, and what is behind it.
pub try_addresses : List Address → Connected × List SysCall
try_addresses [] = (no_address, [])
try_addresses (a ∷ rest) =
    let (later, calls) = try_addresses rest in
    elim a.socket [
      | none ↦ (later, calls)
      | some fd ↦ elim (do_connect a.answer) [
        | none ↦ (connect_failed, opens fd ∷ [])
        | some true ↦ (stream fd, opens fd ∷ [])
        | some false ↦ (later, opens fd ∷ closes fd ∷ calls)
      ]
    ]

-- `connect`, over what `getaddrinfo` finds.
pub connect : Option (List Address) → Connected × List SysCall
connect none = (not_resolved, [])
connect (some addresses) = try_addresses addresses

-- The address has no socket, or its connection fails in the end.
abbrev pub Fails : Address → Type 0
Fails a = (a.socket ≡ none) ⊎ ((fd : ℕ) × (a.socket ≡ some fd) × (do_connect a.answer ≡ some false))

abbrev pub AllFail : List Address → Type 0
AllFail [] = Unit {0}
AllFail (a ∷ rest) = Fails a × AllFail rest

-- Addresses that fail are passed over, and their sockets closed.
passed_over :
    (failing rest : List Address) (fds : List ℕ)
    → AllFail failing
    → ((try_addresses (failing ++ rest)).0 ≡ (try_addresses rest).0)
      × (open_fds (try_addresses (failing ++ rest)).1 fds ≡ open_fds (try_addresses rest).1 fds)
unfolding try_addresses
passed_over [] rest fds f = (refl, refl)
passed_over (a ∷ failing) rest fds f =
    let (outcome, left) = passed_over failing rest fds f.1 in
    elim f.0 [
      | inl e ↦ rw (e, try_addresses) (outcome, left)
      | inr (fd, e, g) ↦
          rw (e, g, try_addresses)
            (outcome, open-close fd (try_addresses (failing ++ rest)).1 fds ∙ left)
    ]

decides :
    (later : List Address) (a : Address) (fd : ℕ) (connects : Bool) (fds : List ℕ)
    → a.socket ≡ some fd
    → do_connect a.answer ≡ (if connects then some true else none)
    → ((try_addresses (a ∷ later)).0 ≡ (if connects then stream fd else connect_failed))
      × (open_fds (try_addresses (a ∷ later)).1 fds ≡ fd ∷ fds)
unfolding try_addresses
decides later a fd true fds e g = rw (e, g, try_addresses) (refl, refl)
decides later a fd false fds e g = rw (e, g, try_addresses) (refl, refl)

-- The connector goes through the addresses in their order: those that have no socket or fail in the
-- end leave no descriptor behind. The first that connects is the stream, with its descriptor the one
-- that is left open; where none connects, none is left open. An address that refuses at once ends
-- it with an exception, whatever addresses follow, and its descriptor stays open.
pub connect_lem :
    (failing later : List Address) (a : Address) (fd : ℕ) (connects : Bool) (fds : List ℕ)
    → AllFail failing
    → a.socket ≡ some fd
    → do_connect a.answer ≡ (if connects then some true else none)
    → ((connect (some failing)).0 ≡ no_address)
      × (open_fds (connect (some failing)).1 fds ≡ fds)
      × ((connect (some (failing ++ (a ∷ later)))).0
          ≡ (if connects then stream fd else connect_failed))
      × (open_fds (connect (some (failing ++ (a ∷ later)))).1 fds ≡ fd ∷ fds)
unfolding connect try_addresses
connect_lem failing later a fd connects fds f e g =
    let (alone, left) = passed_over failing [] fds f in
    let (first, kept) = passed_over failing (a ∷ later) fds f in
    let (outcome, open_now) = decides later a fd connects fds e g in
    (
      ap (λ l. (try_addresses l).0) (sym (append-nil failing)) ∙ alone,
      ap (λ l. open_fds (try_addresses l).1 fds) (sym (append-nil failing)) ∙ left,
      first ∙ outcome,
      kept ∙ open_now,
    )
