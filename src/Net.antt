-- ===== src/Net.antt =====
-- Connections: include/net/tcpconnector.hpp, include/net/tcpservice.hpp,
-- include/net/tcpserver.hpp and src/net_addr.cc. What the calls of the kernel answer are arguments; the descriptors that are
-- opened and closed are a list of calls in their order.
pub mod Address
pub mod Connector
pub mod Server
pub mod Service
use mcoro_rpc.Common.{
  ℕ, ◌≡◌, refl, List, [], ◌∷◌, ◌++◌, if◌then◌else◌, ◌==◌, Option, none, some, arith, ap,
}

pub data SysCall : Type 0 where
  opens closes : ℕ → SysCall

-- The descriptors that are open: one that is opened comes first, closing takes the first of its number.
abbrev pub close_one : ℕ → List ℕ → List ℕ
close_one fd [] = []
close_one fd (d ∷ ds) = let rest = close_one fd ds in if d == fd then ds else d ∷ rest

abbrev pub open_fds : List SysCall → List ℕ → List ℕ
open_fds [] fds = fds
open_fds (opens fd ∷ calls) fds = open_fds calls (fd ∷ fds)
open_fds (closes fd ∷ calls) fds = open_fds calls (close_one fd fds)

abbrev pub with_fd : Option ℕ → List ℕ → List ℕ
with_fd none fds = fds
with_fd (some fd) fds = fd ∷ fds

-- A descriptor that is opened and closed leaves the others.
pub open-close :
    (fd : ℕ) (calls : List SysCall) (fds : List ℕ)
    → open_fds (opens fd ∷ closes fd ∷ calls) fds ≡ open_fds calls fds
open-close fd calls fds = ap (open_fds calls) (ground arith)
