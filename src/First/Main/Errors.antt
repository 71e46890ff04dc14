-- ===== src/First/Main/Errors.antt =====
-- The failures of the network, which `main` does not act on.
use me2u.Base.{ℕ, ◌≡◌, Bool-cases, inl, inr, some}
use me2u.CString.{Bytes}
use me2u.System.{Machine, ok}
use me2u.Cli.Main.{Network}
use me2u.First.Strings.{First}
use me2u.First.Main.{open_socket}

pub open_socket_lem :
    (net : Network) (hostaddr port : Bytes) (sockfd : ℕ) (m : Machine First)
    → open_socket net hostaddr port (some sockfd) m ≡ (m, ok sockfd)
unfolding open_socket
open_socket_lem net hostaddr port sockfd m = elim (Bool-cases (net.inet_pton hostaddr)) [
  | inl valid ↦ elim (Bool-cases (net.connect hostaddr port)) [
    | inl up ↦ simp (valid, up)
    | inr down ↦ simp (valid, down)
  ]
  | inr invalid ↦ elim (Bool-cases (net.connect hostaddr port)) [
    | inl up ↦ simp (invalid, up)
    | inr down ↦ simp (invalid, down)
  ]
]
