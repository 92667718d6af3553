-- ===== src/Resolver/Netstat.antt =====
-- `netstat_fallback::lookup_port_to_pid`: the process of a connection's client, by the table of sockets.
use simple_forwarder.Prelude.{
  ℕ, ◌≡◌, refl, Bool, true, false, ◌&&◌, ◌||◌, Option, none, some, List, [], ◌∷◌, ◌==◌, ==→eq,
  if◌then◌else◌,
}

-- An entry of the system's table of sockets, which is read by a crate.
pub record TcpSocket : Type 0 where
  pub local_port : ℕ
  pub remote_port : ℕ
  pub associated_pids : List ℕ

pub data Socket : Type 0 where
  tcp : TcpSocket → Socket
  udp : Socket

-- Process 0 is the idle process, 4 the system.
abbrev pub is_system : ℕ → Bool
is_system pid = pid == 0 || pid == 4

unfoldable pub client_pid : List ℕ → Option ℕ
client_pid [] = none
client_pid (pid ∷ pids) = if is_system pid then none else some pid

abbrev pub is_client : ℕ → ℕ → TcpSocket → Bool
is_client listen_port remote_port t = t.remote_port == listen_port && t.local_port == remote_port

-- The first socket that matches decides.
unfoldable pub scan : ℕ → ℕ → List Socket → Option ℕ
unfolding client_pid
scan listen_port remote_port [] = none
scan listen_port remote_port (udp ∷ sockets) = scan listen_port remote_port sockets
scan listen_port remote_port (tcp t ∷ sockets) =
    let rest = scan listen_port remote_port sockets in
    if is_client listen_port remote_port t then client_pid t.associated_pids else rest

-- No table means no answer.
unfoldable pub lookup_port_to_pid : Option (List Socket) → ℕ → ℕ → Option ℕ
unfolding scan
lookup_port_to_pid none listen_port remote_port = none
lookup_port_to_pid (some sockets) listen_port remote_port = scan listen_port remote_port sockets

-- A TCP socket of the table from the client's port to the port that the program listens on, which the
-- process owns first.
pub data Owns (listen_port remote_port pid : ℕ) : List Socket → Type 0 where
  here :
      (t : TcpSocket) (pids : List ℕ) (sockets : List Socket)
      → t.remote_port ≡ listen_port
      → t.local_port ≡ remote_port
      → t.associated_pids ≡ pid ∷ pids
      → Owns listen_port remote_port pid (tcp t ∷ sockets)
  there :
      (s : Socket) (sockets : List Socket)
      → Owns listen_port remote_port pid sockets
      → Owns listen_port remote_port pid (s ∷ sockets)

&&-both : (a b : Bool) → (a && b) ≡ true → (a ≡ true) × (b ≡ true)
&&-both true true h = (refl, refl)
&&-both true false h = absurd cc
&&-both false b h = absurd cc

owner :
    (pids : List ℕ) (pid : ℕ)
    → client_pid pids ≡ some pid
    → (rest : List ℕ) × (pids ≡ pid ∷ rest) × (is_system pid ≡ false)
unfolding client_pid
owner [] pid h = absurd cc
owner (p ∷ pids) pid h = go (is_system p) refl h
  where
    go :
        (b : Bool)
        → is_system p ≡ b
        → (if b then none else some p) ≡ some pid
        → (rest : List ℕ) × (p ∷ pids ≡ pid ∷ rest) × (is_system pid ≡ false)
    go true e k = absurd cc
    go false e k = let same : p ≡ pid = cc in (pids, cc, cc)

scan-Owns :
    (listen_port remote_port : ℕ) (sockets : List Socket) (pid : ℕ)
    → scan listen_port remote_port sockets ≡ some pid
    → Owns listen_port remote_port pid sockets × (is_system pid ≡ false)
unfolding scan
scan-Owns listen_port remote_port [] pid h = absurd cc
scan-Owns listen_port remote_port (udp ∷ sockets) pid h =
    let (owns, user) = scan-Owns listen_port remote_port sockets pid h in
    (there udp sockets owns, user)
scan-Owns listen_port remote_port (tcp t ∷ sockets) pid h =
    go (is_client listen_port remote_port t) refl h (scan-Owns listen_port remote_port sockets pid)
  where
    go :
        (b : Bool)
        → is_client listen_port remote_port t ≡ b
        → (if b then client_pid t.associated_pids else scan listen_port remote_port sockets)
          ≡ some pid
        → (scan listen_port remote_port sockets ≡ some pid
            → Owns listen_port remote_port pid sockets × (is_system pid ≡ false))
        → Owns listen_port remote_port pid (tcp t ∷ sockets) × (is_system pid ≡ false)
    go true e k rec =
        let (rest, pids, user) = owner t.associated_pids pid k in
        let (p, q) = &&-both (t.remote_port == listen_port) (t.local_port == remote_port) e in
        (here t rest sockets (==→eq _ _ p) (==→eq _ _ q) pids, user)
    go false e k rec = let (owns, user) = rec k in (there (tcp t) sockets owns, user)

-- A process that is found owns a TCP socket from the client's port to the listening port, and is neither
-- the idle process nor the system.
pub lookup_port_to_pid-Owns :
    (sockets : List Socket) (listen_port remote_port pid : ℕ)
    → lookup_port_to_pid (some sockets) listen_port remote_port ≡ some pid
    → Owns listen_port remote_port pid sockets × (is_system pid ≡ false)
unfolding lookup_port_to_pid
lookup_port_to_pid-Owns sockets listen_port remote_port pid h =
    scan-Owns listen_port remote_port sockets pid h
